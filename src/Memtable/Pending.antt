-- ===== src/Memtable/Pending.antt =====
-- `put (Node &)` of a node that was created before, as GetTime makes it: the node gets its clock and is
-- put, while other puts may have come between.
use avocado.Common.{
  ℕ, ◌≤◌, ◌<◌, ◌≡◌, ◌≢◌, inl, inr, refl, ap, ◌∙◌, sym, subst, Bool, true, none, some, List, length,
  arith, Bool-cases, Option-cases,
}
use avocado.Lamport
use avocado.Lamport.{Lamport}
use avocado.Memtable.Interface.{Node, Cipher, SkipList, same}
use avocado.Memtable.Put.{IsValid, some_strong, node_of, same_key}
use avocado.Memtable.{
  MetaData, null, nothing, update, Store, put_node, decrypt_node, get_node, get, RetValue,
}
use avocado.Memtable.Settling.{Settles, put_node_lem}

module _ (cipher : Cipher) (skip_list : SkipList) where
  open cipher use {encrypt, decrypt, decrypt-encrypt}
  open skip_list use {
    T, find, add_or_get, set_meta, find_congr, find-same, add-found, add-absent, find-add,
    find-set_meta,
  }

  -- The clock of a key, as a number
  abbrev pub stamp : Store cipher skip_list → List ℕ → ℕ
  stamp s key = Lamport.to_int (get cipher skip_list s key).lamport

  -- A node that was created and that the list does not have: its meta data is no other node's.
  pub record Waits (s : Store cipher skip_list) (n : Node) : Type 0 where
    pub key_size : n.key_size ≡ length n.key
    pub created : n.meta < s.next
    pub apart : (j o : Node) → find s.table j ≡ some o → o.meta ≢ n.meta
    pub sealed : decrypt (s.heap n.meta).data_bytes (s.heap n.meta).mac ≢ none

  zero_stamp : Lamport.to_int nothing.lamport ≡ 0
  unfolding nothing Lamport.of_int Lamport.to_int
  zero_stamp = refl

  same_as : (n : Node) → n.key_size ≡ length n.key → same n (node_of n.key null) ≡ true
  same_as n e =
      subst
        (λ k.
          same (record { key_size = k; key = n.key; meta = n.meta }) (node_of n.key null) ≡ true)
        (sym e) (same_key n.key n.meta null)

  -- A read by a node is one by its key.
  pub get_node-key :
      (s : Store cipher skip_list) (n : Node)
      → n.key_size ≡ length n.key
      → get cipher skip_list s n.key ≡ get_node cipher skip_list s n
  unfolding get get_node
  get_node-key s n e = ground (arith, find_congr s.table n (node_of n.key null) (same_as n e))

  pub read_stamp :
      (s : Store cipher skip_list)
      → IsValid cipher skip_list s
      → (j : List ℕ) (o : Node) → find s.table (node_of j null) ≡ some o
      → stamp s j ≡ Lamport.to_int (s.heap o.meta).clock
  unfolding get get_node decrypt_node
  read_stamp s v j o found = ground (arith, v.sealed (node_of j null) o found)

  pub no_stamp :
      (s : Store cipher skip_list) (j : List ℕ)
      → find s.table (node_of j null) ≡ none
      → stamp s j ≡ 0
  unfolding get get_node
  no_stamp s j absent = ap (λ (r : RetValue). Lamport.to_int r.lamport) get_nothing ∙ zero_stamp
    where
      get_nothing : get cipher skip_list s j ≡ nothing
      get_nothing = ground (arith, absent)

  module _ (s : Store cipher skip_list) (v : IsValid cipher skip_list s) (n k : Node) (t : T)
      (set : Settles cipher skip_list s n k t) where
    abbrev settled : Store cipher skip_list
    settled = record s { table = t }

    settled-IsValid : IsValid cipher skip_list settled
    settled-IsValid = record {
      created = λ j o found. ground (arith, set.points j, set.created, v.created j o);
      sealed = λ j o found bad. ground (arith, set.points j, set.sealed, v.sealed j o);
    }

    settled-stamp :
        (j : List ℕ)
        → same n (node_of j null) ≡ true
        → stamp settled j ≡ Lamport.to_int (s.heap k.meta).clock
    settled-stamp j h =
        read_stamp settled settled-IsValid j k (ground (arith, set.points (node_of j null)))

    settled_mono : (j : List ℕ) → stamp s j ≤ stamp settled j
    settled_mono j = elim (Option-cases (find s.table (node_of j null))) [
      | inl absent ↦ omega (arith, no_stamp s j absent)
      | inr (o, found) ↦ elim (Bool-cases (same n (node_of j null))) [
        | inl yes_same ↦ omega (
          arith,
          read_stamp s v j o found,
          settled-stamp j yes_same,
          set.kept o (find_congr s.table n (node_of j null) yes_same ∙ found),
        )
        | inr other ↦ omega (
          arith,
          read_stamp s v j o found,
          read_stamp settled settled-IsValid j o (rw (set.points (node_of j null), other) found),
        )
      ]
    ]

  module _ (s : Store cipher skip_list) (v : IsValid cipher skip_list s) (n : Node) (w : Waits s n)
      (clock : Lamport) where
    -- `node.meta->clock = clock`
    abbrev clocked : Store cipher skip_list
    clocked = record s { heap = update s.heap n.meta (record (s.heap n.meta) { clock = clock }) }

    clocked_at : (j o : Node) → find s.table j ≡ some o → clocked.heap o.meta ≡ s.heap o.meta
    clocked_at j o found = ground (arith, w.apart j o found)

    clocked_here : clocked.heap n.meta ≡ record (s.heap n.meta) { clock = clock }
    clocked_here = ground arith

    clocked-IsValid : IsValid cipher skip_list clocked
    clocked-IsValid = record {
      created = v.created;
      sealed = λ j o found. rw (clocked_at j o found) (v.sealed j o found);
    }

    clocked-stamp : (j : List ℕ) → stamp clocked j ≡ stamp s j
    clocked-stamp j = elim (Option-cases (find s.table (node_of j null))) [
      | inl absent ↦ no_stamp clocked j absent ∙ sym (no_stamp s j absent)
      | inr (o, found) ↦
          read_stamp clocked clocked-IsValid j o found
          ∙ ap (λ (m : MetaData). Lamport.to_int m.clock) (clocked_at (node_of j null) o found)
          ∙ sym (read_stamp s v j o found)
    ]

    -- A waiting node that gets its clock and is put: the store stays valid, the key reads with a clock that
    -- is not earlier than the node's, and no key reads with an earlier clock than before.
    pub put_waiting :
        (rounds : List Bool) (stored : Bool) (s' : Store cipher skip_list)
        → some_strong rounds ≡ true
        → put_node cipher skip_list rounds clocked n ≡ some (stored, s')
        → IsValid cipher skip_list s'
          × ((s'.heap n.meta).clock ≡ clock)
          × (Lamport.to_int clock ≤ stamp s' n.key)
          × ((j : List ℕ) → stamp s j ≤ stamp s' j)
    put_waiting rounds stored s' strong run =
        let (stored', t, k, run', set) =
          put_node_lem cipher skip_list clocked clocked-IsValid n w.created
            (rw clocked_here w.sealed) rounds strong in
        let e : record clocked { table = t } ≡ s' = cc in
        subst
          (λ (r : Store cipher skip_list).
            IsValid cipher skip_list r
            × ((r.heap n.meta).clock ≡ clock)
            × (Lamport.to_int clock ≤ stamp r n.key)
            × ((j : List ℕ) → stamp s j ≤ stamp r j))
          e
          (
            settled-IsValid clocked clocked-IsValid n k t set,
            ap MetaData.clock clocked_here,
            own k t set,
            λ j. omega (arith, clocked-stamp j, settled_mono clocked clocked-IsValid n k t set j),
          )
      where
        own :
            (k : Node) (t : T)
            → Settles cipher skip_list clocked n k t
            → Lamport.to_int clock ≤ stamp (record clocked { table = t }) n.key
        own k t set = omega (
          arith,
          settled-stamp clocked clocked-IsValid n k t set n.key (same_as n w.key_size),
          ap (λ (m : MetaData). Lamport.to_int m.clock) clocked_here,
          set.later,
        )

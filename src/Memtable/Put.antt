-- ===== src/Memtable/Put.antt =====
-- What a put does to later reads when no other thread interferes.
use avocado.Common.{
  ℕ, ◌+◌, ◌≤◌, ◌<◌, ◌≡◌, ◌≢◌, ◌⊎◌, refl, ap, ◌∙◌, sym, subst, Bool, true, false, not, ◌&&◌, ◌||◌,
  Option, none, some, List, [], ◌∷◌, length, if◌then◌else◌, Bool-cases, Option-cases, inl, inr,
  arith,
}
use avocado.Lamport
use avocado.Lamport.{Lamport}
use avocado.Memtable.Interface.{Node, Cipher, SkipList, same}
use avocado.Memtable.KeyOrder.{same_iff}
use avocado.Memtable.{
  MetaData, RetValue, null, nothing, update, put_loop, Store, put, decrypt_node, get_node, get,
}

-- Some compare-exchange does not fail spuriously.
abbrev pub some_strong : List Bool → Bool
some_strong [] = false
some_strong (spurious ∷ rounds) = not spurious || some_strong rounds

-- With no interference the loop ends: it writes the new pointer if its clock is later.
pub put_loop_lem :
    (heap : ℕ → MetaData) (rounds : List Bool) (meta new : ℕ)
    → some_strong rounds ≡ true
    → put_loop heap rounds meta meta new
      ≡ some (if Lamport.lt (heap meta).clock (heap new).clock then (new, meta) else (meta, meta))
unfolding put_loop
put_loop_lem heap [] meta new h = cc
put_loop_lem heap (spurious ∷ rounds) meta new h = ground (arith, put_loop_lem heap rounds meta new)

abbrev pub node_of : List ℕ → ℕ → Node
node_of key meta = record { key_size = length key; key = key; meta = meta }

pub same_key : (key : List ℕ) (a b : ℕ) → same (node_of key a) (node_of key b) ≡ true
same_key key a b = (same_iff (node_of key a) (node_of key b) refl refl).1 refl

module _ (cipher : Cipher) (skip_list : SkipList) where
  open cipher use {encrypt, decrypt, decrypt-encrypt}
  open skip_list use {
    T, find, add_or_get, set_meta, find_congr, find-same, add-found, add-absent, find-add,
    find-set_meta,
  }

  -- Every node of the list has meta data that was created, and whose tag is right.
  pub record IsValid (s : Store cipher skip_list) : Type 0 where
    pub created : (j n : Node) → find s.table j ≡ some n → n.meta < s.next
    pub sealed :
        (j n : Node)
        → find s.table j ≡ some n
        → decrypt (s.heap n.meta).data_bytes (s.heap n.meta).mac ≢ none

  -- The put is the first at its key, or later than what the key has.
  abbrev pub verdict : Store cipher skip_list → Lamport → Option Node → Bool
  verdict s clock none = true
  verdict s clock (some n) = Lamport.lt (s.heap n.meta).clock clock

  abbrev pub accepts : Store cipher skip_list → List ℕ → Lamport → Bool
  accepts s key clock = verdict s clock (find s.table (node_of key null))

  abbrev pub read_found : Store cipher skip_list → Option Node → RetValue
  read_found s found = elim found [ none ↦ nothing | some n ↦ decrypt_node cipher skip_list s n ]

  module _ (s : Store cipher skip_list) (v : IsValid s) (key value : List ℕ) (clock : Lamport) where
    abbrev fresh : Node
    fresh = node_of key s.next

    abbrev heap' : ℕ → MetaData
    heap' = update s.heap s.next (record {
      mac = (encrypt value).1;
      data_size = length value;
      clock = clock;
      data_bytes = (encrypt value).0;
    })

    find_fresh : find s.table fresh ≡ find s.table (node_of key null)
    find_fresh = find_congr s.table fresh (node_of key null) (same_key key s.next null)

    abbrev with_table : T → Store cipher skip_list
    with_table table = record { table = table; heap = heap'; next = s.next + 1; slot = s.slot }

    abbrev written : RetValue
    written = record { lamport = clock; size = length value; value = some value }

    -- A table that finds a node with the new address at the key, and is the old one elsewhere.
    abbrev Points : T → Node → Type 0
    Points table n =
        (n.meta ≡ s.next)
        × ((j : Node) → find table j ≡ (if same fresh j then some n else find s.table j))

    decrypt_fresh :
        (n : Node)
        → n.meta ≡ s.next
        → (t : T) → decrypt_node cipher skip_list (with_table t) n ≡ written
    unfolding decrypt_node
    decrypt_fresh n e t = ground (arith, e, decrypt-encrypt value)

    decrypt_old :
        (n : Node) (t : T)
        → n.meta < s.next
        → decrypt_node cipher skip_list (with_table t) n ≡ decrypt_node cipher skip_list s n
    unfolding decrypt_node
    decrypt_old n t h = let e : heap' n.meta ≡ s.heap n.meta = ground arith in ap read_meta e
      where
        read_meta : MetaData → RetValue
        read_meta meta = elim (decrypt meta.data_bytes meta.mac) [
          | none ↦ nothing
          | some plain ↦ record { lamport = meta.clock; size = meta.data_size; value = some plain }
        ]

    Points-reads :
        (t : T) (n : Node)
        → Points t n
        → (j : List ℕ)
        → get cipher skip_list (with_table t) j
          ≡ (if same fresh (node_of j null) then written else get cipher skip_list s j)
    unfolding get_node get
    Points-reads t n p j =
        ap (read_found (with_table t)) (p.1 (node_of j null))
        ∙ go (same fresh (node_of j null)) (Option-cases (find s.table (node_of j null)))
      where
        old : Option Node
        old = find s.table (node_of j null)

        go :
            (b : Bool)
            → (old ≡ none) ⊎ ((m : Node) × (old ≡ some m))
            → read_found (with_table t) (if b then some n else old)
              ≡ (if b then written else read_found s old)
        go true c = decrypt_fresh n p.0 t
        go false (inl e) = rw e
        go false (inr (m, e)) = rw e (decrypt_old m t (v.created (node_of j null) m e))

    Points-IsValid : (t : T) (n : Node) → Points t n → IsValid (with_table t)
    Points-IsValid t n p = record {
      created = λ j m found. ground (arith, p.0, p.1 j, v.created j m);
      sealed = λ j m found bad.
          ground (arith, p.0, p.1 j, v.created j m, v.sealed j m, decrypt-encrypt value);
    }

    abbrev Outcome : List Bool → Bool → Type 0
    Outcome rounds accepted =
        (s' : Store cipher skip_list) × (put cipher skip_list rounds s key value clock
          ≡ some (accepted, s'))
        × IsValid s'
        × ((j : List ℕ)
            → get cipher skip_list s' j ≡ (
                if accepted && same fresh (node_of j null)
                then written
                else get cipher skip_list s j))

    module _ (rounds : List Bool) (strong : some_strong rounds ≡ true)
        (fits : length value ≤ s.slot) where
      put_absent : find s.table fresh ≡ none → Outcome rounds true
      unfolding put
      put_absent absent = (
        with_table table,
        ground (arith, add-absent s.table fresh absent),
        Points-IsValid table fresh points,
        Points-reads table fresh points,
      )
        where
          table : T
          table = (add_or_get s.table fresh).2

          points : Points table fresh
          points = (refl, λ j. find-add s.table fresh j absent)

      module _ (n : Node) (found : find s.table fresh ≡ some n) where
        abbrev later : Bool
        later = Lamport.lt (s.heap n.meta).clock clock

        old : heap' n.meta ≡ s.heap n.meta
        old = ground (arith, v.created fresh n found)

        clocks : Lamport.lt (heap' n.meta).clock (heap' s.next).clock ≡ later
        clocks = ground (arith, old)

        loop_ends :
            put_loop heap' rounds n.meta n.meta s.next
            ≡ some (if later then (s.next, n.meta) else (n.meta, n.meta))
        loop_ends =
            put_loop_lem heap' rounds n.meta s.next strong
            ∙ ap (λ b. some (if b then (s.next, n.meta) else (n.meta, n.meta))) clocks

        run_found :
            put cipher skip_list rounds s key value clock
            ≡ some (later, with_table (set_meta s.table fresh (if later then s.next else n.meta)))
        unfolding put
        run_found = ground (arith, add-found s.table fresh n found, loop_ends, clocks)

        put_later : later ≡ true → Outcome rounds true
        put_later l = (
          with_table table,
          rw (run_found, l),
          Points-IsValid table (record n { meta = s.next }) points,
          Points-reads table (record n { meta = s.next }) points,
        )
          where
            table : T
            table = set_meta s.table fresh s.next

            points : Points table (record n { meta = s.next })
            points = (refl, λ j. find-set_meta s.table fresh n j s.next found)

        put_older : later ≡ false → Outcome rounds false
        unfolding get
        put_older l = (
          with_table table,
          rw (run_found, l),
          record {
            created = λ j m h. ground (arith, v.created j m, keeps j);
            sealed = λ j m h bad. ground (arith, v.created j m, v.sealed j m, keeps j);
          },
          λ j.
              ap (read_found (with_table table)) (keeps (node_of j null))
              ∙ go j (Option-cases (find s.table (node_of j null))),
        )
          where
            table : T
            table = set_meta s.table fresh n.meta

            keeps : (j : Node) → find table j ≡ find s.table j
            keeps j =
                ground
                  (arith, find-set_meta s.table fresh n j n.meta found, find_congr s.table fresh j)

            go :
                (j : List ℕ)
                → (find s.table (node_of j null) ≡ none)
                  ⊎ ((m : Node) × (find s.table (node_of j null) ≡ some m))
                → read_found (with_table table) (find s.table (node_of j null))
                  ≡ read_found s (find s.table (node_of j null))
            go j (inl e) = rw e
            go j (inr (m, e)) = rw e (decrypt_old m table (v.created (node_of j null) m e))

      -- A put into a slot that fits ends, and tells whether it was accepted: whether it is the first
      -- at its key, or later than the clock that the key has. If so every read of its key returns its
      -- clock and value from then on; otherwise no read changes, and no other key's read changes in
      -- either case. The store is valid, and some compare-exchange is not spurious.
      pub put-Outcome : Outcome rounds (accepts s key clock)
      put-Outcome = go (find s.table fresh) refl
        where
          go : (o : Option Node) → find s.table fresh ≡ o → Outcome rounds (accepts s key clock)
          go none e =
              subst (Outcome rounds) (ap (verdict s clock) (sym e ∙ find_fresh)) (put_absent e)
          go (some n) e =
              subst (Outcome rounds) (ap (verdict s clock) (sym e ∙ find_fresh))
                (elim (Bool-cases (later n e)) [
                  | inl yes_later ↦ subst (Outcome rounds) (sym yes_later) (put_later n e yes_later)
                  | inr not_later ↦ subst (Outcome rounds) (sym not_later) (put_older n e not_later)
                ])

-- ===== src/Memtable/Creation.antt =====
-- What `create_node` leaves: a store with the same reads, and a node that waits to be put.
use avocado.Common.{
  ℕ, ◌+◌, leb, ◌≤◌, ◌≡◌, inl, inr, refl, ap, ◌∙◌, sym, subst, true, some, List, length, arith,
  Option-cases,
}
use avocado.Lamport
use avocado.Lamport.{Lamport}
use avocado.Memtable.Interface.{Node, Cipher, SkipList}
use avocado.Memtable.Pending.{Waits, stamp, read_stamp, no_stamp}
use avocado.Memtable.Put.{IsValid, node_of}
use avocado.Memtable.{MetaData, null, update, Store, create_node}

module _ (cipher : Cipher) (skip_list : SkipList) where
  open cipher use {encrypt, decrypt, decrypt-encrypt}
  open skip_list use {find}

  -- `create_node` leaves all reads alone, and its node waits to be put.
  pub create_node-Waits :
      (s : Store cipher skip_list) (key value : List ℕ) (clock : Lamport) (n : Node)
      (s' : Store cipher skip_list)
      → IsValid cipher skip_list s
      → create_node cipher skip_list s key value clock ≡ some (n, s')
      → IsValid cipher skip_list s'
        × Waits cipher skip_list s' n
        × (s'.slot ≡ s.slot)
        × ((j : List ℕ) → stamp cipher skip_list s j ≤ stamp cipher skip_list s' j)
  unfolding create_node
  create_node-Waits s key value clock n s' v run =
      let fits : leb (length value) s.slot ≡ true = ground arith in
      let made : ◌≡◌ {A = Node × Store cipher skip_list} (node_of key s.next, grown) (n, s') = cc in
      subst
        (λ (r : Node × Store cipher skip_list).
          IsValid cipher skip_list r.1
          × Waits cipher skip_list r.1 r.0
          × (r.1.slot ≡ s.slot)
          × ((j : List ℕ) → stamp cipher skip_list s j ≤ stamp cipher skip_list r.1 j))
        made
        (
          grown-IsValid,
          record {
            key_size = refl;
            created = omega arith;
            apart = λ j o found. ground (arith, v.created j o found);
            sealed = λ bad. ground (arith, decrypt-encrypt value);
          },
          refl,
          λ j. omega (arith, grown_stamp j),
        )
    where
      grown : Store cipher skip_list
      grown = record s {
        heap = update s.heap s.next (record {
          mac = (encrypt value).1;
          data_size = length value;
          clock = clock;
          data_bytes = (encrypt value).0;
        });
        next = s.next + 1;
      }

      as_before : (j o : Node) → find s.table j ≡ some o → grown.heap o.meta ≡ s.heap o.meta
      as_before j o found = ground (arith, v.created j o found)

      grown-IsValid : IsValid cipher skip_list grown
      grown-IsValid = record {
        created = λ j o found. omega (arith, v.created j o found);
        sealed = λ j o found. rw (as_before j o found) (v.sealed j o found);
      }

      grown_stamp : (j : List ℕ) → stamp cipher skip_list grown j ≡ stamp cipher skip_list s j
      grown_stamp j = elim (Option-cases (find s.table (node_of j null))) [
        | inl absent ↦
            no_stamp cipher skip_list grown j absent ∙ sym (no_stamp cipher skip_list s j absent)
        | inr (o, found) ↦
            read_stamp cipher skip_list grown grown-IsValid j o found
            ∙ ap (λ (m : MetaData). Lamport.to_int m.clock) (as_before (node_of j null) o found)
            ∙ sym (read_stamp cipher skip_list s v j o found)
      ]

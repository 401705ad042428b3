-- ===== src/Memtable/Settling.antt =====
-- What `put (Node &)` of a node that was created before does to the skip list.
use avocado.Common.{
  ◌≤◌, ◌<◌, ◌≡◌, ◌≢◌, inl, inr, Bool, true, false, none, some, List, arith, Bool-cases,
  Option-cases, if◌then◌else◌,
}
use avocado.Lamport
use avocado.Lamport.{Lamport}
use avocado.Memtable.Interface.{Node, Cipher, SkipList, same}
use avocado.Memtable.Put.{IsValid, some_strong, put_loop_lem}
use avocado.Memtable.{Store, put_node}

module _ (cipher : Cipher) (skip_list : SkipList) where
  open cipher use {encrypt, decrypt, decrypt-encrypt}
  open skip_list use {
    T, find, add_or_get, set_meta, find_congr, find-same, add-found, add-absent, find-add,
    find-set_meta,
  }

  -- A table that has the node `k` at the place of `n`, and is the old one elsewhere; `k` is not earlier
  -- than `n` and than what was there.
  pub record Settles (s : Store cipher skip_list) (n k : Node) (t : T) : Type 0 where
    pub points : (j : Node) → find t j ≡ (if same n j then some k else find s.table j)
    pub later : Lamport.to_int (s.heap n.meta).clock ≤ Lamport.to_int (s.heap k.meta).clock
    pub kept :
        (o : Node)
        → find s.table n ≡ some o
        → Lamport.to_int (s.heap o.meta).clock ≤ Lamport.to_int (s.heap k.meta).clock
    pub created : k.meta < s.next
    pub sealed : decrypt (s.heap k.meta).data_bytes (s.heap k.meta).mac ≢ none

  module _ (s : Store cipher skip_list) (v : IsValid cipher skip_list s) (n : Node)
      (created : n.meta < s.next)
      (sealed : decrypt (s.heap n.meta).data_bytes (s.heap n.meta).mac ≢ none) (rounds : List Bool)
      (strong : some_strong rounds ≡ true) where
    abbrev pub Settled : Type 0
    Settled =
        (stored : Bool) × (t : T) × (k : Node) × (put_node cipher skip_list rounds s n
          ≡ some (stored, record s { table = t }))
        × Settles s n k t

    settle_absent : find s.table n ≡ none → Settled
    unfolding put_node
    settle_absent absent = (
      true,
      (add_or_get s.table n).2,
      n,
      ground (arith, add-absent s.table n absent),
      record {
        points = λ j. find-add s.table n j absent;
        later = omega arith;
        kept = λ o found. cc;
        created = created;
        sealed = sealed;
      },
    )

    settle_found : (o : Node) → find s.table n ≡ some o → Settled
    unfolding put_node Lamport.lt
    settle_found o found =
        elim (Bool-cases (Lamport.lt (s.heap o.meta).clock (s.heap n.meta).clock)) [
          | inl later ↦ (
            true,
            set_meta s.table n n.meta,
            record o { meta = n.meta },
            ground (
              arith,
              add-found s.table n o found,
              put_loop_lem s.heap rounds o.meta n.meta strong,
              later,
            ),
            record {
              points = λ j. find-set_meta s.table n o j n.meta found;
              later = omega arith;
              kept = λ p h. ground (arith, later);
              created = created;
              sealed = sealed;
            },
          )
          | inr older ↦ (
            false,
            set_meta s.table n o.meta,
            record o { meta = o.meta },
            ground (
              arith,
              add-found s.table n o found,
              put_loop_lem s.heap rounds o.meta n.meta strong,
              older,
            ),
            record {
              points = λ j. find-set_meta s.table n o j o.meta found;
              later = ground (arith, older);
              kept = λ p h. ground arith;
              created = v.created n o found;
              sealed = v.sealed n o found;
            },
          )
        ]

    pub put_node_lem : Settled
    put_node_lem = elim (Option-cases (find s.table n)) [
      | inl absent ↦ settle_absent absent
      | inr (o, found) ↦ settle_found o found
    ]

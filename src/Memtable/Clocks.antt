-- ===== src/Memtable/Clocks.antt =====
-- What a put that no other thread disturbs does to the clocks of keys.
use avocado.Common.{
  ℕ, ◌≤◌, ◌≡◌, refl, ap, ◌∙◌, sym, subst, Bool, true, false, Option, none, some, List, length,
  arith,
}
use avocado.Lamport
use avocado.Lamport.{Lamport}
use avocado.Memtable.Interface.{Node, Cipher, SkipList, same}
use avocado.Memtable.{null, Store, put, decrypt_node, get}
use avocado.Memtable.Put.{
  IsValid, some_strong, node_of, same_key, verdict, accepts, read_found, put-Outcome,
}

module _ (cipher : Cipher) (skip_list : SkipList) where
  open skip_list use {T, find, find_congr}

  module _ (s : Store cipher skip_list) (v : IsValid cipher skip_list s) (key value : List ℕ)
      (clock : Lamport) where
    abbrev fresh : Node
    fresh = node_of key s.next

    read_stamp :
        (o : Option Node)
        → find s.table (node_of key null) ≡ o
        → (verdict cipher skip_list s clock o ≡ true
            → Lamport.to_int (read_found cipher skip_list s o).lamport ≤ Lamport.to_int clock)
          × (verdict cipher skip_list s clock o ≡ false
              → Lamport.to_int clock ≤ Lamport.to_int (read_found cipher skip_list s o).lamport)
    unfolding decrypt_node Lamport.lt
    read_stamp none e = (λ h. omega arith, λ h. cc)
    read_stamp (some n) e = ground (arith, v.sealed (node_of key null) n e)

    -- The clock that the key reads with is on the verdict's side of the put's clock.
    key_stamp :
        (accepts cipher skip_list s key clock ≡ true
          → Lamport.to_int (get cipher skip_list s key).lamport ≤ Lamport.to_int clock)
        × (accepts cipher skip_list s key clock ≡ false
            → Lamport.to_int clock ≤ Lamport.to_int (get cipher skip_list s key).lamport)
    unfolding get
    key_stamp = read_stamp (find s.table (node_of key null)) refl

    reads_alike :
        (j : List ℕ)
        → same fresh (node_of j null) ≡ true
        → get cipher skip_list s j ≡ get cipher skip_list s key
    unfolding get
    reads_alike j h = ap (read_found cipher skip_list s) (
        sym (find_congr s.table fresh (node_of j null) h)
        ∙ find_congr s.table fresh (node_of key null) (same_key key s.next null))

    -- After any such put the key reads with a clock that is not earlier than the put's, and no key
    -- reads with an earlier clock than before.
    pub put-clocks :
        (rounds : List Bool) (strong : some_strong rounds ≡ true) (fits : length value ≤ s.slot)
        (s' : Store cipher skip_list) (ok : Bool)
        → put cipher skip_list rounds s key value clock ≡ some (ok, s')
        → (Lamport.to_int clock ≤ Lamport.to_int (get cipher skip_list s' key).lamport)
          × ((j : List ℕ)
              → Lamport.to_int (get cipher skip_list s j).lamport
                ≤ Lamport.to_int (get cipher skip_list s' j).lamport)
    put-clocks rounds strong fits s' ok run =
        let (s'', run', _, reads) =
          put-Outcome cipher skip_list s v key value clock rounds strong fits in
        let e : s'' ≡ s' = cc in
        subst Later e (
          ground (arith, reads key, same_key key s.next null, key_stamp),
          λ j. ground (arith, reads j, key_stamp, reads_alike j),
        )
      where
        Later : Store cipher skip_list → Type 0
        Later t =
            (Lamport.to_int clock ≤ Lamport.to_int (get cipher skip_list t key).lamport)
            × ((j : List ℕ)
                → Lamport.to_int (get cipher skip_list s j).lamport
                  ≤ Lamport.to_int (get cipher skip_list t j).lamport)

-- ===== src/Store/Positions.antt =====
-- The buckets of the hash tables are lists of src/include/list.h: what `insert_after` and `erase_after`
-- do at a position is what `emplace_after` and `erase_after` do at the iterator that gets there.
use avocado.Common.{
  ℕ, zero, suc, ◌≤◌, ◌<◌, ◌≡◌, refl, ap, sym, ◌∙◌, subst, true, false, some, List, [], ◌∷◌, ◌++◌,
  length, length-append, arith, ◌>>=◌,
}
use avocado.LinkedList.Chain.{Chain, uses, distinct, values}
use avocado.LinkedList.Insert.{
  emplace_after_lem, emplace_before_lem, erase_after_lem, erase_before_lem,
}
use avocado.LinkedList.Split.{
  advance, Split, split, unused, distinct_insert, distinct_erase, length-values,
}
use avocado.LinkedList.{NodeList, Node, Iterator, before_begin, begin_of, increment, emplace_after}
use avocado.LinkedList
use avocado.Store.Table.{insert_after, erase_after}

module _ {A : Type 0} where
  abbrev pub position : NodeList A → ℕ → Iterator
  position l i = advance l.nodes (before_begin l) i

  -- The list holds these values, in nodes of its own.
  pub record Represents (l : NodeList A) (vs : List A) : Type 0 where
    pub cells : List (ℕ × A)
    pub chain : Chain l.nodes l.head cells
    pub apart : distinct cells ≡ true
    pub holds : values cells ≡ vs

  insert_behind :
      (before after : List (ℕ × A)) (a b : ℕ) (x v : A)
      → insert_after (values (before ++ ((a, x) ∷ after))) (suc (length before)) v
        ≡ some (values (before ++ ((a, x) ∷ (b, v) ∷ after)))
  unfolding insert_after
  insert_behind [] after a b x v = refl
  insert_behind ((c, y) ∷ before) after a b x v =
      rw (insert_behind before after a b x v, ◌>>=◌) refl

  erase_behind :
      (before after : List (ℕ × A)) (a b : ℕ) (x y : A)
      → erase_after (values (before ++ ((a, x) ∷ (b, y) ∷ after))) (suc (length before))
        ≡ some (values (before ++ ((a, x) ∷ after)))
  unfolding erase_after
  erase_behind [] after a b x y = refl
  erase_behind ((c, z) ∷ before) after a b x y = rw (erase_behind before after a b x y, ◌>>=◌) refl

  values_at :
      {vs : List A} {cells parts : List (ℕ × A)}
      → values cells ≡ vs
      → cells ≡ parts
      → vs ≡ values parts
  values_at holds split_up = sym holds ∙ ap values split_up

  Represents-Split :
      (l : NodeList A) (vs : List A) (i : ℕ)
      → (r : Represents l vs) → i < length vs
      → Split l.nodes l.head r.cells i
  Represents-Split l vs i r h =
      split l.nodes l.head r.cells i r.chain
        (omega (arith, h, length-values r.cells, ap length r.holds))

  -- What an insertion at an iterator makes of the list is what one at a position makes of its values.
  abbrev pub Inserted : NodeList A → List A → Iterator → ℕ → A → Type 0
  Inserted l vs it i v =
      (l' : NodeList A) × (it' : Iterator) × (vs' : List A) × (emplace_after l it v
        ≡ some (l', it'))
      × (insert_after vs i v ≡ some vs')
      × Represents l' vs'

  -- At every position of the list both insertions come to an end, and the list then holds what the
  -- insertion into its values gives: at position 0 the new value alone.
  insert_refines :
      (l : NodeList A) (vs : List A) (i : ℕ) (v : A)
      → Represents l vs
      → i ≤ length vs
      → Inserted l vs (position l i) i v
  unfolding insert_after Chain increment
  insert_refines l vs zero v r h =
      let (l', runs, c) = emplace_before_lem l v in
      (
        l',
        begin_of l',
        v ∷ [],
        runs,
        refl,
        record { cells = (length l.nodes, v) ∷ []; chain = c; apart = refl; holds = refl },
      )
  insert_refines l vs (suc i) v r h =
      let s = Represents-Split l vs i r (omega (arith, h)) in
      let (a, x) = s.cell in
      let new = length l.nodes in
      let apart = subst (λ cells. distinct cells ≡ true) s.parts r.apart in
      let (l', runs, c) =
        emplace_after_lem l s.before s.after a x v apart
          (subst (Chain l.nodes l.head) s.parts r.chain) in
      (
        l',
        record { ptr = some new; before_head = false },
        values (s.before ++ ((a, x) ∷ (new, v) ∷ s.after)),
        ap (λ it. emplace_after l it v) s.reached ∙ runs,
        ap (λ w. insert_after w (suc i) v) (values_at r.holds s.parts)
            ∙ ap (λ k. insert_after (values (s.before ++ ((a, x) ∷ s.after))) (suc k) v)
                (sym s.at_i)
            ∙ insert_behind s.before s.after a new x v,
        record {
          cells = s.before ++ ((a, x) ∷ (new, v) ∷ s.after);
          chain = c;
          apart = distinct_insert s.before s.after a new x v apart (
              subst (λ cells. uses new cells ≡ false) s.parts
                (unused l.nodes l.head r.cells r.chain));
          holds = refl;
        },
      )

  -- And a deletion
  abbrev pub Erased : NodeList A → List A → Iterator → ℕ → Type 0
  Erased l vs it i =
      (l' : NodeList A) × (it' : Iterator) × (vs' : List A) × (LinkedList.erase_after l it
        ≡ some (l', it'))
      × (erase_after vs i ≡ some vs')
      × Represents l' vs'

  erase_second :
      (l : NodeList A) (vs : List A) (before after : List (ℕ × A)) (a : ℕ) (x : A)
      → Chain l.nodes l.head (before ++ ((a, x) ∷ after))
      → distinct (before ++ ((a, x) ∷ after)) ≡ true
      → vs ≡ values (before ++ ((a, x) ∷ after))
      → suc (length before) < length vs
      → Erased l vs (record { ptr = some a; before_head = false }) (suc (length before))
  erase_second l vs before [] a x c d e h = absurd (
      omega (
        arith,
        h,
        ap length e,
        length-values (before ++ ((a, x) ∷ [])),
        length-append before ((a, x) ∷ []),
      ))
  erase_second l vs before ((b, y) ∷ after) a x c d e h =
      let (l', runs, c') = erase_after_lem l before after a b x y d c in
      (
        l',
        record { ptr = some a; before_head = false },
        values (before ++ ((a, x) ∷ after)),
        runs,
        ap (λ w. erase_after w (suc (length before))) e ∙ erase_behind before after a b x y,
        record {
          cells = before ++ ((a, x) ∷ after);
          chain = c';
          apart = distinct_erase before after a b x y d;
          holds = refl;
        },
      )

  -- At every position before an entry both deletions come to an end, and the list then holds what the
  -- deletion from its values leaves.
  erase_refines :
      (l : NodeList A) (vs : List A) (i : ℕ)
      → Represents l vs
      → i < length vs
      → Erased l vs (position l i) i
  unfolding erase_after Chain increment
  erase_refines l vs zero r h = erase_first r.cells r.chain r.apart r.holds
    where
      erase_first :
          (cells : List (ℕ × A))
          → Chain l.nodes l.head cells
          → distinct cells ≡ true
          → values cells ≡ vs
          → Erased l vs (before_begin l) 0
      erase_first [] c d e = absurd (omega (arith, h, ap length e))
      erase_first ((a, x) ∷ cells) c d e =
          let (l', runs, c') = erase_before_lem l cells a x d c in
          (
            l',
            before_begin l',
            values cells,
            runs,
            ap (λ w. erase_after w 0) (sym e),
            record { cells = cells; chain = c'; apart = ground (arith, d); holds = refl },
          )
  erase_refines l vs (suc i) r h =
      let s = Represents-Split l vs i r (omega (arith, h)) in
      subst (λ k. Erased l vs (position l (suc i)) (suc k)) s.at_i
        (subst (λ it. Erased l vs it (suc (length s.before))) (sym s.reached)
          (erase_second l vs s.before s.after s.cell.0 s.cell.1
            (subst (Chain l.nodes l.head) s.parts r.chain)
            (subst (λ cells. distinct cells ≡ true) s.parts r.apart) (values_at r.holds s.parts)
            (omega (arith, s.at_i, h))))

  -- At every position of the list an insertion into the list and one into its values come to an end, and
  -- the list then holds what is in the values: at position 0, the new value alone. At every position before
  -- an entry a deletion does too.
  pub positions_refine :
      (l : NodeList A) (vs : List A) (i : ℕ) (v : A)
      → Represents l vs
      → i < length vs
      → Inserted l vs (position l i) i v
        × Inserted l vs (position l (length vs)) (length vs) v
        × Erased l vs (position l i) i
  positions_refine l vs i v r h = (
    insert_refines l vs i v r (omega (arith, h)),
    insert_refines l vs (length vs) v r (omega arith),
    erase_refines l vs i r h,
  )

-- ===== src/LinkedList/Split.antt =====
-- The cells of a list around the one that an iterator gets to, and lists with a cell more or less.
use avocado.Common.{
  ℕ, zero, suc, ◌<◌, ◌≡◌, refl, ap, true, false, Option, some, List, [], ◌∷◌, ◌++◌, length, arith,
}
use avocado.LinkedList.Chain.{Chain, uses, distinct, values, get_elem?-lt}
use avocado.LinkedList.Insert.{uses-append}
use avocado.LinkedList.{Node, Iterator, increment}

module _ {A : Type 0} where
  -- The iterator that `i` increments make of `before_begin ()`
  abbrev pub advance : List (Node A) → Iterator → ℕ → Iterator
  advance nodes it zero = it
  advance nodes it (suc i) = advance nodes (increment nodes it) i

  -- The cells before and behind the one that a position is at
  pub record Split (nodes : List (Node A)) (p : Option ℕ) (cells : List (ℕ × A)) (i : ℕ)
      : Type 0 where
    pub before : List (ℕ × A)
    pub cell : ℕ × A
    pub after : List (ℕ × A)
    pub parts : cells ≡ before ++ (cell ∷ after)
    pub at_i : length before ≡ i
    pub reached :
        advance nodes (record { ptr = p; before_head = false }) i
        ≡ record { ptr = some cell.0; before_head = false }

  pub split :
      (nodes : List (Node A)) (p : Option ℕ) (cells : List (ℕ × A)) (i : ℕ)
      → Chain nodes p cells
      → i < length cells
      → Split nodes p cells i
  unfolding Chain increment
  split nodes p [] i c h = absurd (omega arith)
  split nodes p ((a, x) ∷ cells) zero (e, next, at, rest) h = record {
    before = [];
    cell = (a, x);
    after = cells;
    parts = refl;
    at_i = refl;
    reached = ap (λ q. record { ptr = q; before_head = false }) e;
  }
  split nodes p ((a, x) ∷ cells) (suc i) (e, next, at, rest) h =
      let s = split nodes next cells i rest (omega (arith, h)) in
      record {
        before = (a, x) ∷ s.before;
        cell = s.cell;
        after = s.after;
        parts = ap (◌∷◌ (a, x)) s.parts;
        at_i = omega (arith, s.at_i);
        reached = rw (e, at) s.reached;
      }

  -- No cell is at the address after all others.
  pub unused :
      (nodes : List (Node A)) (p : Option ℕ) (cells : List (ℕ × A))
      → Chain nodes p cells
      → uses (length nodes) cells ≡ false
  unfolding Chain
  unused nodes p [] c = refl
  unused nodes p ((a, x) ∷ cells) (e, next, at, rest) =
      ground (arith, get_elem?-lt nodes a _ at, unused nodes next cells rest)

  pub distinct_insert :
      (before after : List (ℕ × A)) (a b : ℕ) (x v : A)
      → distinct (before ++ ((a, x) ∷ after)) ≡ true
      → uses b (before ++ ((a, x) ∷ after)) ≡ false
      → distinct (before ++ ((a, x) ∷ (b, v) ∷ after)) ≡ true
  distinct_insert [] after a b x v d u = ground (arith, d, u)
  distinct_insert ((c, y) ∷ before) after a b x v d u = ground (
    arith,
    d,
    u,
    distinct_insert before after a b x v,
    uses-append c before ((a, x) ∷ after),
    uses-append c before ((a, x) ∷ (b, v) ∷ after),
  )

  pub distinct_erase :
      (before after : List (ℕ × A)) (a b : ℕ) (x v : A)
      → distinct (before ++ ((a, x) ∷ (b, v) ∷ after)) ≡ true
      → distinct (before ++ ((a, x) ∷ after)) ≡ true
  distinct_erase [] after a b x v d = ground (arith, d)
  distinct_erase ((c, y) ∷ before) after a b x v d = ground (
    arith,
    d,
    distinct_erase before after a b x v,
    uses-append c before ((a, x) ∷ after),
    uses-append c before ((a, x) ∷ (b, v) ∷ after),
  )

  pub length-values : (cells : List (ℕ × A)) → length (values cells) ≡ length cells
  length-values [] = refl
  length-values ((a, x) ∷ cells) = ap suc (length-values cells)

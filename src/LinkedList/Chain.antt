-- ===== src/LinkedList/Chain.antt =====
-- What a list of nodes holds: the addresses and values from a node on, in order.
use avocado.Common.{
  ℕ, zero, suc, ◌<◌, ◌≡◌, refl, ◌∙◌, Bool, true, false, not, ◌&&◌, ◌||◌, Option, none, some, List,
  [], ◌∷◌, ◌++◌, length, get_elem?, set, get_elem?-set_ne, ◌==◌, arith, if◌then◌else◌, ◌>>=◌,
}
use avocado.LinkedList.{Node, Iterator, iterator_eq, end_of_list, increment, deref}

pub get_elem?-append_left :
    {B : Type 0} (xs ys : List B) (i : ℕ) (x : B)
    → get_elem? xs i ≡ some x
    → get_elem? (xs ++ ys) i ≡ some x
get_elem?-append_left [] ys i x h = absurd (ground (arith, h))
get_elem?-append_left (y ∷ xs) ys zero x h = h
get_elem?-append_left (y ∷ xs) ys (suc i) x h = get_elem?-append_left xs ys i x h

pub get_elem?-append_new :
    {B : Type 0} (xs : List B) (y : B) → get_elem? (xs ++ (y ∷ [])) (length xs) ≡ some y
get_elem?-append_new [] y = refl
get_elem?-append_new (x ∷ xs) y = get_elem?-append_new xs y

pub get_elem?-lt :
    {B : Type 0} (xs : List B) (i : ℕ) (x : B) → get_elem? xs i ≡ some x → i < length xs
get_elem?-lt [] i x h = absurd (ground (arith, h))
get_elem?-lt (y ∷ xs) zero x h = omega arith
get_elem?-lt (y ∷ xs) (suc i) x h = omega (arith, get_elem?-lt xs i x h)

module _ {A : Type 0} where
  unfoldable pub Chain : List (Node A) → Option ℕ → List (ℕ × A) → Type 0
  Chain nodes p [] = p ≡ none
  Chain nodes p ((a, x) ∷ xs) =
      (p ≡ some a)
      × (next : Option ℕ) × (get_elem? nodes a ≡ some (record { val = x; next = next }))
      × Chain nodes next xs

  abbrev pub uses : ℕ → List (ℕ × A) → Bool
  uses a [] = false
  uses a ((b, x) ∷ xs) = a == b || uses a xs

  -- No node is twice in the list.
  abbrev pub distinct : List (ℕ × A) → Bool
  distinct [] = true
  distinct ((a, x) ∷ xs) = not (uses a xs) && distinct xs

  abbrev pub values : List (ℕ × A) → List A
  values [] = []
  values ((a, x) ∷ xs) = x ∷ values xs

  -- New nodes do not change a list, nor does a write to a node that it does not use.
  pub Chain-append :
      (nodes more : List (Node A)) (p : Option ℕ) (xs : List (ℕ × A))
      → Chain nodes p xs
      → Chain (nodes ++ more) p xs
  unfolding Chain
  Chain-append nodes more p [] c = c
  Chain-append nodes more p ((a, x) ∷ xs) (e, next, at, rest) =
      (e, next, get_elem?-append_left nodes more a _ at, Chain-append nodes more next xs rest)

  pub Chain-set :
      (nodes : List (Node A)) (b : ℕ) (n : Node A) (p : Option ℕ) (xs : List (ℕ × A))
      → uses b xs ≡ false
      → Chain nodes p xs
      → Chain (set nodes b n) p xs
  unfolding Chain
  Chain-set nodes b n p [] h c = c
  Chain-set nodes b n p ((a, x) ∷ xs) h (e, next, at, rest) = (
    e,
    next,
    get_elem?-set_ne nodes n (ground (arith, h)) ∙ at,
    Chain-set nodes b n next xs (ground (arith, h)) rest,
  )

  -- The values from an iterator to the end; `none` is an access through null or no fuel.
  abbrev pub collect : ℕ → List (Node A) → Iterator → Option (List A)
  collect zero nodes i = none
  collect (suc fuel) nodes i =
      let rest = collect fuel nodes (increment nodes i) in
      let here : Option (List A) = (do x ← deref nodes i; xs ← rest; some (x ∷ xs)) in
      if iterator_eq i end_of_list then some [] else here

  -- A loop over a list from its first node meets its values in order and ends, in one round for each
  -- value and one more.
  collect_lem :
      (nodes : List (Node A)) (p : Option ℕ) (xs : List (ℕ × A))
      → Chain nodes p xs
      → collect (suc (length xs)) nodes (record { ptr = p; before_head = false }) ≡ some (values xs)
  unfolding Chain increment deref
  collect_lem nodes p [] c = rw c refl
  collect_lem nodes p ((a, x) ∷ xs) (e, next, at, rest) =
      rw (e, at, collect_lem nodes next xs rest, ◌>>=◌) refl

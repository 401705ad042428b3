-- ===== src/Server/Placement.antt =====
-- `permutations` and `ABD::replica_ordering`: every three nodes of the cluster hold one shard. In `tmp` a
-- node has its index among the other nodes, or none for this node (-1 in the code).
pub mod Sorting
pub mod Agreement
pub mod Shards
use avocado.Common.{
  ℕ, ◌+◌, ◌-◌, ◌^◌, Bool, true, false, Option, none, some, List, [], ◌∷◌, ◌++◌, get_elem?, min, max,
  ltb, if◌then◌else◌, ◌>>=◌,
}

abbrev is_self : Option ℕ → Bool
is_self none = true
is_self (some i) = false

-- `std::min` and `std::max` of indices, where -1 is the least one
abbrev pub min_id : Option ℕ → Option ℕ → Option ℕ
min_id none b = none
min_id (some a) none = none
min_id (some a) (some b) = some (min a b)

abbrev pub max_id : Option ℕ → Option ℕ → Option ℕ
max_id none b = b
max_id (some a) none = some a
max_id (some a) (some b) = some (max a b)

-- The conversion to `size_t`
abbrev pub to_index : Option ℕ → ℕ
to_index none = 2 ^ 64 - 1
to_index (some i) = i

-- The body of the innermost loop. Where all three are other nodes, the shard is not here.
unfoldable pub placement : Option ℕ → Option ℕ → Option ℕ → Bool × ℕ × ℕ
placement a b c =
    if is_self a
    then (true, to_index (min_id b c), to_index (max_id b c))
    else if is_self b
    then (true, to_index (min_id a c), to_index (max_id a c))
    else if is_self c
    then (true, to_index (min_id a b), to_index (max_id a b))
    else (false, to_index (min_id a b), to_index (max_id a b))

module _ {A : Type 0} {B : Type 0} where
  -- The three loops, from the innermost one
  abbrev pub third_loop : (A → A → A → B) → A → A → List A → List B
  third_loop f a b [] = []
  third_loop f a b (c ∷ cs) = f a b c ∷ third_loop f a b cs

  abbrev pub second_loop : (A → A → A → B) → A → List A → List B
  second_loop f a [] = []
  second_loop f a (b ∷ bs) = third_loop f a b bs ++ second_loop f a bs

  abbrev pub first_loop : (A → A → A → B) → List A → List B
  first_loop f [] = []
  first_loop f (a ∷ nodes) = second_loop f a nodes ++ first_loop f nodes

-- `std::string::compare` as a test
abbrev pub less : List ℕ → List ℕ → Bool
less xs [] = false
less [] (y ∷ ys) = true
less (x ∷ xs) (y ∷ ys) = if ltb x y then true else if ltb y x then false else less xs ys

module _ {A : Type 0} (before : A → A → Bool) where
  abbrev pub insert : A → List A → List A
  insert x [] = x ∷ []
  insert x (y ∷ ys) = let rest = insert x ys in if before y x then y ∷ rest else x ∷ y ∷ ys

  -- `std::sort`
  abbrev pub sort : List A → List A
  sort [] = []
  sort (x ∷ xs) = insert x (sort xs)

-- The loop over `args.replica_info`, from an index on
abbrev pub tagged : ℕ → List (List ℕ) → List (Option ℕ × List ℕ)
tagged i [] = []
tagged i (r ∷ rs) = (some i, r) ∷ tagged (i + 1) rs

-- `customLess`
abbrev pub custom_less : Option ℕ × List ℕ → Option ℕ × List ℕ → Bool
custom_less a b = less a.1 b.1

-- `tmp`, once it is sorted
abbrev pub nodes_of : List (List ℕ) → List ℕ → List (Option ℕ × List ℕ)
nodes_of replicas uri = sort custom_less ((none, uri) ∷ tagged 0 replicas)

-- `permutations`: `args.replica_info` as it is left, and the shards
unfoldable pub permutations : List (List ℕ) → List ℕ → List (List ℕ) × List (Bool × ℕ × ℕ)
unfolding placement
permutations replica_info uri =
    let replicas = sort less replica_info in
    (replicas, first_loop (λ a b c. placement a.0 b.0 c.0) (nodes_of replicas uri))

-- `replica_ordering`: sessions of a shard's two other replicas, or none; `none` is out of bounds.
unfoldable pub replica_ordering : List ℕ → List (Bool × ℕ × ℕ) → Option (List (List ℕ))
replica_ordering sessions [] = some []
replica_ordering sessions ((us, a, b) ∷ order) = do
  rest ← replica_ordering sessions order
  let here : Option (List (List ℕ)) = (do
    id_a ← get_elem? sessions a
    id_b ← get_elem? sessions b
    some ((id_a ∷ id_b ∷ []) ∷ rest))
  if us then here else some ([] ∷ rest)

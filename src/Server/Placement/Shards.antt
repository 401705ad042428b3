-- ===== src/Server/Placement/Shards.antt =====
-- Which sessions a node has for which shards: `permutations` of src/server.cpp with
-- `ABD::replica_ordering` of src/include/protocol/abd/protocol.h.
use avocado.Common.{
  ℕ, ◌<◌, ◌≡◌, Bool, true, false, ◌&&◌, Option, none, some, List, [], ◌∷◌, get_elem?, ◌==◌,
  if◌then◌else◌,
}
use avocado.Server.Placement.{placement, first_loop}

abbrev pub names_eq : List ℕ → List ℕ → Bool
names_eq [] [] = true
names_eq (x ∷ xs) (y ∷ ys) = x == y && names_eq xs ys
names_eq _ _ = false

-- The triples of a list, in order
abbrev pub triples : {A : Type 0} → List A → List (A × A × A)
triples = first_loop (λ a b c. (a, b, c))

-- The sessions that a node has to the nodes of a triple: to the two others if it is one of them, and else
-- none.
abbrev pub others : (List ℕ → ℕ) → List ℕ → List ℕ × List ℕ × List ℕ → List ℕ
others session uri (a, b, c) =
    if names_eq a uri
    then session b ∷ session c ∷ []
    else if names_eq b uri
    then session a ∷ session c ∷ []
    else if names_eq c uri
    then session a ∷ session b ∷ []
    else []

abbrev Each : {A : Type 0} → (A → Type 0) → List A → Type 0
Each P [] = true ≡ true
Each P (x ∷ xs) = P x × Each P xs

-- No name of a list is the given one.
abbrev pub Apart : List ℕ → List (List ℕ) → Type 0
Apart uri = Each (λ n. names_eq n uri ≡ false)

-- Indices of two nodes, the first before the second: they ascend, and only one node has none.
abbrev Ascends : Option ℕ × List ℕ → Option ℕ × List ℕ → Type 0
Ascends (none, m) (none, n) = false ≡ true
Ascends (none, m) (some j, n) = true ≡ true
Ascends (some i, m) (none, n) = true ≡ true
Ascends (some i, m) (some j, n) = i < j

abbrev Ascending : List (Option ℕ × List ℕ) → Type 0
Ascending [] = true ≡ true
Ascending (x ∷ xs) = Each (Ascends x) xs × Ascending xs

module _ (session : List ℕ → ℕ) (uri : List ℕ) (sessions : List ℕ) where
  -- A node without an index is this one, and any other one has the session of its index.
  abbrev Found : Option ℕ × List ℕ → Type 0
  Found (none, n) = names_eq n uri ≡ true
  Found (some i, n) = (get_elem? sessions i ≡ some (session n)) × (names_eq n uri ≡ false)

  abbrev place : Option ℕ × List ℕ → Option ℕ × List ℕ → Option ℕ × List ℕ → Bool × ℕ × ℕ
  place a b c = placement a.0 b.0 c.0

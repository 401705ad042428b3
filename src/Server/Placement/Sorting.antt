-- ===== src/Server/Placement/Sorting.antt =====
-- The two sorts of `permutations` in src/server.cpp: the indexed nodes are those in the order of their
-- names, with this node's name put in.
use avocado.Common.{
  ℕ, ◌+◌, ◌≡◌, refl, ap, ◌∙◌, true, false, Option, none, some, List, [], ◌∷◌, map, arith,
  Bool-cases, inl, inr,
}
use avocado.Server.Placement.{less, insert, sort, tagged, custom_less, nodes_of}

pub less_asymm : (xs ys : List ℕ) → less xs ys ≡ true → less ys xs ≡ false
less_asymm xs [] h = cc
less_asymm [] (y ∷ ys) h = refl
less_asymm (x ∷ xs) (y ∷ ys) h = ground (arith, h, less_asymm xs ys)

-- A name is not after the first one of a list.
abbrev First : List ℕ → List (List ℕ) → Type 0
First x [] = true ≡ true
First x (y ∷ ys) = less y x ≡ false

abbrev pub Sorted : List (List ℕ) → Type 0
Sorted [] = true ≡ true
Sorted (x ∷ xs) = First x xs × Sorted xs

First-insert :
    (x y : List ℕ) (ys : List (List ℕ)) → First y ys → less x y ≡ false → First y (insert less x ys)
First-insert x y [] first h = h
First-insert x y (z ∷ zs) first h = elim (Bool-cases (less z x)) [
  | inl e ↦ rw e first
  | inr e ↦ rw e h
]

insert-Sorted : (x : List ℕ) (ys : List (List ℕ)) → Sorted ys → Sorted (insert less x ys)
insert-Sorted x [] h = (refl, refl)
insert-Sorted x (y ∷ ys) h = elim (Bool-cases (less y x)) [
  | inl e ↦ rw e (First-insert x y ys h.0 (less_asymm y x e), insert-Sorted x ys h.1)
  | inr e ↦ rw e (e, h)
]

pub sort-Sorted : (xs : List (List ℕ)) → Sorted (sort less xs)
sort-Sorted [] = refl
sort-Sorted (x ∷ xs) = insert-Sorted x (sort less xs) (sort-Sorted xs)

insert-First :
    (i : ℕ) (x : List ℕ) (j : ℕ) (xs : List (List ℕ))
    → First x xs
    → insert custom_less (some i, x) (tagged j xs) ≡ (some i, x) ∷ tagged j xs
insert-First i x j [] h = refl
insert-First i x j (y ∷ ys) h = rw h refl

-- Sorted names keep their places with their indices.
pub sort-tagged :
    (i : ℕ) (xs : List (List ℕ)) → Sorted xs → sort custom_less (tagged i xs) ≡ tagged i xs
sort-tagged i [] h = refl
sort-tagged i (x ∷ xs) h =
    ap (insert custom_less (some i, x)) (sort-tagged (i + 1) xs h.1)
    ∙ insert-First i x (i + 1) xs h.0

abbrev pub name : Option ℕ × List ℕ → List ℕ
name n = n.1

map-tagged : (i : ℕ) (xs : List (List ℕ)) → map name (tagged i xs) ≡ xs
map-tagged i [] = refl
map-tagged i (x ∷ xs) = ap (◌∷◌ x) (map-tagged (i + 1) xs)

map-insert :
    (x : Option ℕ × List ℕ) (xs : List (Option ℕ × List ℕ))
    → map name (insert custom_less x xs) ≡ insert less (name x) (map name xs)
map-insert x [] = refl
map-insert x (y ∷ ys) = elim (Bool-cases (less (name y) (name x))) [
  | inl e ↦ rw e (ap (◌∷◌ (name y)) (map-insert x ys))
  | inr e ↦ rw e refl
]

-- The names of the indexed nodes are the names of all nodes in order.
pub map-nodes_of :
    (xs : List (List ℕ)) (uri : List ℕ)
    → Sorted xs
    → map name (nodes_of xs uri) ≡ insert less uri xs
map-nodes_of xs uri h =
    map-insert (none, uri) (sort custom_less (tagged 0 xs))
    ∙ ap (λ l. insert less uri (map name l)) (sort-tagged 0 xs h)
    ∙ ap (insert less uri) (map-tagged 0 xs)

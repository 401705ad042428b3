-- ===== src/Server/Placement/Agreement.antt =====
-- The order of names does not depend on the order in which a node was told them: `std::sort` in
-- `permutations` of src/server.cpp.
use mathlib.Core.List.{Perm, Permᴰ}
use mathlib.Core.Logic.{∥∥₁_elim}
use avocado.Common.{
  ℕ, ◌≡◌, refl, ap, ap₂, ◌∙◌, sym, subst, true, false, List, [], ◌∷◌, arith, Bool-cases, inl, inr,
}
use avocado.Server.Placement.{less, insert, sort}
use avocado.Server.Placement.Sorting.{less_asymm}

less_total : (xs ys : List ℕ) → less xs ys ≡ false → less ys xs ≡ false → xs ≡ ys
less_total [] [] p q = refl
less_total [] (y ∷ ys) p q = cc
less_total (x ∷ xs) [] p q = cc
less_total (x ∷ xs) (y ∷ ys) p q =
    ap₂ ◌∷◌ (ground (arith, p, q)) (less_total xs ys (ground (arith, p, q)) (ground (arith, p, q)))

less_trans : (xs ys zs : List ℕ) → less zs xs ≡ true → less zs ys ≡ false → less ys xs ≡ true
less_trans [] ys zs p q = cc
less_trans (x ∷ xs) [] zs p q = refl
less_trans (x ∷ xs) (y ∷ ys) [] p q = cc
less_trans (x ∷ xs) (y ∷ ys) (z ∷ zs) p q = ground (arith, p, q, less_trans xs ys zs)

insert-before :
    (x y : List ℕ) (zs : List (List ℕ))
    → less x y ≡ true
    → insert less x (insert less y zs) ≡ insert less y (insert less x zs)
insert-before x y [] h = rw (h, less_asymm x y h) refl
insert-before x y (z ∷ zs) h = elim (Bool-cases (less z x)) [
  | inl e ↦ elim (Bool-cases (less z y)) [
    | inl e' ↦ rw (e, e', e) (ap (◌∷◌ z) (insert-before x y zs h))
    | inr e' ↦ absurd (ground (arith, less_trans x y z e e', less_asymm x y h))
  ]
  | inr e ↦ elim (Bool-cases (less z y)) [
    | inl e' ↦ rw (e, e', h, e) refl
    | inr e' ↦ rw (e, e', h, less_asymm x y h) refl
  ]
]

insert-insert :
    (x y : List ℕ) (zs : List (List ℕ))
    → insert less x (insert less y zs) ≡ insert less y (insert less x zs)
insert-insert x y zs = elim (Bool-cases (less x y)) [
  | inl e ↦ insert-before x y zs e
  | inr e ↦ elim (Bool-cases (less y x)) [
    | inl e' ↦ sym (insert-before y x zs e')
    | inr e' ↦
        subst (λ w. insert less x (insert less w zs) ≡ insert less w (insert less x zs))
          (less_total x y e e') refl
  ]
]

sort_alike : {xs ys : List (List ℕ)} → Permᴰ xs ys → sort less xs ≡ sort less ys
sort_alike Permᴰ.nil = refl
sort_alike (Permᴰ.cons e d) = ap₂ (insert less) e (sort_alike d)
sort_alike (Permᴰ.swap {a} {b} {a'} {b'} {l} e₁ e₂) =
    insert-insert a b (sort less l) ∙ ap₂ (λ v w. insert less v (insert less w (sort less l))) e₂ e₁
sort_alike (Permᴰ.trans d₁ d₂) = sort_alike d₁ ∙ sort_alike d₂

pub sort-Perm : {xs ys : List (List ℕ)} → Perm xs ys → sort less xs ≡ sort less ys
sort-Perm p = ∥∥₁_elim p (hlevel) sort_alike

-- ===== src/Memtable/KeyOrder.antt =====
-- The order of nodes is total on keys: the container identifies exactly the nodes with equal keys.
use Prim.Native.Nat.{Ordering}
use avocado.Common.{
  ℕ, zero, suc, ◌≡◌, ◌≢◌, refl, ap, ◌↔◌, true, false, List, [], ◌∷◌, length, arith,
}
use avocado.Common.Bytes.{memcmp}
use avocado.Memtable.Interface.{Node, lt, same}

-- The key has the announced size.
abbrev pub IsSized : Node → Type 0
IsSized n = length n.key ≡ n.key_size

memcmp_self : (n : ℕ) (xs : List ℕ) → memcmp n xs xs ≡ Ordering.eq
unfolding memcmp
memcmp_self zero xs = refl
memcmp_self (suc n) [] = refl
memcmp_self (suc n) (x ∷ xs) = ground (arith, memcmp_self n xs)

-- On as many bytes as both have, the comparison is 0 only on equal bytes.
memcmp_alike :
    (n : ℕ) (xs ys : List ℕ)
    → length xs ≡ n
    → length ys ≡ n
    → memcmp n xs ys ≡ Ordering.eq
    → xs ≡ ys
unfolding memcmp
memcmp_alike zero [] [] p q h = refl
memcmp_alike zero (x ∷ xs) ys p q h = absurd (omega arith)
memcmp_alike zero [] (y ∷ ys) p q h = absurd (omega arith)
memcmp_alike (suc n) [] ys p q h = absurd (omega arith)
memcmp_alike (suc n) (x ∷ xs) [] p q h = absurd (omega arith)
memcmp_alike (suc n) (x ∷ xs) (y ∷ ys) p q h =
    ground (arith, memcmp_alike n xs ys (omega arith) (omega arith))

memcmp_flip : (n : ℕ) (xs ys : List ℕ) → memcmp n xs ys ≡ Ordering.gt → memcmp n ys xs ≡ Ordering.lt
unfolding memcmp
memcmp_flip zero xs ys h = cc
memcmp_flip (suc n) [] [] h = cc
memcmp_flip (suc n) [] (y ∷ ys) h = cc
memcmp_flip (suc n) (x ∷ xs) [] h = refl
memcmp_flip (suc n) (x ∷ xs) (y ∷ ys) h = ground (arith, memcmp_flip n xs ys)

memcmp_trans :
    (n : ℕ) (xs ys zs : List ℕ)
    → memcmp n xs ys ≡ Ordering.lt
    → memcmp n ys zs ≡ Ordering.lt
    → memcmp n xs zs ≡ Ordering.lt
unfolding memcmp
memcmp_trans zero xs ys zs p q = cc
memcmp_trans (suc n) [] [] zs p q = cc
memcmp_trans (suc n) [] (y ∷ ys) [] p q = cc
memcmp_trans (suc n) [] (y ∷ ys) (z ∷ zs) p q = refl
memcmp_trans (suc n) (x ∷ xs) [] zs p q = cc
memcmp_trans (suc n) (x ∷ xs) (y ∷ ys) [] p q = cc
memcmp_trans (suc n) (x ∷ xs) (y ∷ ys) (z ∷ zs) p q = ground (arith, memcmp_trans n xs ys zs)

-- Arrays that compare as equal compare alike with every third one.
memcmp_congr :
    (n : ℕ) (xs ys zs : List ℕ)
    → memcmp n xs ys ≡ Ordering.eq
    → (memcmp n zs xs ≡ memcmp n zs ys) × (memcmp n xs zs ≡ memcmp n ys zs)
unfolding memcmp
memcmp_congr zero xs ys zs h = (refl, refl)
memcmp_congr (suc n) [] [] zs h = (refl, refl)
memcmp_congr (suc n) [] (y ∷ ys) zs h = cc
memcmp_congr (suc n) (x ∷ xs) [] zs h = cc
memcmp_congr (suc n) (x ∷ xs) (y ∷ ys) [] h = (refl, refl)
memcmp_congr (suc n) (x ∷ xs) (y ∷ ys) (z ∷ zs) h = ground (arith, memcmp_congr n xs ys zs)

memcmp_asym : (n : ℕ) (xs ys : List ℕ) → memcmp n xs ys ≡ Ordering.lt → memcmp n ys xs ≢ Ordering.lt
memcmp_asym n xs ys p q = cc (memcmp_self n xs, memcmp_trans n xs ys xs p q)

-- `operator<` is a strict order: it is transitive and asymmetric.
pub lt_strict : (a b c : Node) → lt a b ≡ true → lt b c ≡ true → (lt a c ≡ true) × (lt b a ≡ false)
unfolding lt
lt_strict a b c p q =
    ground (arith, memcmp_trans a.key_size a.key b.key c.key, memcmp_asym a.key_size a.key b.key)

lt_self : (a : Node) → lt a a ≡ false
unfolding lt
lt_self a = ground (arith, memcmp_self a.key_size a.key)

same-key : (a b : Node) → IsSized a → IsSized b → same a b ≡ true → a.key ≡ b.key
unfolding same
same-key a b sa sb h =
    ground (arith, memcmp_flip a.key_size a.key b.key, memcmp_alike a.key_size a.key b.key sa)

key-same : (a b : Node) → IsSized a → IsSized b → a.key ≡ b.key → same a b ≡ true
unfolding same
key-same a b sa sb e = ground (
  arith,
  ap length e,
  memcmp_self a.key_size a.key,
  ap (λ k. memcmp a.key_size a.key k) e,
  ap (λ k. memcmp a.key_size k a.key) e,
)

-- The skip list takes two nodes for one exactly if their keys are the same bytes, for nodes whose
-- keys have the announced sizes.
pub same_iff : (a b : Node) → IsSized a → IsSized b → (same a b ≡ true) ↔ (a.key ≡ b.key)
same_iff a b sa sb = (same-key a b sa sb, key-same a b sa sb)

memcmp-eq :
    (n : ℕ) (xs ys : List ℕ)
    → memcmp n xs ys ≢ Ordering.lt
    → memcmp n ys xs ≢ Ordering.lt
    → memcmp n xs ys ≡ Ordering.eq
memcmp-eq n xs ys p q = ground (arith, memcmp_flip n xs ys)

-- Nodes that the skip list takes for one compare alike with every third one.
pub same_congr : (a b n : Node) → same a b ≡ true → same n a ≡ same n b
unfolding same
same_congr a b n h =
    ground (arith, memcmp-eq a.key_size a.key b.key, memcmp_congr a.key_size a.key b.key n.key)

pub same_self : (a : Node) → same a a ≡ true
unfolding same
same_self a = ground (arith, memcmp_self a.key_size a.key)

pub same_symm : (a b : Node) → same a b ≡ same b a
unfolding same
same_symm a b = ground arith

-- ===== src/Common/Bytes.antt =====
-- Byte memory: little-endian numbers, and bounded reads and writes as `memcpy` makes them.
use Prim.Native.Nat.{compare, Ordering, ℕ, zero, suc, ◌+◌, ◌*◌, ◌/◌, ◌%◌, ◌^◌, ◌≤◌, ◌<◌}
use mathlib.Core.Path.{◌≡◌, refl, sym, ap, subst}
use mathlib.Core.List.{List, [], ◌∷◌, ◌++◌, append-nil}
use mathlib.Core.Option.{Option, none, some}
use native.Mathlib.Nat.{pow-suc}
use native.Mathlib.Omega.{arith}
use avocado.Common.Tests.{leb, if◌then◌else◌}
use avocado.Common.Lists.{length, take, drop, length-append}

-- The `k` little-endian bytes of `n`, and the number that such bytes stand for.
unfoldable pub le_bytes : ℕ → ℕ → List ℕ
le_bytes zero n = []
le_bytes (suc k) n = (n % 256) ∷ le_bytes k (n / 256)

unfoldable pub le_value : List ℕ → ℕ
le_value [] = 0
le_value (b ∷ bs) = b + 256 * le_value bs

pub length-le_bytes : (k n : ℕ) → length (le_bytes k n) ≡ k
unfolding le_bytes
length-le_bytes zero n = refl
length-le_bytes (suc k) n = ap suc (length-le_bytes k (n / 256))

pub le_value-le_bytes : (k n : ℕ) → n < 256 ^ k → le_value (le_bytes k n) ≡ n
unfolding le_bytes le_value
le_value-le_bytes zero n h = omega arith
le_value-le_bytes (suc k) n h =
    omega (arith, le_value-le_bytes k (n / 256) (omega (arith, pow-suc 256 k)))

-- `len` bytes from `off`; `none` is a read out of bounds.
unfoldable pub read : ℕ → ℕ → List ℕ → Option (List ℕ)
read off len mem = if leb (off + len) (length mem) then some (take len (drop off mem)) else none

-- `memcpy (mem + off, src, length src)`; `none` is a write out of bounds.
unfoldable pub write : ℕ → List ℕ → List ℕ → Option (List ℕ)
write off src mem =
    if leb (off + length src) (length mem)
    then some (take off mem ++ (src ++ drop (off + length src) mem))
    else none

module _ {ℓ} {A : Type ℓ} where
  pub take-length-append : (xs ys : List A) → take (length xs) (xs ++ ys) ≡ xs
  take-length-append [] ys = refl
  take-length-append (x ∷ xs) ys = ap (◌∷◌ x) (take-length-append xs ys)

  pub drop-length-append : (xs ys : List A) → drop (length xs) (xs ++ ys) ≡ ys
  drop-length-append [] ys = refl
  drop-length-append (x ∷ xs) ys = drop-length-append xs ys

  pub take-append_eq : {n : ℕ} (xs ys : List A) → length xs ≡ n → take n (xs ++ ys) ≡ xs
  take-append_eq xs ys h = subst (λ k. take k (xs ++ ys) ≡ xs) h (take-length-append xs ys)

  pub drop-append_eq : {n : ℕ} (xs ys : List A) → length xs ≡ n → drop n (xs ++ ys) ≡ ys
  drop-append_eq xs ys h = subst (λ k. drop k (xs ++ ys) ≡ ys) h (drop-length-append xs ys)

  pub drop-append_add :
      (xs ys : List A) {n : ℕ} (k : ℕ) → length xs ≡ n → drop (n + k) (xs ++ ys) ≡ drop k ys
  drop-append_add [] ys {n} k h = let e : n + k ≡ k = omega arith in rw e
  drop-append_add (x ∷ xs) ys {n} k h =
      let e : n + k ≡ suc (length xs + k) = omega arith in
      rw e (drop-append_add xs ys {n = length xs} k refl)

-- A read of the middle part, and a write of as many bytes over it.
pub read-append :
    {off len : ℕ} (a b c : List ℕ)
    → length a ≡ off
    → length b ≡ len
    → read off len (a ++ (b ++ c)) ≡ some b
unfolding read
read-append {off} {len} a b c ha hb =
    rw (drop-append_eq a (b ++ c) ha, take-append_eq b c hb)
      (ground (arith, length-append a (b ++ c), length-append b c))

pub write-append :
    {off : ℕ} (a b b' c : List ℕ)
    → length a ≡ off
    → length b' ≡ length b
    → write off b' (a ++ (b ++ c)) ≡ some (a ++ (b' ++ c))
unfolding write
write-append {off} a b b' c ha hb =
    rw
      (
        take-append_eq a (b ++ c) ha,
        drop-append_add a (b ++ c) (length b') ha,
        drop-append_eq b c (sym hb),
      )
      (ground (arith, length-append a (b ++ c), length-append b c))

-- A write behind `a`, into the bytes that follow, and one that they have no room for.
pub write-rest :
    {off : ℕ} (a b rest : List ℕ)
    → length a ≡ off
    → length b ≤ length rest
    → write off b (a ++ rest) ≡ some (a ++ (b ++ drop (length b) rest))
unfolding write
write-rest {off} a b rest ha fits =
    rw (take-append_eq a rest ha, drop-append_add a rest (length b) ha)
      (ground (arith, length-append a rest))

pub write-eq-none :
    (off : ℕ) (b mem : List ℕ) → length mem < off + length b → write off b mem ≡ none
unfolding write
write-eq-none off b mem short = ground arith

pub read-eq-none : (off len : ℕ) (mem : List ℕ) → length mem < off + len → read off len mem ≡ none
unfolding read
read-eq-none off len mem short = ground arith

-- `memcmp` over `n` bytes, as unsigned: the sign of its result. The code compares arrays of `n` bytes
-- only; here an array that ends before counts as the smaller one.
unfoldable pub memcmp : ℕ → List ℕ → List ℕ → Ordering
memcmp zero xs ys = Ordering.eq
memcmp (suc n) (x ∷ xs) (y ∷ ys) = elim (compare x y) [
  | Ordering.lt ↦ Ordering.lt
  | Ordering.eq ↦ memcmp n xs ys
  | Ordering.gt ↦ Ordering.gt
]
memcmp (suc n) [] [] = Ordering.eq
memcmp (suc n) [] (y ∷ ys) = Ordering.lt
memcmp (suc n) (x ∷ xs) [] = Ordering.gt

pub read-append_end :
    {off len : ℕ} (a b : List ℕ) → length a ≡ off → length b ≡ len → read off len (a ++ b) ≡ some b
read-append_end {off} {len} a b ha hb =
    subst (λ l. read off len (a ++ l) ≡ some b) (append-nil b) (read-append a b [] ha hb)

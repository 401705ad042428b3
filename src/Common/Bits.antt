-- ===== src/Common/Bits.antt =====
-- `|` of a shifted field with a smaller one, and `&` with a mask of low ones, as arithmetic.
use Prim.Native.Nat.{
  ℕ, zero, suc, ◌+◌, ◌-◌, ◌*◌, ◌/◌, ◌%◌, ◌^◌, ◌≤◌, ◌<◌, min, max, bit_and, bit_or, digits,
}
use Prim.Native.Nat.{bit_and-bitwise, bit_or-bitwise}
use mathlib.Core.Path.{◌≡◌, refl, ap}
use native.Mathlib.Nat.{pow-suc, one-le-pow}
use native.Mathlib.Omega.{arith}

-- More rounds than the first number has digits change nothing.
rounds_enough :
    (z : ℕ → ℕ) (f : ℕ → ℕ → ℕ) (k l x y : ℕ) → x ≤ k → x ≤ l → digits z f k x y ≡ digits z f l x y
rounds_enough z f zero zero zero y hk hl = refl
rounds_enough z f zero (suc l) zero y hk hl = refl
rounds_enough z f (suc k) zero zero y hk hl = refl
rounds_enough z f (suc k) (suc l) zero y hk hl = refl
rounds_enough z f zero l (suc x) y hk hl = absurd (omega arith)
rounds_enough z f (suc k) zero (suc x) y hk hl = absurd (omega arith)
rounds_enough z f (suc k) (suc l) (suc x) y hk hl =
    omega (arith, rounds_enough z f k l (suc x / 2) (y / 2) (omega arith) (omega arith))

or_low_digit : (x y : ℕ) → bit_or x y ≡ bit_or (x / 2) (y / 2) * 2 + max (x % 2) (y % 2)
or_low_digit zero y = omega (arith, bit_or-bitwise 0 y, bit_or-bitwise 0 (y / 2))
or_low_digit (suc x) y = omega (
  arith,
  bit_or-bitwise (suc x) y,
  bit_or-bitwise (suc x / 2) (y / 2),
  rounds_enough (λ r. r) max x (suc x / 2) (suc x / 2) (y / 2) (omega arith) (omega arith),
)

and_low_digit : (x y : ℕ) → bit_and x y ≡ bit_and (x / 2) (y / 2) * 2 + min (x % 2) (y % 2)
and_low_digit zero y = omega (arith, bit_and-bitwise 0 y, bit_and-bitwise 0 (y / 2))
and_low_digit (suc x) y = omega (
  arith,
  bit_and-bitwise (suc x) y,
  bit_and-bitwise (suc x / 2) (y / 2),
  rounds_enough (λ r. 0) min x (suc x / 2) (suc x / 2) (y / 2) (omega arith) (omega arith),
)

-- At 0, by the number of rounds left.
or_zero_below : (k x : ℕ) → x ≤ k → bit_or x 0 ≡ x
or_zero_below k zero h = refl
or_zero_below zero (suc x) h = absurd (omega arith)
or_zero_below (suc k) (suc x) h =
    omega (arith, or_low_digit (suc x) 0, or_zero_below k (suc x / 2) (omega arith))

and_zero_below : (k x : ℕ) → x ≤ k → bit_and x 0 ≡ 0
and_zero_below k zero h = refl
and_zero_below zero (suc x) h = absurd (omega arith)
and_zero_below (suc k) (suc x) h =
    omega (arith, and_low_digit (suc x) 0, and_zero_below k (suc x / 2) (omega arith))

-- `(hi << k) | lo` is a sum if `lo` fits `k` bits.
pub bit_or_shifted : (k hi lo : ℕ) → lo < 2 ^ k → bit_or (hi * 2 ^ k) lo ≡ hi * 2 ^ k + lo
bit_or_shifted zero hi lo h =
    let e : lo ≡ 0 = omega arith in
    rw e (omega (arith, or_zero_below (hi * 1) (hi * 1) (omega arith)))
bit_or_shifted (suc k) hi lo h =
    let p : 2 ^ suc k ≡ 2 ^ k * 2 = pow-suc 2 k in
    let q : hi * 2 ^ suc k ≡ hi * 2 ^ k * 2 = omega (arith, ap (λ (t : ℕ). hi * t) p) in
    let r : hi * 2 ^ suc k / 2 ≡ hi * 2 ^ k = omega arith in
    omega (
      arith,
      or_low_digit (hi * 2 ^ suc k) lo,
      ap (λ (t : ℕ). bit_or t (lo / 2)) r,
      bit_or_shifted k hi (lo / 2) (omega arith),
    )

mod_double : (x m : ℕ) → 0 < m → x % (m * 2) ≡ x / 2 % m * 2 + x % 2
mod_double x m h = grind arith

-- `x & (2 ^ k - 1)` is the remainder by `2 ^ k`.
pub bit_and_low : (k x : ℕ) → bit_and x (2 ^ k - 1) ≡ x % 2 ^ k
bit_and_low zero x = omega (arith, and_zero_below x x (omega arith))
bit_and_low (suc k) x =
    let p : 2 ^ suc k ≡ 2 ^ k * 2 = pow-suc 2 k in
    let one : 1 ≤ 2 ^ k = one-le-pow k 2 (omega arith) in
    let m : (2 ^ suc k - 1) / 2 ≡ 2 ^ k - 1 = omega arith in
    omega (
      arith,
      and_low_digit x (2 ^ suc k - 1),
      ap (λ (t : ℕ). bit_and (x / 2) t) m,
      bit_and_low k (x / 2),
      ap (λ (t : ℕ). x % t) p,
      mod_double x (2 ^ k) one,
    )

-- ===== src/Lamport/Order.antt =====
-- The packed clock orders machines' clocks lexicographically: count first, then machine id.
use Prim.Native.Nat.{bit_or}
use avocado.Common.{ℕ, ◌+◌, ◌*◌, ◌/◌, ◌%◌, ◌^◌, ◌<◌, ◌≡◌, ◌↔◌, ◌⊎◌, ap, true, not, ◌&&◌, arith}
use avocado.Common.Bits.{bit_or_shifted, bit_and_low}
use avocado.Lamport.{Lamport, IsValid, to_int, of_int, min, max, lt, gt, le, ge, eq, ne}

-- On valid clocks the packing is a sum, which fits 64 bits.
pub to_int_fields : (l : Lamport) → IsValid l → to_int l ≡ l.count * 2 ^ 32 + l.m_id
unfolding to_int
to_int_fields l v =
    let e : l.count * 2 ^ 32 % 2 ^ 64 ≡ l.count * 2 ^ 32 = omega arith in
    omega (arith, ap (λ (t : ℕ). bit_or t l.m_id) e, bit_or_shifted 32 l.count l.m_id v.m_id_fits)

pub of_int_fields :
    (n : ℕ) → ((of_int n).count ≡ n / 2 ^ 32 % 2 ^ 32) × ((of_int n).m_id ≡ n % 2 ^ 32)
unfolding of_int
of_int_fields n = omega (arith, bit_and_low 32 n)

-- Every integer unpacks to a valid clock.
pub of_int-IsValid : (n : ℕ) → IsValid (of_int n)
of_int-IsValid n = record {
  count_fits = omega (arith, of_int_fields n);
  m_id_fits = omega (arith, of_int_fields n);
}

eq_of_fields : (a b : Lamport) → a.count ≡ b.count → a.m_id ≡ b.m_id → a ≡ b
eq_of_fields a b p q = λ i. record { count = p i; m_id = q i }

-- Unpacking the packed form of a clock whose fields fit 32 bits gives the clock back.
pub of_int-to_int : (l : Lamport) → IsValid l → of_int (to_int l) ≡ l
of_int-to_int l v =
    eq_of_fields _ l (omega (arith, of_int_fields (to_int l), to_int_fields l v))
      (omega (arith, of_int_fields (to_int l), to_int_fields l v))

-- Packing the unpacked form of a 64-bit integer gives the integer back.
pub to_int-of_int : (n : ℕ) → n < 2 ^ 64 → to_int (of_int n) ≡ n
to_int-of_int n h = omega (arith, of_int_fields n, to_int_fields (of_int n) (of_int-IsValid n))

pub to_int-lt : (l : Lamport) → IsValid l → to_int l < 2 ^ 64
to_int-lt l v = omega (arith, to_int_fields l v)

pub to_int_mono : {a b : Lamport} → IsValid a → IsValid b → a.count < b.count → to_int a < to_int b
to_int_mono {a} {b} va vb h = omega (arith, to_int_fields a va, to_int_fields b vb)

module _ (a b : Lamport) (va : IsValid a) (vb : IsValid b) where
  -- `a < b` holds exactly when the count is smaller, or the counts are equal and the machine id is
  -- smaller, for clocks whose fields fit 32 bits.
  lt_lexicographic :
      (lt a b ≡ true) ↔ ((a.count < b.count) ⊎ ((a.count ≡ b.count) × (a.m_id < b.m_id)))
  unfolding lt
  lt_lexicographic = ground (arith, to_int_fields a va, to_int_fields b vb)

  -- `==` holds exactly on equal clocks, for clocks whose fields fit 32 bits.
  pub eq_iff : (eq a b ≡ true) ↔ (a ≡ b)
  unfolding eq
  eq_iff = (
    λ h.
        eq_of_fields a b (ground (arith, to_int_fields a va, to_int_fields b vb))
          (ground (arith, to_int_fields a va, to_int_fields b vb)),
    λ h. ground (arith, ap to_int h),
  )

-- The six operators are one order: `>`, `<=`, `>=`, `!=` are given by `<` and `==`, exactly one of
-- `<`, `==`, `>` holds, and `min ()` and `max ()` bound every valid clock.
pub operators_agree :
    (a b : Lamport)
    → IsValid a
    → (gt a b ≡ lt b a)
      × (le a b ≡ not (lt b a))
      × (ge a b ≡ not (lt a b))
      × (ne a b ≡ not (eq a b))
      × (eq a b ≡ not (lt a b) && not (lt b a))
      × (le min a ≡ true)
      × (le a max ≡ true)
unfolding lt gt le ge eq ne
operators_agree a b v = ground (arith, to_int_fields a v)

-- ===== src/Stats/Clock.antt =====
-- The clock of the time stamps: `CrystalClockFactors` of src/include/stats/crystal_clock.h, from what the
-- instruction CPUID gives, and `get_time_in_ms` of src/stats/rdtsc.cpp.
use native.Mathlib.Nat.{
  le-div_iff_mul-le, mul-le-mul_right, mul-le-mul_left, div-le_self, lt-div-mul-add,
}
use avocado.Common.{
  ℕ, ◌+◌, ◌*◌, ◌/◌, ◌%◌, ◌^◌, ◌≤◌, ◌<◌, ◌≡◌, Option, none, some, arith, if◌then◌else◌, ◌==◌, false,
  refl,
}

-- The registers EAX, EBX and ECX after CPUID
pub record Cpuid : Type 0 where
  pub eax : ℕ
  pub ebx : ℕ
  pub ecx : ℕ

pub record CrystalClockFactors : Type 0 where
  pub crystal_clock_fq : ℕ
  pub art_fq : ℕ
  pub denominator : ℕ
  pub numerator : ℕ
  pub base_freq : ℕ
  pub max_freq : ℕ
  pub bus_freq : ℕ

abbrev pub m_factor : ℕ
m_factor = 1000000

abbrev pub k : ℕ
k = 1

-- With what leaves 0x15 and 0x16 give; none is a division by zero.
unfoldable pub create : (leaf_15 leaf_16 : Cpuid) → Option CrystalClockFactors
create leaf_15 leaf_16 =
    if leaf_15.ecx == 0
    then if leaf_15.ebx == 0
      then none
      else some (record {
        crystal_clock_fq = leaf_16.eax * m_factor % 2 ^ 64 * leaf_15.eax % 2 ^ 64 / leaf_15.ebx;
        art_fq = leaf_16.eax * m_factor % 2 ^ 64 * leaf_15.eax % 2 ^ 64 / leaf_15.ebx * k % 2 ^ 64;
        denominator = leaf_15.eax;
        numerator = leaf_15.ebx;
        base_freq = leaf_16.eax * m_factor % 2 ^ 64;
        max_freq = leaf_16.ebx * m_factor % 2 ^ 64;
        bus_freq = leaf_16.ecx * m_factor % 2 ^ 64;
      })
    else some (record {
      crystal_clock_fq = leaf_15.ecx;
      art_fq = leaf_15.ecx * k % 2 ^ 64;
      denominator = leaf_15.eax;
      numerator = leaf_15.ebx;
      base_freq = 0;
      max_freq = 0;
      bus_freq = 0;
    })

-- `get_time_<uint64_t, 1000, 1>`: 128 bits between, and 64 bits of the result; none is a division by
-- zero.
unfoldable pub get_time_in_ms : CrystalClockFactors → ℕ → Option ℕ
get_time_in_ms info tsc_value =
    if info.numerator == 0
    then none
    else if info.art_fq * 1 % 2 ^ 64 == 0
    then none
    else some (
        tsc_value
        * info.denominator
        % 2 ^ 128
        / info.numerator
        * 1000
        % 2 ^ 128
        / (info.art_fq * 1 % 2 ^ 64)
        % 2 ^ 64)

module _ (info : CrystalClockFactors) where
  -- The crystal's ticks for a time stamp
  abbrev pub ticks : ℕ → ℕ
  ticks tsc_value = tsc_value * info.denominator / info.numerator

  module _ (numerator : 0 < info.numerator) (art_fq : 0 < info.art_fq) (wide : info.art_fq < 2 ^ 64)
      (narrow : info.denominator < 2 ^ 32) where
    div_mono : {n x y : ℕ} → 0 < n → x ≤ y → x / n ≤ y / n
    div_mono {n} {x} {y} positive h =
        (le-div_iff_mul-le positive).1
          (omega (arith, h, (le-div_iff_mul-le {x = x / n} {y = x} positive).0 (omega arith)))

    ticks_mono : {x y : ℕ} → x ≤ y → ticks x ≤ ticks y
    ticks_mono h = div_mono numerator (mul-le-mul_right info.denominator h)

    ticks_small : (tsc_value : ℕ) → tsc_value < 2 ^ 64 → tsc_value * info.denominator < 2 ^ 96
    ticks_small tsc_value small = omega (
      arith,
      small,
      mul-le-mul_left {m = info.denominator} {n = 2 ^ 32} tsc_value (omega (arith, narrow)),
    )

    run_lem :
        (tsc_value : ℕ)
        → tsc_value < 2 ^ 64
        → ticks tsc_value * 1000 / info.art_fq < 2 ^ 64
        → get_time_in_ms info tsc_value ≡ some (ticks tsc_value * 1000 / info.art_fq)
    unfolding get_time_in_ms
    run_lem tsc_value small fits =
        let ticks_le : ticks tsc_value ≤ tsc_value * info.denominator =
          div-le_self (tsc_value * info.denominator) info.numerator in
        let product : tsc_value * info.denominator % 2 ^ 128 ≡ tsc_value * info.denominator =
          omega (arith, ticks_small tsc_value small) in
        let scaled : ticks tsc_value * 1000 % 2 ^ 128 ≡ ticks tsc_value * 1000 =
          omega (arith, ticks_le, ticks_small tsc_value small) in
        let divisor : info.art_fq * 1 % 2 ^ 64 ≡ info.art_fq = omega (arith, wide) in
        let result : ticks tsc_value * 1000 / info.art_fq % 2 ^ 64
            ≡ ticks tsc_value * 1000 / info.art_fq =
          omega (arith, fits) in
        let is_positive : (info.numerator == 0) ≡ false = ground (arith, numerator) in
        let divides : (info.art_fq == 0) ≡ false = ground (arith, art_fq) in
        rw (is_positive, divisor, divides, product, scaled, result) refl

    -- For time stamps of 64 bits, up to one whose milliseconds fit 64 bits, the function returns the
    -- milliseconds of the crystal's ticks, rounded down: nothing is cut off on the way, and a later stamp
    -- has no earlier time.
    get_time_in_ms_lem :
        (tsc_value later : ℕ)
        → tsc_value ≤ later
        → later < 2 ^ 64
        → ticks later * 1000 / info.art_fq < 2 ^ 64
        → (t : ℕ) × (t' : ℕ) × (get_time_in_ms info tsc_value ≡ some t)
          × (get_time_in_ms info later ≡ some t')
          × (t ≤ t')
          × (t * info.art_fq ≤ ticks tsc_value * 1000)
          × (ticks tsc_value * 1000 < t * info.art_fq + info.art_fq)
    get_time_in_ms_lem tsc_value later h small fits =
        let more : ticks tsc_value * 1000 ≤ ticks later * 1000 =
          omega (arith, ticks_mono {x = tsc_value} {y = later} h) in
        let later_time = div_mono {n = info.art_fq} art_fq more in
        (
          ticks tsc_value * 1000 / info.art_fq,
          ticks later * 1000 / info.art_fq,
          run_lem tsc_value (omega (arith, h, small)) (omega (arith, later_time, fits)),
          run_lem later small fits,
          later_time,
          (le-div_iff_mul-le art_fq).0 (omega arith),
          lt-div-mul-add art_fq,
        )

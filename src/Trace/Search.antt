-- ===== src/Trace/Search.antt =====
-- The binary search of the Zipfian generator: it ends, and where it finds no key.
use avocado.Common.{
  ℕ, zero, suc, ◌+◌, ◌-◌, ◌/◌, ◌%◌, ◌^◌, ◌≤◌, ◌<◌, ◌≡◌, ◌⊎◌, refl, sym, ◌∙◌, ap, ltb→lt, leb→le,
  false, some, List, [], ◌∷◌, length, get_elem?, get_or, leb, ltb, if◌then◌else◌, Bool-cases, inl,
  inr, arith, ◌>>=◌,
}
use native.Mathlib.Decide.{dec_lt}
use avocado.Trace.{Found, value, uninitialised, search}

get_elem?-get_or : (xs : List ℕ) (i : ℕ) → i < length xs → get_elem? xs i ≡ some (get_or xs i 0)
get_elem?-get_or [] i h = absurd (omega arith)
get_elem?-get_or (x ∷ xs) zero h = refl
get_elem?-get_or (x ∷ xs) (suc i) h = get_elem?-get_or xs i (omega arith)

-- What the search may leave: the place where the sums pass `z`, or nothing where `z` is 0 or more than the
-- last sum.
abbrev pub Right : (sums : List ℕ) → (z n : ℕ) → Found → Type 0
Right sums z n (value k) = (1 ≤ k) × (k < n) × (get_or sums (k - 1) 0 < z) × (z ≤ get_or sums k 0)
Right sums z n uninitialised = (z ≡ 0) ⊎ (get_or sums (n - 1) 0 < z)

-- There is nothing to find, or it is between `low` and `high`.
abbrev Between : (sums : List ℕ) → (z n low high : ℕ) → Type 0
Between sums z n low high =
    Right sums z n uninitialised
    ⊎ ((get_or sums (low - 1) 0 < z) × ((high ≡ n) ⊎ (z ≤ get_or sums high 0)))

lost_left :
    (sums : List ℕ) (z n low mid high : ℕ)
    → low ≤ mid
    → mid - 1 < low
    → z ≤ get_or sums (mid - 1) 0
    → 1 ≤ low
    → Between sums z n low high
    → Right sums z n uninitialised
lost_left sums z n low mid high le over not_before pos (inl lost) = lost
lost_left sums z n low mid high le over not_before pos (inr (passed, _)) =
    let e : mid ≡ low = omega arith in absurd (omega (arith, ap (λ m. get_or sums (m - 1) 0) e))

lost-Right :
    (sums : List ℕ) (z n low mid high : ℕ)
    → mid ≡ high
    → get_or sums mid 0 < z
    → (high ≡ n → mid ≡ low)
    → Between sums z n low high
    → Right sums z n uninitialised
lost-Right sums z n low mid high e below at_end (inl lost) = lost
lost-Right sums z n low mid high e below at_end (inr (passed, inl last)) =
    inr (omega (arith, ap (λ m. get_or sums (m - 1) 0) (sym (at_end last) ∙ e ∙ last)))
lost-Right sums z n low mid high e below at_end (inr (passed, inr more)) =
    absurd (omega (arith, ap (λ m. get_or sums m 0) e))

go_right :
    (sums : List ℕ) (z n low mid high : ℕ)
    → get_or sums mid 0 < z
    → Between sums z n low high
    → Between sums z n (mid + 1) high
go_right sums z n low mid high below (inl lost) = inl lost
go_right sums z n low mid high below (inr (passed, high_ok)) =
    inr (omega (arith, ap (λ m. get_or sums m 0) back), high_ok)
  where
    back : mid + 1 - 1 ≡ mid
    back = omega arith

go_left :
    (sums : List ℕ) (z n low mid high : ℕ)
    → z ≤ get_or sums (mid - 1) 0
    → Between sums z n low high
    → Between sums z n low (mid - 1)
go_left sums z n low mid high not_before (inl lost) = inl lost
go_left sums z n low mid high not_before (inr (passed, _)) = inr (passed, inr not_before)

inside_lem :
    (sums : List ℕ) (z n k : ℕ)
    → get_or sums n 0 ≡ 0
    → k ≤ n
    → get_or sums (k - 1) 0 < z
    → z ≤ get_or sums k 0
    → k < n
inside_lem sums z n k last_zero le before at = elim (dec_lt k n) [
  | yes h ↦ h
  | no h ↦ let e : k ≡ n = omega arith in absurd (omega (arith, ap (λ m. get_or sums m 0) e))
]

module _ (sums : List ℕ) (z : ℕ) (small : length sums < 2 ^ 63) where
  abbrev sum_at : ℕ → ℕ
  sum_at i = get_or sums i 0

  -- One round
  search_step :
      (fuel low high : ℕ)
      → 1 ≤ low
      → low ≤ high
      → high < length sums
      → search (suc fuel) sums z low high ≡ (
          if leb z (sum_at ((low + high) / 2))
          then (if ltb (sum_at ((low + high) / 2 - 1)) z
              then some (value ((low + high) / 2))
              else if leb low ((low + high) / 2 - 1)
              then search fuel sums z low ((low + high) / 2 - 1)
              else some uninitialised)
          else if leb ((low + high) / 2 + 1) high
          then search fuel sums z ((low + high) / 2 + 1) high
          else some uninitialised)
  unfolding search
  search_step fuel low high pos le inside =
      rw
        (
          left,
          get_elem?-get_or sums ((low + high) / 2) (omega arith),
          ◌>>=◌,
          get_elem?-get_or sums ((low + high) / 2 - 1) (omega arith),
        )
        refl
    where
      left : ((low + high) / 2 + 2 ^ 64 - 1) % 2 ^ 64 ≡ (low + high) / 2 - 1
      left = omega arith

  module _ (n : ℕ) (size : length sums ≡ n + 1) (last_zero : sum_at n ≡ 0) where
    search-Between :
        (fuel low high : ℕ)
        → 1 ≤ low
        → low ≤ high
        → high ≤ n
        → high + 1 ≤ low + fuel
        → Between sums z n low high
        → (r : Found) × (search fuel sums z low high ≡ some r) × Right sums z n r
    search-Between zero low high pos le inside enough between = absurd (omega arith)
    search-Between (suc fuel) low high pos le inside enough between =
        elim (Bool-cases (leb z (sum_at ((low + high) / 2)))) [
          | inl at ↦ elim (Bool-cases (ltb (sum_at ((low + high) / 2 - 1)) z)) [
            | inl before ↦ (
              value ((low + high) / 2),
              rw (search_step fuel low high pos le (omega (arith, size, inside)), at, before) refl,
              (
                omega arith,
                inside_lem sums z n ((low + high) / 2) last_zero (omega arith) (ltb→lt _ _ before)
                    (leb→le _ _ at),
                ltb→lt _ _ before,
                leb→le _ _ at,
              ),
            )
            | inr not_before ↦ elim (Bool-cases (leb low ((low + high) / 2 - 1))) [
              | inl more ↦
                  let (r, run, right) =
                    search-Between fuel low ((low + high) / 2 - 1) pos (ground (arith, more))
                      (omega arith) (omega arith)
                      (go_left sums z n low ((low + high) / 2) high (ground (arith, not_before))
                        between) in
                  (
                    r,
                    rw
                        (
                          search_step fuel low high pos le (omega (arith, size, inside)),
                          at,
                          not_before,
                          more,
                        )
                        run,
                    right,
                  )
              | inr over ↦ (
                uninitialised,
                rw
                    (
                      search_step fuel low high pos le (omega (arith, size, inside)),
                      at,
                      not_before,
                      over,
                    )
                    refl,
                lost_left sums z n low ((low + high) / 2) high (omega arith) (ground (arith, over))
                    (ground (arith, not_before)) pos between,
              )
            ]
          ]
          | inr below ↦ elim (Bool-cases (leb ((low + high) / 2 + 1) high)) [
            | inl more ↦
                let (r, run, right) =
                  search-Between fuel ((low + high) / 2 + 1) high (omega arith)
                    (ground (arith, more)) inside (omega arith)
                    (go_right sums z n low ((low + high) / 2) high (ground (arith, below))
                      between) in
                (
                  r,
                  rw (search_step fuel low high pos le (omega (arith, size, inside)), below, more)
                      run,
                  right,
                )
            | inr over ↦ (
              uninitialised,
              rw (search_step fuel low high pos le (omega (arith, size, inside)), below, over) refl,
              lost-Right sums z n low ((low + high) / 2) high (ground (arith, over))
                  (ground (arith, below)) (λ e. omega (arith, over_le over)) between,
            )
          ]
        ]
      where
        over_le : leb ((low + high) / 2 + 1) high ≡ false → high ≤ (low + high) / 2
        over_le h = ground (arith, h)

-- For the sums of `n_keys` keys, the first of them and the one behind the last being 0, the search ends
-- within the array. A key that it finds is one at which the sums pass `z`; it leaves `zip_value`
-- uninitialised only if `z` is 0 or more than the last sum.
pub search_lem :
    (sums : List ℕ) (z n_keys : ℕ)
    → 1 ≤ n_keys
    → n_keys < 2 ^ 62
    → length sums ≡ n_keys + 1
    → get_or sums 0 0 ≡ 0
    → get_or sums n_keys 0 ≡ 0
    → (r : Found) × (search (n_keys + 1) sums z 1 n_keys ≡ some r) × Right sums z n_keys r
search_lem sums z n_keys some_key small size first_zero last_zero =
    search-Between sums z (omega arith) n_keys size last_zero (n_keys + 1) 1 n_keys (omega arith)
      some_key (omega arith) (omega arith) start
  where
    start : Between sums z n_keys 1 n_keys
    start = elim (dec_lt 0 z) [
      | yes h ↦ inr (omega (arith, first_zero), inl refl)
      | no h ↦ inl (inl (omega arith))
    ]

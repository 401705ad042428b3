-- ===== src/Server/Slices.antt =====
-- `create_threads` of the benchmark: which commands of the trace each thread runs.
use native.Mathlib.Nat.{add-mul, suc-mul, div-add-mod}
use avocado.Common.{
  ℕ, zero, suc, ◌+◌, ◌-◌, ◌*◌, ◌/◌, ◌%◌, ◌≤◌, ◌≡◌, Option, none, some, List, [], ◌∷◌, arith, ltb,
  if◌then◌else◌,
}

-- `none` where there are no threads: the division is by zero.
unfoldable pub step_size : ℕ → ℕ → Option ℕ
step_size n_cmds zero = none
step_size n_cmds (suc n) = some (n_cmds / suc n)

-- Offsets into the trace, from the `i`-th on
unfoldable pub slices : (trace_size step i n : ℕ) → List (ℕ × ℕ)
slices trace_size step i zero = []
slices trace_size step i (suc n) =
    let begin = i * step in
    let end = begin + step in
    (begin, if ltb trace_size end then trace_size else end) ∷ slices trace_size step (i + 1) n

-- How many of the slices hold the `j`-th command
abbrev pub holders : ℕ → List (ℕ × ℕ) → ℕ
holders j [] = 0
holders j ((begin, end) ∷ rest) =
    (if ltb j begin then 0 else if ltb j end then 1 else 0) + holders j rest

holders_lem :
    (trace_size step i n j : ℕ)
    → i * step + n * step ≤ trace_size
    → holders j (slices trace_size step i n)
      ≡ (if ltb j (i * step) then 0 else if ltb j (i * step + n * step) then 1 else 0)
unfolding slices
holders_lem trace_size step i zero j h = ground arith
holders_lem trace_size step i (suc n) j h =
    ground
      (arith, holders_lem trace_size step (i + 1) n j (omega (arith, h, next, more)), next, more)
  where
    next : (i + 1) * step ≡ i * step + step
    next = omega (arith, add-mul i 1 step)

    more : suc n * step ≡ step + n * step
    more = omega (arith, suc-mul n step)

-- With at least one thread every command but the last `n_cmds % n` is in the slice of exactly one
-- thread; those last ones are in no slice.
pub slices_cover :
    (n_cmds n step j : ℕ)
    → step_size n_cmds n ≡ some step
    → holders j (slices n_cmds step 0 n) ≡ (if ltb j (n_cmds - n_cmds % n) then 1 else 0)
unfolding step_size
slices_cover n_cmds zero step j h = absurd (ground (arith, h))
slices_cover n_cmds (suc n) step j h =
    ground (arith, holders_lem n_cmds step 0 (suc n) j (omega (arith, parts)), parts)
  where
    step_eq : n_cmds / suc n ≡ step
    step_eq = cc

    parts : suc n * step + n_cmds % suc n ≡ n_cmds
    parts = rw (← step_eq) (div-add-mod n_cmds (suc n))

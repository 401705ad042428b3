-- ===== src/Trace/Tests.antt =====
-- Traces at concrete random numbers, and the theorem about the search at concrete sums.
use avocado.Common.{ℕ, ◌*◌, ◌≡◌, refl, some, List, [], ◌∷◌, arith}
use avocado.Common.Bytes.{le_bytes}
use avocado.Trace.{Op, Found, search, manufacture_trace, manufacture_trace_zipfian}
use avocado.Trace.Search.{Right, search_lem}

-- The hash of a key is the key, and the `i`-th random number is `1100 * i`.
two_commands :
    manufacture_trace (λ l. l) (λ i. 1100 * i) 500 2 7 1
    ≡ some (
        record { op = Op.get; key_hash = 1 ∷ 0 ∷ 0 ∷ 0 ∷ [] }
        ∷ record { op = Op.get; key_hash = 3 ∷ 0 ∷ 0 ∷ 0 ∷ [] }
        ∷ [])
unfolding manufacture_trace le_bytes
two_commands = refl

abbrev sums : List ℕ
sums = 0 ∷ 5 ∷ 8 ∷ 10 ∷ 0 ∷ []

finds : search 5 sums 7 1 4 ≡ some (Found.value 2)
unfolding search
finds = refl

loses : search 5 sums 0 1 4 ≡ some Found.uninitialised
unfolding search
loses = refl

one_zipfian :
    manufacture_trace_zipfian (λ l. l) (λ i. 7 * i) 5 sums (λ r. r) (λ i. 99) 1 4 1
    ≡ some (record { op = Op.put; key_hash = 2 ∷ 0 ∷ 0 ∷ 0 ∷ [] } ∷ [])
unfolding manufacture_trace_zipfian le_bytes
one_zipfian = refl

search_lem_example : (r : Found) × (search 5 sums 7 1 4 ≡ some r) × Right sums 7 4 r
search_lem_example = search_lem sums 7 4 (omega arith) (omega arith) refl refl refl

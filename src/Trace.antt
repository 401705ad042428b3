-- ===== src/Trace.antt =====
-- The commands of the benchmark: src/generate_traces.h and src/generate_traces.cpp.
-- `rand` is a stream of numbers, of which the calls take one after the other, and CityHash128 is an
-- argument. The search of the Zipfian generator only compares its doubles, which are natural numbers here.
pub mod Search
mod Tests
use avocado.Common.{
  ℕ, zero, suc, ◌+◌, ◌-◌, ◌*◌, ◌/◌, ◌%◌, ◌^◌, Bool, true, false, not, ◌&&◌, Option, none, some,
  List, [], ◌∷◌, length, take, get_elem?, ltb, leb, ◌==◌, if◌then◌else◌, ◌>>=◌,
}
use avocado.Common.Bytes.{le_bytes}

-- `Trace_cmd`
pub data Op : Type 0 where
  get put : Op

pub record TraceCmd : Type 0 where
  pub op : Op
  pub key_hash : List ℕ

abbrev pub key_size : ℕ
key_size = 8

-- What the search leaves in `zip_value`
pub data Found : Type 0 where
  value : ℕ → Found
  uninitialised : Found

-- The search between `low` and `high`; `none` is a read out of the array, or the end of the fuel.
unfoldable pub search : ℕ → List ℕ → (z low high : ℕ) → Option Found
search zero sums z low high = none
search (suc fuel) sums z low high = do
  let mid = (low + high) / 2
  let left = (mid + 2 ^ 64 - 1) % 2 ^ 64
  at ← get_elem? sums mid
  let go_left = if leb low left then search fuel sums z low left else some uninitialised
  let go_right =
      if leb (mid + 1) high then search fuel sums z (mid + 1) high else some uninitialised
  let look_left : Option Found = (do
    before ← get_elem? sums left
    if ltb before z then some (value mid) else go_left)
  if leb z at then look_left else go_right

-- An uninitialised `zip_value` has what its memory held.
abbrev zip_value : ℕ → Found → ℕ
zip_value junk (value k) = k
zip_value junk uninitialised = junk

module _ (hash : List ℕ → List ℕ) (rand : ℕ → ℕ) (read_permille : ℕ) where
  -- `Trace_cmd::init`, where `r` is what `rand` returns
  unfoldable pub init : (key_id r : ℕ) → TraceCmd
  init key_id r = record {
    op = if ltb (r % 1000) read_permille then Op.get else Op.put;
    key_hash = take key_size (hash (le_bytes 4 key_id));
  }

  -- The loop of `manufacture_trace` from the `i`-th call of `rand` on; `none` is a division by zero.
  unfoldable pub manufacture_trace : (trace_size n_keys i : ℕ) → Option (List TraceCmd)
  unfolding init
  manufacture_trace zero n_keys i = some []
  manufacture_trace (suc n) n_keys i =
      let rest = manufacture_trace n n_keys (i + 2) in
      if n_keys == 0
      then none
      else (rest >>= λ cmds. some (init (rand i % n_keys % 2 ^ 32) (rand (i + 1)) ∷ cmds))

  -- The second loop of `manufacture_trace_zipfian`: `unit` takes a random number to the place among the
  -- sums, and `junk` is what the memory of `zip_value` holds.
  unfoldable pub manufacture_trace_zipfian :
      (sums : List ℕ) → (unit junk : ℕ → ℕ) → (trace_size n_keys i : ℕ) → Option (List TraceCmd)
  unfolding init search
  manufacture_trace_zipfian sums unit junk zero n_keys i = some []
  manufacture_trace_zipfian sums unit junk (suc n) n_keys i = do
    found ← search (n_keys + 1) sums (unit (rand i)) 1 n_keys
    rest ← manufacture_trace_zipfian sums unit junk n n_keys (i + 2)
    some (init (zip_value (junk i) found % 2 ^ 32) (rand (i + 1)) ∷ rest)

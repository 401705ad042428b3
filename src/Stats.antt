-- ===== src/Stats.antt =====
-- Statistics of a build that collects them: the counters of src/include/stats/debug/stats/size_events.h,
-- src/include/stats/debug/stats/packet_stats.h and src/include/stats/debug/stats/crypt_stats.h, and the
-- time stamps of src/include/stats/rdtsc.h. The counters are written by all threads at once.
pub mod Totals
pub mod Packets
mod Tests
pub mod Clock
pub mod Rpc
pub mod Hashing
use avocado.Common.{ℕ, ◌+◌, ◌-◌, ◌%◌, ◌^◌, Bool, true, false, List, [], ◌∷◌, ◌++◌, if◌then◌else◌}

-- The members of `RpcStats::Alloc`; its bases have the first ones of them.
pub data Counter : Type 0 where
  n_events : Counter
  total_time : Counter
  n_bytes : Counter
  stalls : Counter

abbrev pub same : Counter → Counter → Bool
same n_events n_events = true
same total_time total_time = true
same n_bytes n_bytes = true
same stalls stalls = true
same _ _ = false

-- One `fetch_add` on a member of type `std::atomic<size_t>`
pub record FetchAdd : Type 0 where
  pub counter : Counter
  pub amount : ℕ

abbrev pub Counters : Type 0
Counters = Counter → ℕ

-- The counters are members of objects of static storage.
abbrev pub start : Counters
start c = 0

unfoldable pub fetch_add : FetchAdd → Counters → Counters
fetch_add a s c = if same a.counter c then (s c + a.amount) % 2 ^ 64 else s c

unfoldable pub run : List FetchAdd → Counters → Counters
unfolding fetch_add
run [] s = s
run (a ∷ adds) s = run adds (fetch_add a s)

-- `Event::add`
abbrev pub add_event : List FetchAdd
add_event = record { counter = n_events; amount = 1 } ∷ []

-- `EventTime::add`
abbrev pub add_time : ℕ → List FetchAdd
add_time time = add_event ++ (record { counter = total_time; amount = time } ∷ [])

-- `SizeEventData::add`
abbrev pub add_data : (bytes time : ℕ) → List FetchAdd
add_data bytes time = record { counter = n_bytes; amount = bytes } ∷ add_time time

-- `RpcStats::Alloc::add_stall`
abbrev pub add_stall : List FetchAdd
add_stall = record { counter = stalls; amount = 1 } ∷ []

-- What threads may do together that run these additions in this order each
pub data Interleaved : List (List FetchAdd) → List FetchAdd → Type 0 where
  idle : Interleaved [] []
  over :
      (threads : List (List FetchAdd)) (adds : List FetchAdd)
      → Interleaved threads adds
      → Interleaved ([] ∷ threads) adds
  step :
      (before : List (List FetchAdd)) (a : FetchAdd) (rest : List FetchAdd)
      (after : List (List FetchAdd)) (adds : List FetchAdd)
      → Interleaved (before ++ (rest ∷ after)) adds
      → Interleaved (before ++ ((a ∷ rest) ∷ after)) (a ∷ adds)

-- `take_time_diff`: the time stamps of `get_tsc` have 64 bits.
abbrev pub take_time_diff : (before after : ℕ) → ℕ
take_time_diff before after = (after + 2 ^ 64 - before) % 2 ^ 64

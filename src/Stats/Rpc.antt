-- ===== src/Stats/Rpc.antt =====
-- `Rpc_wrapper` of a build that collects statistics, in src/include/stats/debug/stats/packet_stats.h. What
-- eRPC does is an argument, and a buffer without memory is none.
use avocado.Common.{ℕ, ◌%◌, ◌^◌, ◌≡◌, refl, Option, none, some, List, ◌++◌, map, arith}
use avocado.Stats.Totals.{total, sum, in_order, run-calls}
use avocado.Stats.{
  FetchAdd, n_events, n_bytes, stalls, start, run, add_event, add_time, add_data, add_stall,
  Interleaved, take_time_diff,
}

-- With what the base returned and the time stamps around it: the result, and the additions to
-- `rpc_stats.alloc`
unfoldable pub alloc_msg_buffer :
    {A : Type 0} → Option A → (max_data_size before after : ℕ) → Option A × List FetchAdd
alloc_msg_buffer none max_data_size before after =
    (none, add_stall ++ add_data 0 (take_time_diff before after))
alloc_msg_buffer (some buf) max_data_size before after =
    (some buf, add_data max_data_size (take_time_diff before after))

-- The additions to `rpc_stats.free_calls`
unfoldable pub free_msg_buffer : (before after : ℕ) → List FetchAdd
free_msg_buffer before after = add_time (take_time_diff before after)

-- `ENQUEUE`, to `rpc_stats.enqueue_request` or `rpc_stats.enqueue_response`
unfoldable pub enqueue : List FetchAdd
enqueue = add_event

-- A call, with whether eRPC had memory
pub record Alloc : Type 0 where
  pub res : Option ℕ
  pub max_data_size : ℕ
  pub before : ℕ
  pub after : ℕ

abbrev pub log : Alloc → List FetchAdd
log c = (alloc_msg_buffer c.res c.max_data_size c.before c.after).1

abbrev failed : Option ℕ → ℕ
failed none = 1
failed (some buf) = 0

abbrev pub stall : Alloc → ℕ
stall c = failed c.res

abbrev size_if : Option ℕ → ℕ → ℕ
size_if none n = 0
size_if (some buf) n = n

abbrev pub allocated : Alloc → ℕ
allocated c = size_if c.res c.max_data_size

module _ (max_data_size before after : ℕ) where
  abbrev additions : Option ℕ → List FetchAdd
  additions res = (alloc_msg_buffer res max_data_size before after).1

  one_event : (res : Option ℕ) → total n_events (additions res) ≡ 1
  unfolding alloc_msg_buffer
  one_event none = refl
  one_event (some buf) = refl

  stall_if_failed : (res : Option ℕ) → total stalls (additions res) ≡ failed res
  unfolding alloc_msg_buffer
  stall_if_failed none = refl
  stall_if_failed (some buf) = refl

  bytes_of_size : (res : Option ℕ) → total n_bytes (additions res) ≡ size_if res max_data_size
  unfolding alloc_msg_buffer
  bytes_of_size none = refl
  bytes_of_size (some buf) = omega arith

-- However the threads' calls interleave: all calls are events, those that eRPC had no memory for are
-- stalls, and the bytes are the sizes that were asked for in the others, by the width of a counter.
allocs_counted :
    (threads : List (List Alloc)) (adds : List FetchAdd)
    → Interleaved (map (in_order log) threads) adds
    → (run adds start n_events ≡ sum (sum (λ c. 1)) threads % 2 ^ 64)
      × (run adds start stalls ≡ sum (sum stall) threads % 2 ^ 64)
      × (run adds start n_bytes ≡ sum (sum allocated) threads % 2 ^ 64)
allocs_counted threads adds h = (
  run-calls n_events log (λ c. 1) (λ c. one_event c.max_data_size c.before c.after c.res) threads h,
  run-calls stalls log stall (λ c. stall_if_failed c.max_data_size c.before c.after c.res) threads
      h,
  run-calls n_bytes log allocated (λ c. bytes_of_size c.max_data_size c.before c.after c.res)
      threads h,
)

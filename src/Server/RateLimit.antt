-- ===== src/Server/RateLimit.antt =====
-- `RateLimit`: threads acquire before they start an operation, and an operation's callback releases.
use avocado.Common.{
  ℕ, ◌+◌, ◌-◌, ◌%◌, ◌^◌, ◌≤◌, ◌<◌, ◌≡◌, refl, Bool, arith, ltb, ◌==◌, if◌then◌else◌,
}
use avocado.Memtable.{update}

-- Where a thread is in `aquire`: outside, or with `r` loaded
pub data Pc : Type 0 where
  outside : Pc
  loaded : ℕ → Pc

-- `request`, the threads, and how many operations run: started and not yet released
pub record Limit : Type 0 where
  pub request : ℕ
  pub pc : ℕ → Pc
  pub running : ℕ

-- `request.fetch_add (-1)`
unfoldable pub release : Limit → Limit
release s = record s { request = (s.request + 2 ^ 64 - 1) % 2 ^ 64; running = s.running - 1 }

unfoldable pub load : Limit → ℕ → Limit
load s i = record s { pc = update s.pc i (Pc.loaded s.request) }

-- One round with `r` loaded: with room, the weak compare-exchange of `r` for `r + 1`, which may fail
-- although the values agree; without room, out to call `f` and to load again.
unfoldable pub round : ℕ → Bool → Limit → ℕ → ℕ → Limit
round max_request spurious s i r =
    let taken = record s {
      request = (r + 1) % 2 ^ 64;
      pc = update s.pc i Pc.outside;
      running = s.running + 1;
    } in
    let reloaded = record s { pc = update s.pc i (Pc.loaded s.request) } in
    if ltb r max_request
    then (if spurious then reloaded else if s.request == r then taken else reloaded)
    else record s { pc = update s.pc i Pc.outside }

module _ (max_request : ℕ) where
  -- Only a running operation releases.
  pub data Step (s : Limit) : Limit → Type 0 where
    load_step : (i : ℕ) → s.pc i ≡ Pc.outside → Step s (load s i)
    round_step :
        (i r : ℕ) (spurious : Bool)
        → s.pc i ≡ Pc.loaded r
        → Step s (round max_request spurious s i r)
    release_step : 0 < s.running → Step s (release s)

  pub data Reach : Limit → Type 0 where
    begin : Reach (record { request = 0; pc = λ i. Pc.outside; running = 0 })
    next : {s t : Limit} → Reach s → Step s t → Reach t

  -- However the threads and the callbacks interleave, `request` counts the running operations, and
  -- there are never more than `max_request`.
  pub limit_kept :
      {s : Limit}
      → max_request < 2 ^ 64
      → Reach s
      → (s.request ≡ s.running) × (s.running ≤ max_request)
  unfolding load round release
  limit_kept small begin = (refl, omega arith)
  limit_kept small (next r (load_step i h)) = limit_kept small r
  limit_kept small (next r (round_step i n spurious h)) = ground (arith, limit_kept small r)
  limit_kept small (next r (release_step h)) = ground (arith, limit_kept small r)

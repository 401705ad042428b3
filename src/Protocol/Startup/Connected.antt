-- ===== src/Protocol/Startup/Connected.antt =====
-- When eRPC connects every session in the end, `init` comes to an end with all replicas connected.
use avocado.Common.{
  ℕ, zero, suc, ◌+◌, ◌*◌, ◌^◌, ◌≤◌, ◌<◌, ◌≡◌, refl, Bool, true, false, ◌&&◌, some, List, [], ◌∷◌,
  length, map, ◌==◌, if◌then◌else◌, ◌>>=◌, arith, Bool-cases, inl, inr, ap, sym, subst, ◌⊎◌,
}
use avocado.Protocol.Startup.{
  SmEvent, Erpc, ReplicaInfo, sm_handler, on_events, run_until, connect_all, init,
}

-- The events that `sm_handler` counts
abbrev pub counted : List SmEvent → ℕ
counted [] = 0
counted (e ∷ es) = (if e.is_connected && e.no_error then 1 else 0) + counted es

-- eRPC reports every session once, and the last one of those that are there not later than `limit` rounds
-- for each; then all are connected.
pub record Connects (erpc : Erpc) (limit : ℕ) : Type 1 where
  pub pending : erpc.State → ℕ
  pub time : erpc.State → ℕ
  pub creates :
      (s : erpc.State) (uri : List ℕ) (base_id : ℕ)
      → pending (erpc.create_session s uri base_id).1 ≡ pending s + 1
  pub takes :
      (s : erpc.State) (uri : List ℕ) (base_id : ℕ)
      → time (erpc.create_session s uri base_id).1 ≤ time s + limit
  pub reports :
      (s : erpc.State)
      → pending (erpc.run_event_loop_once s).1 + counted (erpc.run_event_loop_once s).0 ≡ pending s
  pub proceeds : (s : erpc.State) → 0 < pending s → time (erpc.run_event_loop_once s).1 < time s
  pub Session : erpc.State → ℕ → Type 0
  pub created :
      (s : erpc.State) (uri : List ℕ) (base_id : ℕ)
      → Session (erpc.create_session s uri base_id).1 (erpc.create_session s uri base_id).0
  pub stays :
      (s : erpc.State) (uri : List ℕ) (base_id id : ℕ)
      → Session s id
      → Session (erpc.create_session s uri base_id).1 id
  pub kept : (s : erpc.State) (id : ℕ) → Session s id → Session (erpc.run_event_loop_once s).1 id
  pub connected :
      (s : erpc.State) (id : ℕ) → Session s id → pending s ≡ 0 → erpc.is_connected s id ≡ true

on_events-counted :
    (es : List SmEvent) (n : ℕ) → n + counted es < 2 ^ 64 → on_events es n ≡ n + counted es
unfolding on_events sm_handler
on_events-counted [] n h = omega arith
on_events-counted (e ∷ es) n h = ground (arith, h, on_events-counted es (sm_handler e n))

mul_suc : (k n : ℕ) → k * suc n ≡ k + k * n
mul_suc k n = grind arith

-- The session of a replica
abbrev pub Has : List ReplicaInfo → ℕ → Type 0
Has [] id = ⊥
Has (r ∷ rs) id = (id ≡ r.session_id) ⊎ Has rs id

module _ (erpc : Erpc) (limit : ℕ) (c : Connects erpc limit) where
  open c use {pending, time, Session}

  -- A loop that is over when no session is pending
  run_until_lem :
      (fuel total : ℕ) (ready : erpc.State → ℕ → Bool) (s : erpc.State) (n : ℕ)
      → total < 2 ^ 64
      → n + pending s ≡ total
      → time s < fuel
      → (ids : ℕ → Type 0) → ((id : ℕ) → ids id → Session s id)
      → ((s : erpc.State) (n : ℕ)
          → ((id : ℕ) → ids id → Session s id)
          → pending s ≡ 0
          → n + pending s ≡ total
          → ready s n ≡ true)
      → (s' : erpc.State) × (n' : ℕ) × (run_until erpc fuel ready s n ≡ some (s', n'))
        × (n' + pending s' ≡ total)
        × (time s' ≤ time s)
        × (ready s' n' ≡ true)
        × ((id : ℕ) → ids id → Session s' id)
  unfolding run_until
  run_until_lem zero total ready s n small sum short ids have over = absurd (omega (arith, short))
  run_until_lem (suc fuel) total ready s n small sum short ids have over =
      elim (Bool-cases (ready s n)) [
        | inl r ↦ (s, n, rw r refl, sum, omega arith, r, have)
        | inr r ↦
            let s₁ = (erpc.run_event_loop_once s).1 in
            let es = (erpc.run_event_loop_once s).0 in
            let left : pending s₁ + counted es ≡ pending s = c.reports s in
            let n₁ : on_events es n ≡ n + counted es =
              on_events-counted es n (omega (arith, small, sum, left)) in
            let faster = c.proceeds s (still_pending r) in
            let (s', n', runs, sum', time', done, have') =
              run_until_lem fuel total ready s₁ (on_events es n) small
                (omega (arith, n₁, left, sum)) (omega (arith, faster, short)) ids
                (λ id h. c.kept s id (have id h)) over in
            (s', n', rw r runs, sum', omega (arith, time', faster), done, have')
      ]
    where
      still_pending : ready s n ≡ false → 0 < pending s
      still_pending r = elim (Bool-cases (pending s == 0)) [
        | inl e ↦
            let none_left : pending s ≡ 0 = ground (arith, e) in
            absurd (ground (arith, over s n have none_left sum, r))
        | inr e ↦ ground (arith, e)
      ]

  -- The first loop leaves as many sessions reported or pending as there are replicas.
  connect_all_lem :
      (fuel total : ℕ) (rs : List ReplicaInfo) (s : erpc.State) (n : ℕ)
      → total + length rs < 2 ^ 64
      → n + pending s ≡ total
      → time s + limit * length rs < fuel
      → (ids : ℕ → Type 0) → ((id : ℕ) → ids id → Session s id)
      → (rs' : List ReplicaInfo) × (s' : erpc.State) × (n' : ℕ) × (connect_all erpc fuel rs s n
          ≡ some (rs', s', n'))
        × (n' + pending s' ≡ total + length rs)
        × (time s' ≤ time s + limit * length rs)
        × (map ReplicaInfo.uri rs' ≡ map ReplicaInfo.uri rs)
        × (length rs' ≡ length rs)
        × ((id : ℕ) → ids id ⊎ Has rs' id → Session s' id)
  unfolding connect_all
  connect_all_lem fuel total [] s n small sum short ids have = (
    [],
    s,
    n,
    refl,
    omega (arith, sum),
    omega arith,
    refl,
    refl,
    λ id h. elim h [ inl old ↦ have id old | inr never ↦ elim never [ ] ],
  )
  connect_all_lem fuel total (r ∷ rs) s n small sum short ids have =
      let s₁ = (erpc.create_session s r.uri r.base_id).1 in
      let id = (erpc.create_session s r.uri r.base_id).0 in
      let more = mul_suc limit (length rs) in
      let (s₂, n₂, waits, sum₂, time₂, _, have₂) =
        run_until_lem fuel (total + 1) (λ s' n'. erpc.is_connected s' id) s₁ n
          (omega (arith, small)) (omega (arith, sum, c.creates s r.uri r.base_id))
          (omega (arith, short, more, c.takes s r.uri r.base_id)) (λ i. ids i ⊎ (i ≡ id))
          (λ i h. elim h [
            | inl old ↦ c.stays s r.uri r.base_id i (have i old)
            | inr new ↦ subst (Session s₁) (sym new) (c.created s r.uri r.base_id)
          ])
          (λ s' n' has left _. c.connected s' id (has id (inr refl)) left) in
      let (rs', s₃, n₃, runs, sum₃, time₃, uris, sizes, have₃) =
        connect_all_lem fuel (total + 1) rs s₂ n₂ (omega (arith, small)) sum₂
          (omega (arith, short, more, time₂, c.takes s r.uri r.base_id)) (λ i. ids i ⊎ (i ≡ id))
          have₂ in
      (
        record r { session_id = id } ∷ rs',
        s₃,
        n₃,
        rw (waits, ◌>>=◌, runs) refl,
        omega (arith, sum₃),
        omega (arith, time₃, more, time₂, c.takes s r.uri r.base_id),
        ap (◌∷◌ r.uri) uris,
        ap suc sizes,
        λ i h. elim h [
          | inl old ↦ have₃ i (inl (inl old))
          | inr new ↦ elim new [
            | inl first ↦ have₃ i (inl (inr first))
            | inr later ↦ have₃ i (inr later)
          ]
        ],
      )

  -- Where eRPC connects every session within some number of rounds and reports it once, `init` comes to an
  -- end within as many rounds for each replica in each of its loops. It keeps the replicas in their order,
  -- has counted one report for each, and all their sessions are connected.
  pub init_lem :
      (fuel : ℕ) (rs : List ReplicaInfo) (s : erpc.State)
      → length rs < 2 ^ 64
      → pending s ≡ 0
      → time s + limit * length rs < fuel
      → (rs' : List ReplicaInfo) × (s' : erpc.State) × (init erpc fuel rs s
          ≡ some (rs', s', length rs))
        × (map ReplicaInfo.uri rs' ≡ map ReplicaInfo.uri rs)
        × ((id : ℕ) → Has rs' id → erpc.is_connected s' id ≡ true)
  unfolding init
  init_lem fuel rs s small idle enough =
      let (rs', s₁, n₁, runs, sum₁, time₁, uris, sizes, have₁) =
        connect_all_lem fuel 0 rs s 0 (omega (arith, small)) (omega (arith, idle)) enough (λ id. ⊥)
          (λ id never. elim never [ ]) in
      let (s₂, n₂, waits, sum₂, _, done, have₂) =
        run_until_lem fuel (length rs) (λ s' n'. n' == length rs') s₁ n₁ small (omega (arith, sum₁))
          (omega (arith, enough, time₁)) (Has rs') (λ id h. have₁ id (inr h))
          (λ s' n' _ left sum.
            let all : n' ≡ length rs' = omega (arith, left, sum, sizes) in ground (arith, all)) in
      let all : n₂ ≡ length rs = ground (arith, done, sizes) in
      (
        rs',
        s₂,
        rw (runs, ◌>>=◌, waits) (ap (λ n. some (rs', s₂, n)) all),
        uris,
        λ id h. c.connected s₂ id (have₂ id h) (omega (arith, all, sum₂)),
      )

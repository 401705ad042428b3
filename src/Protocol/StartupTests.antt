-- ===== src/Protocol/StartupTests.antt =====
-- A start over a library that connects one session in each round of its event loop.
use avocado.Common.{
  ℕ, zero, suc, ◌+◌, ◌≡◌, refl, true, false, some, List, [], ◌∷◌, ◌==◌, map, arith, ◌<◌,
}
use avocado.Protocol.Startup.{SmEvent, Erpc, ReplicaInfo, init, on_events}
use avocado.Protocol.Startup.Connected.{Connects, Has, counted, init_lem}

-- The sessions that are pending, and how many there are
abbrev State : Type 0
State = ℕ × ℕ

abbrev run_once : State → List SmEvent × State
run_once (zero, n) = ([], (0, n))
run_once (suc p, n) = (record { is_connected = true; no_error = true } ∷ [], (p, n))

abbrev one_by_one : Erpc
one_by_one = record {
  State = State;
  create_session = λ s uri base_id. (s.1, (s.0 + 1, s.1 + 1));
  is_connected = λ s id. s.0 == 0;
  run_event_loop_once = run_once;
}

reports : (s : State) → (run_once s).1.0 + counted (run_once s).0 ≡ s.0
reports (zero, n) = refl
reports (suc p, n) = omega arith

proceeds : (s : State) → 0 < s.0 → (run_once s).1.0 < s.0
proceeds (zero, n) h = absurd (omega (arith, h))
proceeds (suc p, n) h = omega arith

kept : (s : State) (id : ℕ) → id < s.1 → id < (run_once s).1.1
kept (zero, n) id h = h
kept (suc p, n) id h = h

abbrev one_by_one-Connects : Connects one_by_one 1
one_by_one-Connects = record {
  pending = λ s. s.0;
  time = λ s. s.0;
  creates = λ s uri base_id. refl;
  takes = λ s uri base_id. omega arith;
  reports = reports;
  proceeds = proceeds;
  Session = λ s id. id < s.1;
  created = λ s uri base_id. omega arith;
  stays = λ s uri base_id id h. omega (arith, h);
  kept = kept;
  connected = λ s id h e. ground (arith, e);
}

abbrev replicas : List ReplicaInfo
replicas =
    record { session_id = 0; base_id = 1; uri = b'a' ∷ [] }
    ∷ record { session_id = 0; base_id = 0; uri = b'b' ∷ [] }
    ∷ []

init_lem_example :
    (rs : List ReplicaInfo) × (s : State) × (init one_by_one 3 replicas (0, 0) ≡ some (rs, s, 2))
    × (map ReplicaInfo.uri rs ≡ (b'a' ∷ []) ∷ (b'b' ∷ []) ∷ [])
    × ((id : ℕ) → Has rs id → s.0 == 0 ≡ true)
init_lem_example =
    init_lem one_by_one 1 one_by_one-Connects 3 replicas (0, 0) (omega arith) refl (omega arith)

-- A failed connection is not counted.
one_failed :
    on_events
      (record { is_connected = true; no_error = false }
        ∷ record { is_connected = true; no_error = true }
        ∷ [])
      0
    ≡ 1
unfolding on_events
one_failed = refl

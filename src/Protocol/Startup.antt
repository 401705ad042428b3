-- ===== src/Protocol/Startup.antt =====
-- The start of a thread: `init` of src/include/protocol/abd/protocol.h, which connects to the replicas, with
-- `sm_handler` and the replicas of `server_thread` in src/server.cpp. eRPC is an argument.
pub mod Connected
use avocado.Common.{
  ℕ, zero, suc, ◌+◌, ◌%◌, ◌^◌, Bool, true, false, ◌&&◌, Option, none, some, List, [], ◌∷◌, length,
  ◌==◌, if◌then◌else◌, ◌>>=◌,
}
use avocado.Server.Address.{get_n_threads_from_svr_info, get_uri_from_server_info}

-- An event of eRPC's session management: whether it is `kConnected`, and whether it is `kNoError`
pub record SmEvent : Type 0 where
  pub is_connected : Bool
  pub no_error : Bool

-- What is used of eRPC: a round of its event loop hands events to `sm_handler`.
pub record Erpc : Type 1 where
  pub State : Type 0
  pub create_session : State → (uri : List ℕ) → (base_id : ℕ) → ℕ × State
  pub is_connected : State → ℕ → Bool
  pub run_event_loop_once : State → List SmEvent × State

pub record ReplicaInfo : Type 0 where
  pub session_id : ℕ
  pub base_id : ℕ
  pub uri : List ℕ

-- What `server_thread` makes of a server's address; `none` is a division by zero.
unfoldable pub replica_info : ℕ → List ℕ → Option ReplicaInfo
replica_info local_id r_info =
    if get_n_threads_from_svr_info r_info == 0
    then none
    else some (record {
      session_id = 0;
      base_id = local_id % get_n_threads_from_svr_info r_info;
      uri = get_uri_from_server_info r_info;
    })

-- `sm_handler`, on the thread's `connected`
unfoldable pub sm_handler : SmEvent → ℕ → ℕ
sm_handler e connected =
    if e.is_connected && e.no_error then (connected + 1) % 2 ^ 64 else connected

unfoldable pub on_events : List SmEvent → ℕ → ℕ
unfolding sm_handler
on_events [] connected = connected
on_events (e ∷ es) connected = on_events es (sm_handler e connected)

module _ (erpc : Erpc) where
  open erpc use {State, create_session, run_event_loop_once}

  -- Rounds of the event loop until `ready` holds of eRPC's state and `connected`; `none` is the end of the
  -- fuel.
  unfoldable pub run_until : ℕ → (State → ℕ → Bool) → State → ℕ → Option (State × ℕ)
  unfolding on_events
  run_until zero ready s connected = none
  run_until (suc fuel) ready s connected =
      let (events, s') = run_event_loop_once s in
      let later = run_until fuel ready s' (on_events events connected) in
      if ready s connected then some (s, connected) else later

  -- The first loop of `init`
  unfoldable pub connect_all :
      ℕ → List ReplicaInfo → State → ℕ → Option (List ReplicaInfo × State × ℕ)
  unfolding run_until
  connect_all fuel [] s connected = some ([], s, connected)
  connect_all fuel (r ∷ rs) s connected = do
    let (session_id, s₁) = create_session s r.uri r.base_id
    (s₂, connected₂) ← run_until fuel (λ s n. erpc.is_connected s session_id) s₁ connected
    (rs', s₃, connected₃) ← connect_all fuel rs s₂ connected₂
    some (record r { session_id = session_id } ∷ rs', s₃, connected₃)

  unfoldable pub init : ℕ → List ReplicaInfo → State → Option (List ReplicaInfo × State × ℕ)
  unfolding connect_all
  init fuel replicas_infos s = do
    (infos, s₁, connected₁) ← connect_all fuel replicas_infos s 0
    (s₂, connected₂) ← run_until fuel (λ s n. n == length infos) s₁ connected₁
    some (infos, s₂, connected₂)

-- ===== src/Protocol/Sending.antt =====
-- `ABD::send_and_encrypt_msg`: a message for a key reaches the replicas of one shard.
use avocado.Common.{
  ℕ, ◌+◌, ◌^◌, ◌<◌, ◌≡◌, refl, some, List, [], ◌∷◌, length, map, arith, ◌>>=◌, get_elem?,
  get_elem?-in_bounds,
}
use avocado.Msg.Build.{Holds}
use avocado.Msg.{Msg, header_size}
use avocado.Protocol.Context.{Context, send}
use avocado.Protocol.Delivery.{Shard, send-get_data, get_idx_lem}
use avocado.Protocol.Operations.{send_to_shard, send_shard}
use avocado.Protocol.Requests.{get_data}
use avocado.Protocol.{Packet, Config, Effect, ReqType, ContType}

send_shard_lem :
    (packet : Packet) (c : Context) (sessions : List ℕ) (req : ReqType) (cont : ContType) (iv : ℕ)
    (m : Msg) (traces : ℕ) (r : Context × List Effect)
    → 0 < length sessions
    → send packet c sessions req cont iv m ≡ some r
    → send_shard packet c sessions req cont iv m traces ≡ some (r.0, traces, r.1)
unfolding send_shard
send_shard_lem packet c [] req cont iv m traces r h e = absurd (omega arith)
send_shard_lem packet c (s ∷ ss) req cont iv m traces r h e = rw (e, ◌>>=◌) refl

-- A message for a key goes to all the sessions of the key's shard, if no shard is empty.
pub send_to_shard_lem :
    (packet : Packet) (config : Config) (c : Context) (key : List ℕ) (req : ReqType)
    (cont : ContType) (iv : ℕ) (m : Msg) (traces : ℕ) (m_key m_value : List ℕ) (room : ℕ)
    → 0 < length config.replicas
    → ((i : ℕ) (reps : List ℕ) → get_elem? config.replicas i ≡ some reps → 0 < length reps)
    → 0 < length key
    → Holds m m_key m_value room
    → length m_key + length m_value + header_size < 2 ^ 31
    → (idx : ℕ) × (sessions : List ℕ) × (bytes : List ℕ) × (received : Msg) × (get_elem?
          config.replicas idx
        ≡ some sessions)
      × Shard config.replicas key idx
      × (send_to_shard packet config c key req cont iv m traces
          ≡ some (
            record c { n_msgs = length sessions },
            traces,
            map (λ session. Effect.request session req cont bytes) sessions,
          ))
      × (get_data packet bytes ≡ some received)
      × Holds received m_key m_value 0
unfolding send_to_shard
send_to_shard_lem packet config c key req cont iv m traces m_key m_value room some_shard full k h
      short =
    let (idx, e, below, shard) = get_idx_lem config.replicas key some_shard k in
    let (sessions, found) = get_elem?-in_bounds config.replicas idx below in
    let (bytes, received, sent, read_back, holds) =
      send-get_data packet c sessions req cont iv m m_key m_value room (full idx sessions found) h
        short in
    (
      idx,
      sessions,
      bytes,
      received,
      found,
      shard,
      rw (e, ◌>>=◌, found)
          (send_shard_lem packet c sessions req cont iv m traces _ (full idx sessions found) sent),
      read_back,
      holds,
    )

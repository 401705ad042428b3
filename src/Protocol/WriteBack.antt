-- ===== src/Protocol/WriteBack.antt =====
-- The second phase of a get: `RetValue` writes what it has found back to the replicas before the client gets
-- it.
use avocado.Common.{
  ℕ, ◌+◌, ◌^◌, ◌<◌, ◌≡◌, refl, subst, false, true, some, List, [], ◌∷◌, ◌++◌, length, length-append,
  map, arith, ◌>>=◌, get_elem?, ltb,
}
use avocado.KeyAccess.{lamport_bytes, add_meta_size, length-lamport_bytes}
use avocado.Memtable.Interface.{Cipher, SkipList}
use avocado.Memtable.{Store}
use avocado.Msg.Build.{Holds, build-Holds}
use avocado.Msg.{Msg, header_size, builder, add_key, add_value}
use avocado.Protocol.Context.{Context, default_node, create}
use avocado.Protocol.Continuations.{Latest, has_consensus, latest_value, span_bytes, ret_value}
use avocado.Protocol.Delivery.{Shard}
use avocado.Protocol.Operations.{send_to_shard, decrement}
use avocado.Protocol.Requests.{get_data}
use avocado.Protocol.Sending.{send_to_shard_lem}
use avocado.Protocol.{Packet, Config, Effect, ReqType, ContType}

module _ (cipher : Cipher) (skip_list : SkipList) (packet : Packet) (config : Config)
    (kv : Store cipher skip_list) (traces iv : ℕ) (c : Context) where
  ret_value_run :
      {latest : Latest} {value : List ℕ} {msg : Msg} {put_context : Context} {traces' : ℕ}
      {effects : List Effect}
      → latest_value cipher skip_list packet config kv c ≡ some latest
      → has_consensus c.n_msgs latest.counts ≡ false
      → ltb 0 latest.span_size ≡ true
      → latest.span ≡ some value
      → (builder (add_meta_size c.node.key_size + latest.span_size)
            >>= add_key c.node.key
            >>= add_key (lamport_bytes latest.clock)
            >>= add_value value
          ≡ some msg)
      → send_to_shard packet config
          (create default_node)
          c.node.key
          ReqType.put_replica
          ContType.ret_get_put_update
          iv
          msg
          traces
        ≡ some (put_context, traces', effects)
      → ret_value cipher skip_list packet config kv traces iv c
        ≡ some (decrement traces', effects ++ (Effect.get_ret (some value) latest.span_size ∷ []))
  unfolding ret_value span_bytes
  ret_value_run e₁ e₂ e₃ e₄ e₅ e₆ = rw (e₁, ◌>>=◌, e₂, e₃, e₄, e₅, e₆) refl

  -- Where the fold has found a value and no consensus, RetValue sends one message to all replicas of the
  -- key's shard, the key with the clock it has found behind it and the value, and then the client gets the
  -- value; the operation is over. The shard's number is the last 8, 4, 2 or 1 bytes of the key modulo the
  -- number of shards; no shard is empty, and all that is sent fits a message of less than 2^31 bytes.
  pub ret_value_lem :
      (latest : Latest) (value : List ℕ)
      → 0 < length config.replicas
      → ((i : ℕ) (reps : List ℕ) → get_elem? config.replicas i ≡ some reps → 0 < length reps)
      → latest_value cipher skip_list packet config kv c ≡ some latest
      → has_consensus c.n_msgs latest.counts ≡ false
      → latest.span ≡ some value
      → latest.span_size ≡ length value
      → 0 < length value
      → c.node.key_size ≡ length c.node.key
      → 0 < length c.node.key
      → length c.node.key + 8 + length value + header_size < 2 ^ 31
      → (idx : ℕ) × (sessions : List ℕ) × (bytes : List ℕ) × (received : Msg) × (get_elem?
            config.replicas idx
          ≡ some sessions)
        × Shard config.replicas c.node.key idx
        × (ret_value cipher skip_list packet config kv traces iv c
            ≡ some (
              decrement traces,
              map
                    (λ session.
                      Effect.request session ReqType.put_replica ContType.ret_get_put_update bytes)
                    sessions
                  ++ (Effect.get_ret (some value) (length value) ∷ []),
            ))
        × (get_data packet bytes ≡ some received)
        × Holds received (c.node.key ++ lamport_bytes latest.clock) value 0
  ret_value_lem latest value some_shard full found split span size pos key_size key small =
      let length_clock = length-lamport_bytes latest.clock in
      let (m, built, h) =
        build-Holds (add_meta_size c.node.key_size + latest.span_size) c.node.key
          (lamport_bytes latest.clock) value (omega (arith, key_size, size, small))
          (omega (arith, key_size, size, small, length_clock)) in
      let (idx, sessions, bytes, received, at, shard, sent, read_back, holds) =
        send_to_shard_lem packet config (create default_node) c.node.key ReqType.put_replica
          ContType.ret_get_put_update iv m traces (c.node.key ++ lamport_bytes latest.clock) value _
          some_shard full key h
          (omega
            (arith, small, length_clock, length-append c.node.key (lamport_bytes latest.clock))) in
      (
        idx,
        sessions,
        bytes,
        received,
        at,
        shard,
        subst
            (λ n.
              ret_value cipher skip_list packet config kv traces iv c
              ≡ some (
                decrement traces,
                map
                      (λ session.
                        Effect.request session ReqType.put_replica ContType.ret_get_put_update
                          bytes)
                      sessions
                    ++ (Effect.get_ret (some value) n ∷ []),
              ))
            size (ret_value_run found split (ground (arith, size, pos)) span built sent),
        read_back,
        holds,
      )

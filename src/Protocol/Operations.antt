-- ===== src/Protocol/Operations.antt =====
-- A client's operations start here: `benchmark_put`, `benchmark_get`, the handlers of Put and Get,
-- `send_cmd`, and `ABD::send_and_encrypt_msg`, which sends to the replicas of the key's shard.
use avocado.Common.{ℕ, ◌+◌, ◌-◌, ◌%◌, ◌^◌, Option, some, List, [], ◌∷◌, length, get_elem?, ◌>>=◌}
use avocado.Lamport
use avocado.Memtable
use avocado.Memtable.Interface.{Cipher, SkipList}
use avocado.Memtable.{Store}
use avocado.Msg.{Msg, get_key, get_value, builder, add_key}
use avocado.Protocol.Context.{Context, default_node, create, send}
use avocado.Protocol.Requests.{get_data}
use avocado.Protocol.Routing.{get_idx}
use avocado.Protocol.{Packet, Config, Effect, ReqType, ContType}

-- `current_traces`, a `size_t`
abbrev pub increment : ℕ → ℕ
increment traces = (traces + 1) % 2 ^ 64

abbrev pub decrement : ℕ → ℕ
decrement traces = (traces + 2 ^ 64 - 1) % 2 ^ 64

-- Where a shard has no replicas for this node, nothing is sent and the operation ends here.
unfoldable pub send_shard :
    Packet
    → Context
    → List ℕ
    → ReqType
    → ContType
    → ℕ
    → Msg
    → ℕ
    → Option (Context × ℕ × List Effect)
unfolding send
send_shard packet c [] req cont iv msg traces = some (c, decrement traces, Effect.skip_ret ∷ [])
send_shard packet c (r ∷ rs) req cont iv msg traces = do
  (c', effects) ← send packet c (r ∷ rs) req cont iv msg
  some (c', traces, effects)

-- `ABD::send_and_encrypt_msg`, with the number of running operations
unfoldable pub send_to_shard :
    Packet
    → Config
    → Context
    → List ℕ
    → ReqType
    → ContType
    → ℕ
    → Msg
    → ℕ
    → Option (Context × ℕ × List Effect)
unfolding get_idx send_shard
send_to_shard packet config c key req cont iv msg traces = do
  idx ← get_idx config.replicas key
  reps ← get_elem? config.replicas idx
  send_shard packet c reps req cont iv msg traces

module _ (cipher : Cipher) (skip_list : SkipList) (packet : Packet) (config : Config) where
  unfoldable pub benchmark_put :
      Store cipher skip_list
      → ℕ
      → ℕ
      → Msg
      → Option (Context × Store cipher skip_list × ℕ × List Effect)
  unfolding get_key get_value builder add_key Memtable.create_node create send_to_shard
  benchmark_put kv traces iv msg = do
    key ← get_key msg
    replica_msg ← builder (length key) >>= add_key key
    value ← get_value msg
    (node, kv') ← Memtable.create_node cipher skip_list kv key value Lamport.min
    (c, traces', effects) ←
        send_to_shard packet config (create node) key ReqType.get_time_stamp ContType.get_time iv
          replica_msg (increment traces)
    some (c, kv', traces', effects)

  unfoldable pub benchmark_get :
      Store cipher skip_list
      → ℕ
      → ℕ
      → Msg
      → Option (Context × Store cipher skip_list × ℕ × List Effect)
  unfolding get_key Memtable.create_node create send_to_shard
  benchmark_get kv traces iv msg = do
    key ← get_key msg
    (node, kv') ← Memtable.create_node cipher skip_list kv key [] Lamport.min
    (c, traces', effects) ←
        send_to_shard packet config (create node) key ReqType.get_value_time_stamp
          ContType.ret_value iv msg (increment traces)
    some (c, kv', traces', effects)

  -- The handler of Put sends the whole request on, its value included.
  unfoldable pub handle_put :
      Store cipher skip_list
      → ℕ
      → ℕ
      → List ℕ
      → Option (Context × Store cipher skip_list × ℕ × List Effect)
  unfolding get_data get_key get_value Memtable.create_node create send_to_shard
  handle_put kv traces iv req = do
    data_msg ← get_data packet req
    key ← get_key data_msg
    value ← get_value data_msg
    (node, kv') ← Memtable.create_node cipher skip_list kv key value Lamport.min
    (c, traces', effects) ←
        send_to_shard packet config (create node) key ReqType.get_time_stamp ContType.get_time iv
          data_msg traces
    some (c, kv', traces', effects)

  unfoldable pub handle_get :
      Store cipher skip_list
      → ℕ
      → ℕ
      → List ℕ
      → Option (Context × Store cipher skip_list × ℕ × List Effect)
  unfolding get_data get_key Memtable.create_node create send_to_shard
  handle_get kv traces iv req = do
    data_msg ← get_data packet req
    key ← get_key data_msg
    (node, kv') ← Memtable.create_node cipher skip_list kv key [] Lamport.min
    (c, traces', effects) ←
        send_to_shard packet config (create node) key ReqType.get_value_time_stamp
          ContType.ret_value iv data_msg traces
    some (c, kv', traces', effects)

-- `send_cmd`: the text with its final zero, to all sessions. The context has no node of its own.
unfoldable pub send_cmd : Packet → List ℕ → ℕ → List ℕ → Option (Context × List Effect)
unfolding builder add_key create send
send_cmd packet sessions iv command = do
  msg ← builder (length command + 1) >>= add_key command >>= add_key (0 ∷ [])
  send packet (create default_node) sessions ReqType.cmd ContType.cmd_ret iv msg

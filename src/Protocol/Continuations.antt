-- ===== src/Protocol/Continuations.antt =====
-- What a coordinator does when enough replicas have answered: `req_conts_impl`.
use avocado.Common.{
  ℕ, ◌+◌, ◌/◌, ◌%◌, ◌^◌, Bool, true, false, not, ◌&&◌, Option, none, some, List, [], ◌∷◌, ◌++◌,
  take, replicate, ltb, leb, if◌then◌else◌, ◌>>=◌,
}
use avocado.Common.Bytes.{read, write}
use avocado.KeyAccess.{lamport_bytes, get_lamport, add_meta_size}
use avocado.Lamport
use avocado.Lamport.{Lamport}
use avocado.Memtable
use avocado.Memtable.Interface.{Cipher, SkipList}
use avocado.Memtable.{Store, MetaData, RetValue, update}
use avocado.Msg.{Msg, of_bytes, to_bytes, get_key, builder, add_key, add_value}
use avocado.Protocol.Context.{Context, default_node, create, reduce_resp, last_msg}
use avocado.Protocol.Operations.{send_to_shard, decrement}
use avocado.Protocol.Requests.{ack}
use avocado.Protocol.{Packet, Config, Effect, ReqType, ContType}

-- The step of `reduce_resp` in `GetTime`: the later count, over responses that can hold a clock.
unfoldable pub later_count : ℕ → Msg → Option ℕ
later_count prior buf = if ltb buf.size 8 then some prior else (do
  key ← get_key buf
  clock ← get_lamport buf.key_size (some key)
  some (if leb clock.count prior then prior else clock.count))

-- `std::map<Lamport, size_t>`, and an entry above half of the messages
unfoldable pub count_clock : Lamport → List (Lamport × ℕ) → List (Lamport × ℕ)
unfolding Lamport.eq
count_clock clock [] = (clock, 1) ∷ []
count_clock clock ((c, n) ∷ counts) =
    if Lamport.eq c clock then (c, n + 1) ∷ counts else (c, n) ∷ count_clock clock counts

unfoldable pub has_consensus : ℕ → List (Lamport × ℕ) → Bool
has_consensus n_msgs [] = false
has_consensus n_msgs ((c, n) ∷ counts) =
    if ltb (n_msgs / 2) n then true else has_consensus n_msgs counts

-- The fold of `RetValue`: the counts, the array `tmp`, and the latest clock with the span that goes
-- with it, null or not.
pub record Latest : Type 0 where
  pub counts : List (Lamport × ℕ)
  pub tmp : List ℕ
  pub clock : Lamport
  pub span : Option (List ℕ)
  pub span_size : ℕ

-- A later response is copied to `tmp`, `get_size ()` bytes of it; the span is the key of the copy.
unfoldable pub later_response : ℕ → Latest → Msg → Option Latest
later_response key_size latest buf = do
  clock ← get_lamport key_size (some buf.buf)
  let counts = count_clock clock latest.counts
  let copied : Option Latest = (do
    bytes ← read 0 buf.size (to_bytes buf)
    tmp ← write 0 bytes latest.tmp
    copy ← of_bytes tmp
    key ← get_key copy
    some (record {
      counts = counts;
      tmp = tmp;
      clock = clock;
      span = some key;
      span_size = copy.key_size;
    }))
  if Lamport.gt clock latest.clock then copied else some (record latest { counts = counts })

unfoldable pub span_bytes : Option (List ℕ) → List ℕ
span_bytes none = []
span_bytes (some bytes) = bytes

module _ (cipher : Cipher) (skip_list : SkipList) (packet : Packet) (config : Config) where
  -- `node.meta->clock = clock`
  unfoldable pub set_clock : Store cipher skip_list → ℕ → Lamport → Store cipher skip_list
  set_clock kv meta clock = record kv {
    heap = update kv.heap meta (record (kv.heap meta) { clock = clock });
  }

  -- `GetTime`: the count after the latest of the local one and the responses', with this machine's
  -- id, goes with the value to the replicas and into the own store.
  unfoldable pub get_time :
      List Bool
      → Store cipher skip_list
      → ℕ
      → ℕ
      → Context
      → Option (Context × Store cipher skip_list × ℕ × List Effect)
  unfolding set_clock span_bytes
  get_time rounds kv traces iv c = do
    let node = c.node
    let local_resp = Memtable.get_node cipher skip_list kv node
    max ← reduce_resp packet c later_count local_resp.lamport.count
    let clock : Lamport = record { count = (max + 1) % 2 ^ 32; m_id = config.m_id }
    let plain = Memtable.decrypt_node cipher skip_list kv node
    msg ←
        builder (add_meta_size node.key_size + (kv.heap node.meta).data_size)
        >>= add_key node.key
        >>= add_key (lamport_bytes clock)
        >>= add_value (take plain.size (span_bytes plain.value))
    (put_context, traces', effects) ←
        send_to_shard packet config (create default_node) node.key ReqType.put_replica
          ContType.ack_put_time iv msg traces
    (stored, kv') ← Memtable.put_node cipher skip_list rounds (set_clock kv node.meta clock) node
    some (put_context, kv', traces', effects)

  -- `AckPutTime`: the operation is over.
  unfoldable pub ack_put_time : ℕ → ℕ × List Effect
  ack_put_time traces = (decrement traces, Effect.put_ret ack ∷ [])

  -- `RetValue`: the responses against the local value.
  unfoldable pub latest_value : Store cipher skip_list → Context → Option Latest
  latest_value kv c =
      let local_resp = Memtable.get_node cipher skip_list kv c.node in
      reduce_resp packet c (later_response (add_meta_size c.node.key_size)) (record {
        counts = [];
        tmp = replicate c_max 0;
        clock = local_resp.lamport;
        span = local_resp.value;
        span_size = local_resp.size;
      })
    where
      c_max : ℕ
      c_max = config.max_package_size

  -- Without consensus on one clock the latest value is sent to the replicas again. In any case the
  -- client gets it.
  unfoldable pub ret_value : Store cipher skip_list → ℕ → ℕ → Context → Option (ℕ × List Effect)
  ret_value kv traces iv c = do
    latest ← latest_value kv c
    let node = c.node
    let answer = Effect.get_ret latest.span latest.span_size
    let write_back : Option (ℕ × List Effect) = (do
      msg ←
          builder (add_meta_size node.key_size + latest.span_size)
          >>= add_key node.key
          >>= add_key (lamport_bytes latest.clock)
          >>= add_value (span_bytes latest.span)
      (put_context, traces', effects) ←
          send_to_shard packet config (create default_node) node.key ReqType.put_replica
            ContType.ret_get_put_update iv msg traces
      some (decrement traces', effects ++ (answer ∷ [])))
    (if not (has_consensus c.n_msgs latest.counts) && ltb 0 latest.span_size
        then write_back
        else some (decrement traces, answer ∷ []))

  -- `RetGetPutUpdate` does nothing. `CmdRet` hands the last response and the count on.
  unfoldable pub ret_get_put_update : ℕ → ℕ × List Effect
  ret_get_put_update traces = (traces, [])

  unfoldable pub cmd_ret : Bool → ℕ → Context → Option (List Effect)
  unfolding last_msg to_bytes
  cmd_ret false n_resp c = some []
  cmd_ret true n_resp c = do
    msg ← last_msg packet c
    some (Effect.cmd_ret n_resp (to_bytes msg) ∷ [])

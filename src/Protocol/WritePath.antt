-- ===== src/Protocol/WritePath.antt =====
-- The second phase of a put: `GetTime` orders the write after all that the quorum knows.
use avocado.Common.{
  ℕ, ◌+◌, ◌%◌, ◌^◌, ◌≤◌, ◌<◌, ◌≡◌, refl, ap, ◌∙◌, Bool, true, some, List, ◌++◌, length,
  length-append, map, take, take-length, arith, ◌>>=◌, get_elem?, Option-cases, inl, inr,
}
use avocado.KeyAccess.{lamport_bytes, add_meta_size, length-lamport_bytes}
use avocado.Lamport
use avocado.Lamport.Order.{to_int_mono}
use avocado.Lamport.{Lamport}
use avocado.Memtable
use avocado.Memtable.Interface.{Cipher, SkipList, Node}
use avocado.Memtable.Put.{some_strong, put_loop_lem}
use avocado.Memtable.{Store}
use avocado.Msg.Build.{Holds, build-Holds}
use avocado.Msg.{Msg, header_size, builder, add_key, add_value}
use avocado.Protocol.Clocks.{
  clock_packet, clocks_of, latest_count, latest_count-le, latest_count-elem, reduce_resp-clocks,
}
use avocado.Protocol.Context.{Context, default_node, create, reduce_resp}
use avocado.Protocol.Continuations.{later_count, span_bytes, set_clock, get_time}
use avocado.Protocol.Delivery.{Shard}
use avocado.Protocol.Operations.{send_to_shard}
use avocado.Protocol.Requests.{get_data}
use avocado.Protocol.{Packet, Config, Effect, ReqType, ContType}
use avocado.Protocol.Sending.{send_to_shard_lem}

module _ (cipher : Cipher) (skip_list : SkipList) where
  open skip_list use {add_or_get}

  put_node_runs :
      (rounds : List Bool) (s : Store cipher skip_list) (n : Node)
      → some_strong rounds ≡ true
      → (r : Bool × Store cipher skip_list) × (Memtable.put_node cipher skip_list rounds s n
          ≡ some r)
  unfolding Memtable.put_node
  put_node_runs rounds s n h = elim (Option-cases (Memtable.put_node cipher skip_list rounds s n)) [
    | inl fails ↦
        absurd
          (ground (arith, fails, put_loop_lem s.heap rounds (add_or_get s.table n).0.meta n.meta h))
    | inr runs ↦ runs
  ]

  -- GetTime comes to an end, and sends one message to the key's shard: the key with a clock of this machine
  -- behind it, and the value. The clock is later than the store's and than the given ones.
  abbrev pub SendsPut :
      Packet
      → Config
      → List Bool
      → Store cipher skip_list
      → ℕ
      → ℕ
      → Context
      → List ℕ
      → List Lamport
      → Type 0
  SendsPut packet config rounds kv traces iv c value clocks =
      (put_context : Context) × (kv' : Store cipher skip_list) × (sessions : List ℕ) × (bytes : List
        ℕ)
      × (received : Msg) × (clock : Lamport) × (get_time cipher skip_list packet config rounds kv
            traces iv c
          ≡ some (
            put_context,
            kv',
            traces,
            map (λ session. Effect.request session ReqType.put_replica ContType.ack_put_time bytes)
                sessions,
          ))
      × (put_context.n_msgs ≡ length sessions)
      × (get_data packet bytes ≡ some received)
      × Holds received (c.node.key ++ lamport_bytes clock) value 0
      × (clock.m_id ≡ config.m_id)
      × (Lamport.to_int (Memtable.get_node cipher skip_list kv c.node).lamport
          < Lamport.to_int clock)
      × ((i : ℕ) (l : Lamport)
          → get_elem? clocks i ≡ some l
          → Lamport.to_int l < Lamport.to_int clock)
      × (idx : ℕ) × (get_elem? config.replicas idx ≡ some sessions)
      × Shard config.replicas c.node.key idx

  module _ (packet : Packet) (config : Config) where
    get_time_run :
        (rounds : List Bool) (kv kv' : Store cipher skip_list) (traces iv : ℕ) (c : Context)
        {max : ℕ} {msg : Msg} {put_context : Context} {traces' : ℕ} {effects : List Effect}
        {stored : Bool} {value : List ℕ} {clock : Lamport}
        → reduce_resp packet c later_count
            (Memtable.get_node cipher skip_list kv c.node).lamport.count
          ≡ some max
        → clock ≡ record { count = (max + 1) % 2 ^ 32; m_id = config.m_id }
        → take
            (Memtable.decrypt_node cipher skip_list kv c.node).size
            (span_bytes (Memtable.decrypt_node cipher skip_list kv c.node).value)
          ≡ value
        → builder (add_meta_size c.node.key_size + (kv.heap c.node.meta).data_size)
            >>= add_key c.node.key
            >>= add_key (lamport_bytes clock)
            >>= add_value value
          ≡ some msg
        → send_to_shard packet config
            (create default_node)
            c.node.key
            ReqType.put_replica
            ContType.ack_put_time
            iv
            msg
            traces
          ≡ some (put_context, traces', effects)
        → Memtable.put_node cipher skip_list rounds
            (set_clock cipher skip_list packet config kv c.node.meta clock)
            c.node
          ≡ some (stored, kv')
        → get_time cipher skip_list packet config rounds kv traces iv c
          ≡ some (put_context, kv', traces', effects)
    unfolding get_time
    get_time_run rounds kv kv' traces iv c e₁ e₂ e₃ e₄ e₅ e₆ =
        rw (e₁, ◌>>=◌, ← e₂, e₃, e₄, e₅, e₆) refl

    module _ (some_shard : 0 < length config.replicas)
        (full : (i : ℕ) (reps : List ℕ) → get_elem? config.replicas i ≡ some reps → 0 < length reps)
        (kv : Store cipher skip_list) (c : Context) (value : List ℕ)
        (replies : List (ℕ × Lamport)) where
      -- Where the replies of a quorum have come in, GetTime sends one message to the key's shard: the key
      -- with a clock behind it and the value. The clock has this machine's id and is later than the store's
      -- and than that of every reply, unless the counts are used up. The message has less than
      -- 2^31 bytes.
      pub get_time_lem :
          (rounds : List Bool) (traces iv : ℕ)
          → some_strong rounds ≡ true
          → config.m_id < 2 ^ 32
          → c.cache ≡ map (clock_packet packet) replies
          → 24 ≤ c.max_resp_size
          → ((i : ℕ) (l : Lamport)
              → get_elem? (clocks_of packet replies) i ≡ some l
              → Lamport.IsValid l)
          → Lamport.IsValid (Memtable.get_node cipher skip_list kv c.node).lamport
          → c.node.key_size ≡ length c.node.key
          → 0 < length c.node.key
          → Memtable.decrypt_node cipher skip_list kv c.node ≡ record {
            lamport = (kv.heap c.node.meta).clock;
            size = length value;
            value = some value;
          }
          → (kv.heap c.node.meta).data_size ≡ length value
          → length c.node.key + 8 + length value + header_size < 2 ^ 31
          → latest_count
                (Memtable.get_node cipher skip_list kv c.node).lamport.count
                (clocks_of packet replies)
              + 1
            < 2 ^ 32
          → SendsPut packet config rounds kv traces iv c value (clocks_of packet replies)
      unfolding span_bytes
      get_time_lem rounds traces iv strong m_id cached room valid local_valid key_size key plain
            data_size small counts =
          let (m, built, h) =
            build-Holds max_size c.node.key (lamport_bytes clock) value small_size fits in
          let (idx, sessions, bytes, received, found, shard, sent, read_back, holds) =
            send_to_shard_lem packet config (create default_node) c.node.key ReqType.put_replica
              ContType.ack_put_time iv m traces (c.node.key ++ lamport_bytes clock) value _
              some_shard full key h
              (omega (
                arith,
                small,
                length-lamport_bytes clock,
                length-append c.node.key (lamport_bytes clock),
              )) in
          let ((stored, kv'), put_runs) =
            put_node_runs rounds (set_clock cipher skip_list packet config kv c.node.meta clock)
              c.node strong in
          (
            record (create default_node) { n_msgs = length sessions },
            kv',
            sessions,
            bytes,
            received,
            clock,
            get_time_run rounds kv kv' traces iv c
                (reduce_resp-clocks packet c replies local.count cached room valid) refl
                (ap (λ (r : Memtable.RetValue). take r.size (span_bytes r.value)) plain
                  ∙ take-length value)
                built sent put_runs,
            refl,
            read_back,
            holds,
            refl,
            to_int_mono local_valid clock_valid
                (omega (arith, latest_count-le local.count (clocks_of packet replies), counts)),
            λ i l e. to_int_mono (valid i l e) clock_valid (
                omega
                  (arith, latest_count-elem local.count (clocks_of packet replies) i l e, counts)),
            idx,
            found,
            shard,
          )
        where
          local : Lamport
          local = (Memtable.get_node cipher skip_list kv c.node).lamport

          clock : Lamport
          clock = record {
            count = (latest_count local.count (clocks_of packet replies) + 1) % 2 ^ 32;
            m_id = config.m_id;
          }

          clock_valid : Lamport.IsValid clock
          clock_valid = record { count_fits = omega (arith, counts); m_id_fits = m_id }

          max_size : ℕ
          max_size = add_meta_size c.node.key_size + (kv.heap c.node.meta).data_size

          small_size : max_size < 2 ^ 63
          small_size = omega (arith, key_size, data_size, small)

          fits : length c.node.key + length (lamport_bytes clock) + length value ≤ max_size
          fits = omega (arith, key_size, data_size, small, length-lamport_bytes clock)

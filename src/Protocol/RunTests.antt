-- ===== src/Protocol/RunTests.antt =====
-- Replicas and coordinators at concrete messages, and the theorems about them at concrete inputs.
use avocado.Protocol.Buffers.{Buffers, create_buffers, respond_all, destroy}
use avocado.Protocol.Buffers.Release.{count, buffers_freed}
use avocado.Common.{
  ltb, if◌then◌else◌, zero, suc, ℕ, ◌≤◌, ◌≡◌, refl, false, some, List, [], ◌∷◌, ◌++◌, map, arith,
}
use avocado.Common.Bytes.{memcmp, le_value, le_bytes}
use avocado.KeyAccess.{lamport_bytes}
use avocado.Lamport
use avocado.Lamport.{Lamport}
use avocado.Crypt.KeyIv.{KeyIv, get_packet_iv, words_eq, inc}
use avocado.Crypt.PacketSsl
use avocado.Crypt.PacketSsl.{get_buffer_size}
use avocado.Crypt.Sample.{tagging}
use avocado.Protocol.Encrypted.{packet_ssl, packet_refines}
use avocado.Protocol.{Packet}
use avocado.Common.{true, replicate, length, ◌⊎◌, ◌≢◌}
use avocado.Memtable
use avocado.Memtable.AssocList
use avocado.Memtable.AssocList.{list_table, tag_cipher}
use avocado.Memtable.Put.{IsValid, accepts}
use avocado.Memtable.{Store}
use avocado.Msg.Build.{Holds}
use avocado.Msg.{Msg, get_key, of_bytes, to_bytes}
use avocado.Protocol.Context.{default_node, create, send}
use avocado.Protocol.Padding.{padding}
use avocado.Protocol.Requests.{get_data, handle_get_value_time_stamp, put_replica}
use avocado.Protocol.Delivery.{send-get_data}
use avocado.Protocol.Replica.{put_replica_lem}
use avocado.Protocol.Versions.{version_packet}
use avocado.Protocol.Versions.Replies.{get_answered}
use avocado.Protocol.{Effect, ReqType, ContType}
use avocado.Protocol.Sample.{TestStore, k, at, kv, kv-IsValid}

abbrev request : Msg
request = record { key_size = 10; size = 11; buf = k ++ lamport_bytes (at 5) ++ (9 ∷ []) }

request-Holds : Holds request (k ++ lamport_bytes (at 5)) (9 ∷ []) 0
unfolding lamport_bytes
request-Holds = record {
  rest = [];
  room_left = refl;
  key_size = refl;
  size = refl;
  layout = refl;
  small = omega arith;
}

put_replica_lem_example :
    (kv' : TestStore) × (reply : Msg) × (put_replica tag_cipher list_table (false ∷ []) kv request
      ≡ some (kv', reply))
    × (get_key reply ≡ some (b'A' ∷ []))
    × IsValid tag_cipher list_table kv'
    × (Lamport.to_int (at 5) ≤ Lamport.to_int (Memtable.get tag_cipher list_table kv' k).lamport)
    × ((j : List ℕ)
        → Lamport.to_int (Memtable.get tag_cipher list_table kv j).lamport
          ≤ Lamport.to_int (Memtable.get tag_cipher list_table kv' j).lamport)
    × (accepts tag_cipher list_table kv k (at 5) ≡ true
        → Memtable.get tag_cipher list_table kv' k
          ≡ record { lamport = at 5; size = 1; value = some (9 ∷ []) })
    × ((j : List ℕ)
        → (accepts tag_cipher list_table kv k (at 5) ≡ false) ⊎ (k ≢ j)
        → Memtable.get tag_cipher list_table kv' j ≡ Memtable.get tag_cipher list_table kv j)
put_replica_lem_example =
    put_replica_lem tag_cipher list_table kv kv-IsValid k (9 ∷ []) (at 5) (omega arith) (false ∷ [])
      request 0 request-Holds refl (omega arith)

abbrev query : Msg
query = record { key_size = 2; size = 2; buf = k }

query-Holds : Holds query k [] 0
query-Holds = record {
  rest = [];
  room_left = refl;
  key_size = refl;
  size = refl;
  layout = refl;
  small = omega arith;
}

query_read : get_data padding (padding.encrypt 5 (to_bytes query)) ≡ some query
unfolding get_data of_bytes to_bytes le_value le_bytes
query_read = refl

get_answered_example :
    handle_get_value_time_stamp tag_cipher list_table padding kv 6
      (padding.encrypt 5 (to_bytes query))
    ≡ some (
        Effect.respond (
          version_packet padding k (record {
            iv = 6;
            clock = (Memtable.get tag_cipher list_table kv k).lamport;
            value = 1 ∷ [];
          }))
        ∷ [])
unfolding Memtable.get AssocList.find memcmp
get_answered_example =
    get_answered tag_cipher list_table kv k (1 ∷ []) 6 padding (padding.encrypt 5 (to_bytes query))
      [] query 0 query_read query-Holds refl refl (omega arith)

-- The packets of `PacketSsl` under some key
abbrev over_ssl : Packet
over_ssl = packet_ssl tagging (replicate 16 1)

send-get_data_example :
    (bytes : List ℕ) × (received : Msg) × (send over_ssl
        (create default_node)
        (7 ∷ 8 ∷ [])
        ReqType.get_time_stamp
        ContType.get_time
        5
        query
      ≡ some (
        record (create default_node) { n_msgs = 2 },
        map
            (λ session. Effect.request session ReqType.get_time_stamp ContType.get_time bytes)
            (7 ∷ 8 ∷ []),
      ))
    × (get_data over_ssl bytes ≡ some received)
    × Holds received k [] 0
send-get_data_example =
    send-get_data over_ssl (create default_node) (7 ∷ 8 ∷ []) ReqType.get_time_stamp
      ContType.get_time 5 query k [] 0 (omega arith) query-Holds (omega arith)

abbrev key_iv : KeyIv
key_iv = record { key = replicate 16 1; iv = 5 ∷ replicate 15 0 }

packet_refines_example :
    (PacketSsl.encrypt tagging true key_iv
        (replicate 31 0)
        (1 ∷ 2 ∷ 3 ∷ [])
        (replicate 16 9)
        (replicate 16 8)
      ≡ some (
        record key_iv { iv = inc (replicate 16 8) (replicate 16 0) 1 },
        over_ssl.encrypt 5 (1 ∷ 2 ∷ 3 ∷ []),
      ))
    × ((packet : List ℕ)
        → PacketSsl.decrypt tagging
            (record key_iv { iv = inc (replicate 16 8) (replicate 16 0) 1 })
            packet
            (length packet)
          ≡ over_ssl.decrypt packet)
unfolding get_packet_iv words_eq le_value le_bytes get_buffer_size
packet_refines_example =
    packet_refines tagging true key_iv
      (record key_iv { iv = inc (replicate 16 8) (replicate 16 0) 1 }) (replicate 31 0)
      (1 ∷ 2 ∷ 3 ∷ []) (replicate 16 9) (replicate 16 8) key_iv.iv 5 refl refl (omega arith) refl
      refl refl

-- Two requests, the second one answered first
once_each : (i : ℕ) → count i (1 ∷ 0 ∷ []) ≡ (if ltb i 2 then 1 else 0)
once_each zero = refl
once_each (suc zero) = refl
once_each (suc (suc i)) = ground arith

buffers_freed_example :
    (s : Buffers) × (respond_all (create_buffers 2) (1 ∷ 0 ∷ []) ≡ some s)
    × ((b : ℕ) → count b (destroy s).freed ≡ (if ltb b 4 then 1 else 0))
buffers_freed_example = buffers_freed 2 (1 ∷ 0 ∷ []) once_each

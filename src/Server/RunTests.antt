-- ===== src/Server/RunTests.antt =====
-- A run of the main loop at concrete values, addresses of servers, and the theorems about both.
use avocado.Common.{◌+◌, ◌%◌, ◌^◌, ◌≡◌, refl, some, List, [], ◌∷◌, arith}
use avocado.Common.Bytes.{read, write, le_value, le_bytes}
use avocado.Memtable
use avocado.Memtable.AssocList.{list_table, tag_cipher}
use avocado.Msg.{get_key, to_bytes}
use avocado.Protocol.Context.{Context, send}
use avocado.Protocol.Continuations.{ack_put_time}
use avocado.Protocol.Operations.{send_to_shard}
use avocado.Protocol.Padding.{padding}
use avocado.Protocol.Routing.{get_idx}
use avocado.Protocol.Sample.{TestStore, k, kv, config}
use avocado.Protocol.{Effect}
use avocado.Server.Address.{
  get_uri_from_server_info, get_id_from_addr, get_n_threads_from_svr_info, get_session_id_from_id,
  server_info_lem,
}
use avocado.Server.Run.{get_msg, start, Run, Handled}
use avocado.Server.Run.Count.{running_lem}
use avocado.Trace.{Op, TraceCmd}

abbrev get_k : TraceCmd
get_k = record { op = Op.get; key_hash = k }

abbrev started :
    (c : Context) × (kv' : TestStore) × (effects : List Effect) × (start tag_cipher list_table
        padding config kv 0 5 2 1 get_k
      ≡ some (c, kv', 1, effects))
unfolding start get_msg get_key get_idx send_to_shard Memtable.create_node send to_bytes read write
    le_value le_bytes
started = (_, _, _, refl)

-- A get is started, answered and over.
abbrev over : Run tag_cipher list_table padding config 0 1 1
unfolding ack_put_time started
over =
    Run.handle
      (Run.handle Run.begin (Handled.starting kv started.1 5 2 1 get_k started.0 started.3 refl))
      (Handled.put_ending refl refl)

running_lem_example : (0 + 1) % 2 ^ 64 ≡ 1 % 2 ^ 64
running_lem_example = running_lem tag_cipher list_table padding config 0 1 1 over

-- 10.0.0.7:80:4 has four threads.
server_info_lem_example :
    (get_uri_from_server_info (b'1' ∷ b'0' ∷ b'.' ∷ b'7' ∷ b':' ∷ b'8' ∷ b'0' ∷ b':' ∷ b'4' ∷ [])
      ≡ b'1' ∷ b'0' ∷ b'.' ∷ b'7' ∷ b':' ∷ b'8' ∷ b'0' ∷ [])
    × (get_id_from_addr (b'1' ∷ b'0' ∷ b'.' ∷ b'7' ∷ b':' ∷ b'8' ∷ b'0' ∷ []) ≡ 7)
    × (get_n_threads_from_svr_info
          (b'1' ∷ b'0' ∷ b'.' ∷ b'7' ∷ b':' ∷ b'8' ∷ b'0' ∷ b':' ∷ b'4' ∷ [])
        ≡ 7)
server_info_lem_example =
    server_info_lem (b'1' ∷ b'0' ∷ []) (b'7' ∷ []) (omega arith) (omega arith) (b'8' ∷ b'0' ∷ [])
      (b'4' ∷ []) (omega arith)

session : get_session_id_from_id 7 ≡ 117440512
unfolding get_session_id_from_id
session = refl

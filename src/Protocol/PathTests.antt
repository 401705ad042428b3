-- ===== src/Protocol/PathTests.antt =====
-- Coordinators at concrete messages, and the theorems about them at concrete inputs.
use avocado.Common.{
  ℕ, ◌+◌, ◌≡◌, refl, true, false, some, List, [], ◌∷◌, ◌++◌, map, get_elem?, replicate, arith, inl,
  inr,
}
use avocado.Common.Bytes.{le_bytes, memcmp, read, write}
use avocado.KeyAccess.{bytes_lamport, lamport_bytes, get_lamport, add_meta_size}
use avocado.Lamport
use avocado.Lamport.{Lamport}
use avocado.Memtable
use avocado.Memtable.AssocList
use avocado.Memtable.AssocList.{list_table, tag_cipher}
use avocado.Memtable.{Store}
use avocado.Msg.{Msg, of_bytes, to_bytes}
use avocado.Protocol.Context.{reduce_resp, Context, req_conts}
use avocado.Protocol.Padding.{padding}
use avocado.Protocol.Sample.{k, at, kv, config, putting, shards, replies}
use avocado.Protocol.Delivery.{Shard}
use avocado.Protocol.Answer.{later_response_span}
use avocado.Protocol.Continuations.{
  count_clock, Latest, has_consensus, later_response, latest_value, ret_value,
}
use avocado.Protocol.ReadPath.{no_consensus}
use avocado.Protocol.Operations.{decrement}
use avocado.Protocol.Requests.{get_data}
use avocado.Msg.Build.{Holds}
use avocado.Protocol.{Effect, ReqType, ContType}
use avocado.Protocol.WriteBack.{ret_value_lem}
use avocado.Protocol.WritePath.{SendsPut, get_time_lem}

get_time_lem_example :
    SendsPut tag_cipher list_table padding config (false ∷ []) kv 1 6 putting (2 ∷ []) (at 9 ∷ [])
unfolding AssocList.find memcmp Memtable.get_node Memtable.decrypt_node
get_time_lem_example =
    get_time_lem tag_cipher list_table padding config (omega arith) shards kv putting (2 ∷ [])
      ((5, at 9) ∷ []) (false ∷ []) 1 6 refl (omega arith) refl (omega arith) replies (omega arith)
      refl (omega arith) refl refl (omega arith) (omega arith)

-- A get of the key, with an older reply on its way
abbrev reply : List ℕ
reply =
    padding.encrypt 5
      (to_bytes (record { key_size = 10; size = 11; buf = k ++ lamport_bytes (at 2) ++ (4 ∷ []) }))

abbrev getting : Context
getting = record {
  n_resp = 0;
  n_msgs = 2;
  is_done = false;
  cache = [];
  max_resp_size = 0;
  node = record { key_size = 2; key = k; meta = 2 };
}

abbrev answered : Context
answered = record getting { n_resp = 1; is_done = true; cache = reply ∷ []; max_resp_size = 27 }

abbrev found : Latest
found = record {
  counts = (at 2, 1) ∷ [];
  tmp = replicate 100 0;
  clock = at 3;
  span = some (1 ∷ []);
  span_size = 1;
}

finds : latest_value tag_cipher list_table padding config kv answered ≡ some found
unfolding latest_value AssocList.find memcmp Memtable.get_node reduce_resp later_response to_bytes
    lamport_bytes of_bytes get_lamport write read Lamport.gt bytes_lamport count_clock
finds = refl

no_consensus_example : has_consensus (req_conts getting reply).0.n_msgs found.counts ≡ false
unfolding req_conts to_bytes le_bytes lamport_bytes
no_consensus_example =
    no_consensus padding tag_cipher list_table config kv getting reply found
      (record { counted = refl; waiting = inr (inl refl) }) (omega arith) refl finds

abbrev later_reply : Msg
later_reply = record {
  key_size = 10;
  size = 27;
  buf = k ++ lamport_bytes (at 9) ++ (replicate 17 6 ++ []);
}

later_response_span_example :
    (l' : Latest) × (later_response (add_meta_size 2) found later_reply ≡ some l')
    × (l'.clock ≡ at 9)
    × (l'.span ≡ some (k ++ lamport_bytes (at 9)))
    × (l'.span_size ≡ 2 + 8)
unfolding lamport_bytes Lamport.gt
later_response_span_example =
    later_response_span found k (replicate 17 6) (at 9) later_reply 0
      (record {
        rest = [];
        room_left = refl;
        key_size = refl;
        size = refl;
        layout = refl;
        small = omega arith;
      })
      (omega arith) refl (omega arith) (omega arith)

ret_value_lem_example :
    (idx : ℕ) × (sessions : List ℕ) × (bytes : List ℕ) × (received : Msg) × (get_elem?
        config.replicas idx
      ≡ some sessions)
    × Shard config.replicas k idx
    × (ret_value tag_cipher list_table padding config kv 1 6 answered
        ≡ some (
          decrement 1,
          map
                (λ session.
                  Effect.request session ReqType.put_replica ContType.ret_get_put_update bytes)
                sessions
              ++ (Effect.get_ret (some (1 ∷ [])) 1 ∷ []),
        ))
    × (get_data padding bytes ≡ some received)
    × Holds received (k ++ lamport_bytes (at 3)) (1 ∷ []) 0
unfolding has_consensus
ret_value_lem_example =
    ret_value_lem tag_cipher list_table padding config kv 1 6 answered found (1 ∷ []) (omega arith)
      shards finds refl refl refl (omega arith) refl (omega arith) (omega arith)

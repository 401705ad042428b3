-- ===== src/Protocol/ClusterTests.antt =====
-- A cluster of three nodes at a concrete run, and the theorems on puts and gets at it.
use avocado.Common.{
  ℕ, zero, suc, ◌<◌, ◌≡◌, refl, true, false, some, List, [], ◌∷◌, ◌++◌, get_elem?, arith, map,
  replicate, ◌≤◌, inl, inr,
}
use avocado.KeyAccess.{lamport_bytes, get_lamport, bytes_lamport}
use avocado.Lamport
use avocado.Memtable
use avocado.Memtable.AssocList
use avocado.Memtable.AssocList.{list_table, tag_cipher}
use avocado.Memtable.{Store, update}
use avocado.Msg.Build.{Holds}
use avocado.Msg.{Msg, to_bytes, of_bytes, get_key, get_value, builder, add_key}
use avocado.Protocol.Cluster.{Cluster, Puts, Step, Reach}
use avocado.Protocol.Cluster.Order.{Stored, Knows, puts_ordered}
use avocado.Protocol.Cluster.Reads.{gets_ordered}
use avocado.Protocol.Continuations.{Latest, latest_value}
use avocado.Protocol.Versions.{Version, version_packet}
use avocado.Protocol.Padding.{padding}
use avocado.Protocol.Requests.{get_data, handle_put_replica}
use avocado.Protocol.Sample.{TestStore, k, at, kv, kv-IsValid, config, putting, shards, replies}
use avocado.Protocol.{Effect}
use avocado.Protocol.Context.{Context, too_few}
use avocado.Common.Bytes.{memcmp, le_value, read, write}
use avocado.Protocol.WritePath.{SendsPut}

abbrev msg : Msg
msg = record { key_size = 10; size = 11; buf = k ++ lamport_bytes (at 9) ++ (8 ∷ []) }

abbrev packet : List ℕ
packet = padding.encrypt 5 (to_bytes msg)

msg-Holds : Holds msg (k ++ lamport_bytes (at 9)) (8 ∷ []) 0
unfolding lamport_bytes
msg-Holds = record {
  rest = [];
  room_left = refl;
  key_size = refl;
  size = refl;
  layout = refl;
  small = omega arith;
}

-- A node's store when it has taken the packet in
abbrev written : TestStore
written = record {
  table = record { key_size = 2; key = k; meta = 3 } ∷ [];
  heap =
      update kv.heap 3 (record { mac = 7 ∷ []; data_size = 1; clock = at 9; data_bytes = 8 ∷ [] });
  next = 4;
  slot = 4;
}

reads : get_data padding packet ≡ some msg
unfolding get_data of_bytes to_bytes lamport_bytes le_value
reads = refl

runs :
    (effects : List Effect) × (handle_put_replica tag_cipher list_table padding
        (false ∷ [])
        kv
        5
        packet
      ≡ some (written, effects))
unfolding handle_put_replica to_bytes lamport_bytes get_key read le_value get_lamport get_value
    Memtable.put AssocList.add_or_get memcmp Lamport.lt bytes_lamport builder add_key write
    AssocList.set_meta
runs = (_, refl)

abbrev Nodes : Type 0
Nodes = Cluster tag_cipher list_table padding (λ i. config)

abbrev before : Nodes
before i = kv

-- Node 1 takes the packet in, and then node 0.
abbrev half_way : Nodes
half_way = update before 1 written

abbrev after : Nodes
after = update half_way 0 written

puts :
    (s : Nodes) (i : ℕ)
    → s i ≡ kv
    → Puts tag_cipher list_table padding (λ i. config) s (update s i written) i k (at 9)
puts s i e =
    Puts.replica (false ∷ []) 5 packet msg (8 ∷ []) 0 written runs.0 reads msg-Holds (omega arith)
      refl (rw e (omega arith)) (rw e runs.1) refl

one : Puts tag_cipher list_table padding (λ i. config) before half_way 1 k (at 9)
one = puts before 1 refl

two : Puts tag_cipher list_table padding (λ i. config) half_way after 0 k (at 9)
two = puts half_way 0 refl

stored :
    (i : ℕ)
    → get_elem? (true ∷ true ∷ false ∷ []) i ≡ some true
    → Stored tag_cipher list_table padding (λ i. config) before after i k (at 9)
stored zero h = (half_way, after, Reach.next Reach.here (Step.puts 1 k (at 9) one), two, Reach.here)
stored (suc zero) h =
    (before, half_way, Reach.here, one, Reach.next Reach.here (Step.puts 0 k (at 9) two))
stored (suc (suc i)) h = ground (arith, h)

knows :
    (i : ℕ)
    → get_elem? (false ∷ true ∷ true ∷ []) i ≡ some true
    → Knows tag_cipher list_table padding (λ i. config) after i kv putting.node (at 9 ∷ [])
unfolding Memtable.get AssocList.find memcmp Memtable.get_node Memtable.decrypt_node
knows zero h = cc
knows (suc zero) h = (after, Reach.here, inl (0, at 9, refl, refl))
knows (suc (suc zero)) h = (after, Reach.here, inr refl)
knows (suc (suc (suc i))) h = cc

puts_ordered_example :
    (sent : SendsPut tag_cipher list_table padding config
      (false ∷ [])
      kv
      1
      6
      putting
      (2 ∷ [])
      (at 9 ∷ []))
    × (Lamport.to_int (at 9) < Lamport.to_int sent.5)
unfolding too_few AssocList.find memcmp Memtable.get_node Memtable.decrypt_node
puts_ordered_example =
    puts_ordered tag_cipher list_table padding (λ i. config) 2 (true ∷ true ∷ false ∷ [])
      (false ∷ true ∷ true ∷ []) before after (at 9) config (false ∷ []) kv 1 6 putting (2 ∷ [])
      ((5, at 9) ∷ []) refl refl refl (omega arith) (omega arith) refl refl (λ i. kv-IsValid) stored
      knows (omega arith) shards refl (omega arith) refl (omega arith) replies (omega arith) refl
      (omega arith) refl refl (omega arith) (omega arith)

-- What node 1 answers to a get of node 0
abbrev version : Version
version = record { iv = 5; clock = at 9; value = replicate 16 4 }

abbrev getting : Context
getting = record putting {
  max_resp_size = 42;
  cache = map (version_packet padding k) (version ∷ []);
}

gets_ordered_example :
    (latest : Latest) × (latest_value tag_cipher list_table padding config kv getting ≡ some latest)
    × (Lamport.to_int (at 9) ≤ Lamport.to_int latest.clock)
unfolding too_few
gets_ordered_example =
    gets_ordered tag_cipher list_table padding (λ i. config) 2 (true ∷ true ∷ false ∷ [])
      (false ∷ true ∷ true ∷ []) before after (at 9) config kv getting (version ∷ []) refl refl refl
      (omega arith) (omega arith) refl refl (λ i. kv-IsValid) stored knows refl refl (omega arith)
      (omega arith)

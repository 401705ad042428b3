-- ===== src/Protocol/Cluster.antt =====
-- A cluster of nodes, each with its store, as a step relation over the handlers of
-- src/include/protocol/abd/protocol.h that change a store: PutReplica, the end of GetTime, and the
-- creation of the node that a put or a get starts with. Packets are not lost from the model by being
-- lost on the wire: a handler runs on whatever well-formed request there is, in any order and any number
-- of times.
pub mod Growth
pub mod Order
pub mod Reads
use avocado.Common.{ℕ, ◌≤◌, ◌<◌, ◌≡◌, Bool, true, some, List, ◌++◌, length, get_elem?}
use avocado.KeyAccess.{lamport_bytes}
use avocado.Lamport
use avocado.Lamport.{Lamport}
use avocado.Memtable
use avocado.Memtable.Interface.{Cipher, SkipList, Node}
use avocado.Memtable.Pending.{Waits}
use avocado.Memtable.Put.{IsValid, some_strong}
use avocado.Memtable.{Store, update}
use avocado.Msg.Build.{Holds}
use avocado.Msg.{Msg}
use avocado.Protocol.Context.{Context}
use avocado.Protocol.Continuations.{get_time}
use avocado.Protocol.Requests.{get_data, handle_put_replica}
use avocado.Protocol.{Packet, Config, Effect}

module _ (cipher : Cipher) (skip_list : SkipList) (packet : Packet) (config : ℕ → Config) where
  -- The store of each node
  abbrev pub Cluster : Type 0
  Cluster = ℕ → Store cipher skip_list

  -- Node `i` takes in a value for `key` with `clock`: from a packet, or at the end of its own GetTime.
  pub data Puts (s t : Cluster) (i : ℕ) (key : List ℕ) (clock : Lamport) : Type 0 where
    replica :
        (rounds : List Bool) (iv : ℕ) (req : List ℕ) (msg : Msg) (value : List ℕ) (room : ℕ)
        (kv : Store cipher skip_list) (effects : List Effect)
        → get_data packet req ≡ some msg
        → Holds msg (key ++ lamport_bytes clock) value room
        → Lamport.IsValid clock
        → some_strong rounds ≡ true
        → length value ≤ (s i).slot
        → handle_put_replica cipher skip_list packet rounds (s i) iv req ≡ some (kv, effects)
        → t ≡ update s i kv
        → Puts s t i key clock
    own :
        (rounds : List Bool) (traces iv : ℕ) (c : Context) (put_context : Context)
        (kv : Store cipher skip_list) (traces' : ℕ) (effects : List Effect)
        → c.node.key ≡ key
        → Waits cipher skip_list (s i) c.node
        → some_strong rounds ≡ true
        → get_time cipher skip_list packet (config i) rounds (s i) traces iv c
          ≡ some (put_context, kv, traces', effects)
        → (kv.heap c.node.meta).clock ≡ clock
        → t ≡ update s i kv
        → Puts s t i key clock

  pub data Step (s t : Cluster) : Type 0 where
    puts : (i : ℕ) (key : List ℕ) (clock : Lamport) → Puts s t i key clock → Step s t
    creates :
        (i : ℕ) (key value : List ℕ) (clock : Lamport) (n : Node) (kv : Store cipher skip_list)
        → Memtable.create_node cipher skip_list (s i) key value clock ≡ some (n, kv)
        → t ≡ update s i kv
        → Step s t

  pub data Reach (s : Cluster) : Cluster → Type 0 where
    here : Reach s s
    next : {t u : Cluster} → Reach s t → Step t u → Reach s u

  abbrev pub AllValid : Cluster → Type 0
  AllValid s = (i : ℕ) → IsValid cipher skip_list (s i)

-- ===== src/Protocol.antt =====
-- The replication protocol: src/include/protocol/abd/protocol.h, over the messages and the counters
-- of src/include/protocol/abd/replica_context.h. This file has the node's configuration and state,
-- and the effects of its handlers on the network and on its client.
pub mod Context
pub mod Routing
pub mod Requests
pub mod Operations
pub mod Continuations
pub mod Quorum
pub mod Clocks
pub mod Delivery
pub mod Encrypted
pub mod Answer
pub mod Versions
pub mod Replica
pub mod Sending
pub mod Startup
pub mod WritePath
pub mod ReadPath
pub mod WriteBack
pub mod Cluster
pub mod Buffers
mod Tests
mod StartupTests
mod RunTests
mod PathTests
pub mod Padding
pub mod Sample
mod ClusterTests
use avocado.Common.{ℕ, ◌+◌, ◌^◌, ◌<◌, ◌≡◌, Bool, true, Option, some, List, length}

-- `ABD::ReqType` and `ABD::ContType`, less the end markers
pub data ReqType : Type 0 where
  put get get_time_stamp put_replica get_value_time_stamp cmd : ReqType

pub data ContType : Type 0 where
  get_time ack_put_time ack_put ret_value ret_get_put_update cmd_ret : ContType

-- `PacketSsl::MetaDataSize`: the IV's and the tag's bytes
abbrev pub meta_data_size : ℕ
meta_data_size = 28

-- `PacketSsl`: `encrypt iv plain` is a packet; `decrypt` yields the plain bytes and whether the tag
-- is right, which the protocol ignores, or `none` if the packet is too short to be read. OpenSSL takes
-- the size of the plain bytes as an `int`.
pub record Packet : Type 0 where
  pub encrypt : ℕ → List ℕ → List ℕ
  pub decrypt : List ℕ → Option (List ℕ × Bool)
  pub decrypt-encrypt :
      (iv : ℕ) (p : List ℕ) → length p < 2 ^ 31 → decrypt (encrypt iv p) ≡ some (p, true)
  pub length-encrypt : (iv : ℕ) (p : List ℕ) → length (encrypt iv p) ≡ length p + meta_data_size

-- What the constructor and `replica_ordering` set: sessions of the replicas of each shard.
pub record Config : Type 0 where
  pub m_id : ℕ
  pub max_package_size : ℕ
  pub replicas : List (List ℕ)

-- What a handler does besides changing the node's state, in order.
pub data Effect : Type 0 where
  request : (session : ℕ) (req : ReqType) (cont : ContType) (packet : List ℕ) → Effect
  respond : (packet : List ℕ) → Effect
  put_ret : List ℕ → Effect
  get_ret : Option (List ℕ) → ℕ → Effect
  skip_ret : Effect
  cmd_ret : (n_resp : ℕ) (msg : List ℕ) → Effect

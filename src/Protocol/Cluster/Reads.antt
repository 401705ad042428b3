-- ===== src/Protocol/Cluster/Reads.antt =====
-- A get in a cluster: what the fold of `RetValue` finds when a put of its key was over before.
use avocado.Common.{
  ℕ, ◌+◌, ◌-◌, ◌%◌, ◌^◌, ◌≤◌, ◌<◌, ◌≡◌, inl, inr, Bool, true, false, some, List, length, map,
  get_elem?, arith,
}
use avocado.Lamport
use avocado.Lamport.{Lamport}
use avocado.Memtable.Interface.{Cipher, SkipList}
use avocado.Memtable.{Store}
use avocado.Protocol.Cluster.{Cluster, AllValid}
use avocado.Protocol.Cluster.Order.{Stored, Knows, quorum-Knows}
use avocado.Protocol.Context.{Context, too_few}
use avocado.Protocol.Continuations.{Latest, latest_value}
use avocado.Protocol.Quorum.{answered}
use avocado.Protocol.Versions.{Version, version_packet, clocks_of, Fit, latest_version}
use avocado.Protocol.{Packet, Config}

module _ (cipher : Cipher) (skip_list : SkipList) (packet : Packet) (config : ℕ → Config) where
  -- A get finds a clock that is not earlier than that of any put of its key that was over before: if a quorum
  -- of nodes had taken a clock in, and a later quorum answers with its values, the fold of RetValue comes to
  -- an end at that clock or a later one. The versions have valid clocks and values of 16 bytes or more that
  -- fit messages of less than 2^31 bytes.
  pub gets_ordered :
      (n_msgs : ℕ) (w r : List Bool) (s t : Cluster cipher skip_list packet config) (old : Lamport)
      (me : Config) (kv : Store cipher skip_list) (c : Context) (vs : List Version)
      → n_msgs % 2 ≡ 0
      → length w ≡ n_msgs + 1
      → length r ≡ n_msgs + 1
      → 0 < answered w
      → 0 < answered r
      → too_few (answered w - 1) n_msgs ≡ false
      → too_few (answered r - 1) n_msgs ≡ false
      → AllValid cipher skip_list packet config s
      → ((i : ℕ)
          → get_elem? w i ≡ some true
          → Stored cipher skip_list packet config s t i c.node.key old)
      → ((i : ℕ)
          → get_elem? r i ≡ some true
          → Knows cipher skip_list packet config t i kv c.node (clocks_of vs))
      → c.node.key_size ≡ length c.node.key
      → c.cache ≡ map (version_packet packet c.node.key) vs
      → c.max_resp_size < 2 ^ 31
      → Fit c.node.key c.max_resp_size me.max_package_size vs
      → (latest : Latest) × (latest_value cipher skip_list packet me kv c ≡ some latest)
        × (Lamport.to_int old ≤ Lamport.to_int latest.clock)
  gets_ordered n_msgs w r s t old me kv c vs even lw lr pw pr hw hr v stored knows size cached small
        fit =
      let (latest, ends, local, all) =
        latest_version packet cipher skip_list me kv c vs size cached small fit in
      elim (quorum-Knows cipher skip_list packet config n_msgs w r s t old kv c.node (clocks_of vs)
        even lw lr pw pr hw hr v stored knows size) [
          | inl (p, l, at, old_le) ↦ (latest, ends, omega (arith, old_le, all p l at))
          | inr old_le ↦ (latest, ends, omega (arith, old_le, local))
        ]

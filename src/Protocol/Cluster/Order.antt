-- ===== src/Protocol/Cluster/Order.antt =====
-- A put in a cluster is ordered after every put of its key that ended before it began.
use avocado.Common.{
  ℕ, suc, ◌+◌, ◌-◌, ◌%◌, ◌^◌, map, ◌≤◌, ◌<◌, ◌≡◌, ◌⊎◌, inl, inr, refl, ap, Bool, true, false, some,
  List, [], ◌∷◌, length, get_elem?, arith,
}
use avocado.Lamport
use avocado.Lamport.{Lamport}
use avocado.Memtable
use avocado.Memtable.Interface.{Cipher, SkipList, Node}
use avocado.Memtable.Pending.{stamp, get_node-key}
use avocado.Memtable.{Store, update}
use avocado.Protocol.Cluster.{Cluster, Puts, Reach, AllValid}
use avocado.Protocol.Context.{Context, too_few}
use avocado.Protocol.Quorum.{answered, meet, quorums_meet}
use avocado.Protocol.WritePath.{SendsPut, get_time_lem}
use avocado.Protocol.Clocks.{clock_packet, clocks_of, latest_count}
use avocado.Memtable.Put.{some_strong}
use avocado.Msg.{header_size}
use avocado.Protocol.{Packet, Config}
use avocado.Protocol.Cluster.Growth.{Puts-Grows, Reach-Grows}

-- Two sets that meet have a common member.
meet_member :
    (s t : List Bool)
    → meet s t ≡ true
    → (i : ℕ) × (get_elem? s i ≡ some true) × (get_elem? t i ≡ some true)
meet_member [] t h = cc
meet_member (a ∷ s) [] h = cc
meet_member (true ∷ s) (true ∷ t) h = (0, refl, refl)
meet_member (true ∷ s) (false ∷ t) h = let (i, p, q) = meet_member s t h in (suc i, p, q)
meet_member (false ∷ s) (b ∷ t) h = let (i, p, q) = meet_member s t h in (suc i, p, q)

module _ (cipher : Cipher) (skip_list : SkipList) (packet : Packet) (config : ℕ → Config) where
  -- Node `i` took the value in at some point between two states.
  abbrev pub Stored : (s t : Cluster cipher skip_list packet config) → ℕ → List ℕ → Lamport → Type 0
  Stored s t i key clock =
      (u : Cluster cipher skip_list packet config) × (u' : Cluster cipher skip_list packet config)
      × Reach cipher skip_list packet config s u
      × Puts cipher skip_list packet config u u' i key clock
      × Reach cipher skip_list packet config u' t

  -- The coordinator of a later GetTime knows node `i`'s clock from some state after `t`: from one of the
  -- replies, or because it is its own store's.
  abbrev pub Knows :
      (t : Cluster cipher skip_list packet config)
      → ℕ
      → Store cipher skip_list
      → Node
      → List Lamport
      → Type 0
  Knows t i kv n clocks =
      (u : Cluster cipher skip_list packet config) × Reach cipher skip_list packet config t u
      × (((p : ℕ) × (l : Lamport) × (get_elem? clocks p ≡ some l)
            × (Lamport.to_int l ≡ stamp cipher skip_list (u i) n.key))
          ⊎ (kv ≡ u i))

  Stored-stamp :
      (s t : Cluster cipher skip_list packet config) (i : ℕ) (key : List ℕ) (clock : Lamport)
      → AllValid cipher skip_list packet config s
      → Stored s t i key clock
      → AllValid cipher skip_list packet config t
        × (Lamport.to_int clock ≤ stamp cipher skip_list (t i) key)
  Stored-stamp s t i key clock v (u, u', r, p, r') =
      let (valid, _) = Reach-Grows cipher skip_list packet config v r in
      let (valid', _, own) = Puts-Grows cipher skip_list packet config u u' i key clock valid p in
      let (valid'', more) = Reach-Grows cipher skip_list packet config valid' r' in
      (valid'', omega (arith, own, more i key))

  -- A quorum that knows the clocks after a quorum has stored one has a node that both are about.
  pub quorum-Knows :
      (n_msgs : ℕ) (w r : List Bool) (s t : Cluster cipher skip_list packet config) (old : Lamport)
      (kv : Store cipher skip_list) (n : Node) (clocks : List Lamport)
      → n_msgs % 2 ≡ 0
      → length w ≡ n_msgs + 1
      → length r ≡ n_msgs + 1
      → 0 < answered w
      → 0 < answered r
      → too_few (answered w - 1) n_msgs ≡ false
      → too_few (answered r - 1) n_msgs ≡ false
      → AllValid cipher skip_list packet config s
      → ((i : ℕ) → get_elem? w i ≡ some true → Stored s t i n.key old)
      → ((i : ℕ) → get_elem? r i ≡ some true → Knows t i kv n clocks)
      → n.key_size ≡ length n.key
      → ((p : ℕ) × (l : Lamport) × (get_elem? clocks p ≡ some l)
          × (Lamport.to_int old ≤ Lamport.to_int l))
        ⊎ (Lamport.to_int old ≤ Lamport.to_int (Memtable.get_node cipher skip_list kv n).lamport)
  quorum-Knows n_msgs w r s t old kv n clocks even lw lr pw pr hw hr v stored knows size =
      let (i, in_w, in_r) = meet_member w r (quorums_meet n_msgs w r even lw lr pw pr hw hr) in
      let (valid, old_le) = Stored-stamp s t i n.key old v (stored i in_w) in
      let (u, reach, source) = knows i in_r in
      let (_, more) = Reach-Grows cipher skip_list packet config valid reach in
      elim source [
        | inl (p, l, at, same) ↦ inl (p, l, at, omega (arith, old_le, more i n.key, same))
        | inr mine ↦ inr (
            omega (
              arith,
              old_le,
              more i n.key,
              ap (λ (m : Store cipher skip_list). stamp cipher skip_list m n.key) mine,
              ap (λ (m : Memtable.RetValue). Lamport.to_int m.lamport)
                  (get_node-key cipher skip_list kv n size),
            ))
      ]

  -- A put is ordered after every put of its key that was over before it began. A quorum of nodes had taken
  -- a clock in for the key; a later quorum's replies, or the own store, are what GetTime reads. Then GetTime
  -- runs and sends a message whose clock is later than the one taken in. The replies' and the store's clocks
  -- are valid and their counts not used up; the own node holds the value that is put; no shard is empty,
  -- some compare-exchange is not spurious, and the message has less than 2^31 bytes.
  pub puts_ordered :
      (n_msgs : ℕ) (w r : List Bool) (s t : Cluster cipher skip_list packet config) (old : Lamport)
      (me : Config) (rounds : List Bool) (kv : Store cipher skip_list) (traces iv : ℕ) (c : Context)
      (value : List ℕ) (replies : List (ℕ × Lamport))
      → n_msgs % 2 ≡ 0
      → length w ≡ n_msgs + 1
      → length r ≡ n_msgs + 1
      → 0 < answered w
      → 0 < answered r
      → too_few (answered w - 1) n_msgs ≡ false
      → too_few (answered r - 1) n_msgs ≡ false
      → AllValid cipher skip_list packet config s
      → ((i : ℕ) → get_elem? w i ≡ some true → Stored s t i c.node.key old)
      → ((i : ℕ) → get_elem? r i ≡ some true → Knows t i kv c.node (clocks_of packet replies))
      → 0 < length me.replicas
      → ((i : ℕ) (reps : List ℕ) → get_elem? me.replicas i ≡ some reps → 0 < length reps)
      → some_strong rounds ≡ true
      → me.m_id < 2 ^ 32
      → c.cache ≡ map (clock_packet packet) replies
      → 24 ≤ c.max_resp_size
      → ((i : ℕ) (l : Lamport)
          → get_elem? (clocks_of packet replies) i ≡ some l
          → Lamport.IsValid l)
      → Lamport.IsValid (Memtable.get_node cipher skip_list kv c.node).lamport
      → c.node.key_size ≡ length c.node.key
      → 0 < length c.node.key
      → Memtable.decrypt_node cipher skip_list kv c.node
        ≡ record { lamport = (kv.heap c.node.meta).clock; size = length value; value = some value }
      → (kv.heap c.node.meta).data_size ≡ length value
      → length c.node.key + 8 + length value + header_size < 2 ^ 31
      → latest_count
            (Memtable.get_node cipher skip_list kv c.node).lamport.count
            (clocks_of packet replies)
          + 1
        < 2 ^ 32
      → (sent : SendsPut cipher skip_list packet me rounds kv traces iv c value
          (clocks_of packet replies))
        × (Lamport.to_int old < Lamport.to_int sent.5)
  puts_ordered n_msgs w r s t old me rounds kv traces iv c value replies even lw lr pw pr hw hr v
        stored knows some_shard full strong m_id cached room valid local_valid size key plain
        data_size small counts =
      let sent =
        get_time_lem cipher skip_list packet me some_shard full kv c value replies rounds traces iv
          strong m_id cached room valid local_valid size key plain data_size small counts in
      (
        sent,
        elim (quorum-Knows n_msgs w r s t old kv c.node (clocks_of packet replies) even lw lr pw pr
            hw hr v stored knows size) [
              | inl (p, l, at, old_le) ↦ omega (arith, old_le, sent.12 p l at)
              | inr old_le ↦ omega (arith, old_le, sent.11)
            ],
      )

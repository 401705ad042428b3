-- ===== src/Protocol/Replica.antt =====
-- A replica's answers: what PutReplica stores, and what the two requests for time stamps say of it.
use avocado.Common.{
  ℕ, ◌+◌, ◌^◌, ◌≤◌, ◌<◌, ◌≡◌, refl, sym, subst, Bool, true, some, List, [], ◌∷◌, ◌++◌, length,
  length-append, take, take-length, false, ◌&&◌, ◌≢◌, ◌⊎◌, inl, inr, Bool-cases, if◌then◌else◌,
  arith, ◌>>=◌,
}
use avocado.Common.Bytes.{read, read-append}
use avocado.KeyAccess.{
  lamport_bytes, get_lamport, add_meta_size, sub_meta_size, length-lamport_bytes,
  get_lamport-append,
}
use avocado.Lamport
use avocado.Lamport.{Lamport}
use avocado.Memtable
use avocado.Memtable.Interface.{Cipher, SkipList, same}
use avocado.Memtable.KeyOrder.{same_iff}
use avocado.Memtable.Put.{IsValid, some_strong, node_of, same_key, accepts, put-Outcome}
use avocado.Memtable.Clocks.{put-clocks}
use avocado.Memtable.{Store, RetValue, null}
use avocado.Msg.Build.{
  Holds, build_lem, builder-Holds, add_key-Holds, get_key-Holds, get_value-Holds,
}
use avocado.Msg.{Msg, get_key, get_value, builder, add_key}
use avocado.Protocol.Requests.{time_stamp_msg, value_msg, put_replica}

module _ (cipher : Cipher) (skip_list : SkipList) where
  put_replica_run :
      (kv : Store cipher skip_list) {key own_key value : List ℕ} {clock : Lamport}
      (rounds : List Bool) (req : Msg) (accepted : Bool) (kv' : Store cipher skip_list)
      (reply : Msg)
      → get_key req ≡ some key
      → get_lamport req.key_size (some key) ≡ some clock
      → get_value req ≡ some value
      → read 0 (sub_meta_size req.key_size) key ≡ some own_key
      → Memtable.put cipher skip_list rounds kv own_key value clock ≡ some (accepted, kv')
      → builder 4 >>= add_key (b'A' ∷ []) ≡ some reply
      → put_replica cipher skip_list rounds kv req ≡ some (kv', reply)
  unfolding put_replica
  put_replica_run kv rounds req accepted kv' reply e₁ e₂ e₃ e₄ e₅ e₆ =
      rw (e₁, ◌>>=◌, e₂, e₃, e₄, e₅, e₆) refl

  unchanged_read :
      (accepted : Bool) (key j : List ℕ) (meta : ℕ) (written : RetValue) {now before : RetValue}
      → now ≡ (if accepted && same (node_of key meta) (node_of j null) then written else before)
      → (accepted ≡ false) ⊎ (key ≢ j)
      → now ≡ before
  unchanged_read accepted key j meta written reads (inl refused) = ground (arith, reads, refused)
  unchanged_read accepted key j meta written reads (inr other) =
      elim (Bool-cases (same (node_of key meta) (node_of j null))) [
        | inl alike ↦
            absurd (other ((same_iff (node_of key meta) (node_of j null) refl refl).0 alike))
        | inr differ ↦ ground (arith, reads, differ)
      ]

  module _ (kv : Store cipher skip_list) (v : IsValid cipher skip_list kv) (own_key value : List ℕ)
      (clock : Lamport) (clock_valid : Lamport.IsValid clock) where
    -- On a request whose key ends in a clock, PutReplica answers with the first byte of "ACK". If the key
    -- before the clock is new, or the clock later than the key's, that key reads with the request's value
    -- and clock afterwards; otherwise it reads as before, and so does every other key. So no clock goes
    -- back, and the key's is not before the request's. The store is valid, the value fits a slot, and some
    -- compare-exchange is not spurious.
    pub put_replica_lem :
        (rounds : List Bool) (req : Msg) (room : ℕ)
        → Holds req (own_key ++ lamport_bytes clock) value room
        → some_strong rounds ≡ true
        → length value ≤ kv.slot
        → (kv' : Store cipher skip_list) × (reply : Msg) × (put_replica cipher skip_list rounds kv
              req
            ≡ some (kv', reply))
          × (get_key reply ≡ some (b'A' ∷ []))
          × IsValid cipher skip_list kv'
          × (Lamport.to_int clock
              ≤ Lamport.to_int (Memtable.get cipher skip_list kv' own_key).lamport)
          × ((j : List ℕ)
              → Lamport.to_int (Memtable.get cipher skip_list kv j).lamport
                ≤ Lamport.to_int (Memtable.get cipher skip_list kv' j).lamport)
          × (accepts cipher skip_list kv own_key clock ≡ true
              → Memtable.get cipher skip_list kv' own_key
                ≡ record { lamport = clock; size = length value; value = some value })
          × ((j : List ℕ)
              → (accepts cipher skip_list kv own_key clock ≡ false) ⊎ (own_key ≢ j)
              → Memtable.get cipher skip_list kv' j ≡ Memtable.get cipher skip_list kv j)
    put_replica_lem rounds req room h strong fits =
        let (kv', run, valid, reads) =
          put-Outcome cipher skip_list kv v own_key value clock rounds strong fits in
        let (m₀, e₀, h₀) = builder-Holds 4 (omega arith) in
        let (m₁, e₁, h₁) = add_key-Holds (b'A' ∷ []) h₀ (omega arith) in
        (
          kv',
          m₁,
          put_replica_run kv rounds req _ kv' m₁ (get_key-Holds h) clock_read (get_value-Holds h).0
              key_read run (rw (e₀, ◌>>=◌) e₁),
          get_key-Holds h₁,
          valid,
          (put-clocks cipher skip_list kv v own_key value clock rounds strong fits kv' _ run).0,
          (put-clocks cipher skip_list kv v own_key value clock rounds strong fits kv' _ run).1,
          λ accepted. ground (arith, reads own_key, accepted, same_key own_key kv.next null),
          λ j unchanged. unchanged_read _ own_key j kv.next _ (reads j) unchanged,
        )
      where
        key_size : req.key_size ≡ add_meta_size (length own_key)
        key_size =
            omega
              (arith, h, length-append own_key (lamport_bytes clock), length-lamport_bytes clock)

        small : length own_key < 2 ^ 63
        small =
            omega
              (arith, h, length-append own_key (lamport_bytes clock), length-lamport_bytes clock)

        clock_read : get_lamport req.key_size (some (own_key ++ lamport_bytes clock)) ≡ some clock
        clock_read = rw key_size (get_lamport-append own_key clock clock_valid small).0

        key_read :
            read 0 (sub_meta_size req.key_size) (own_key ++ lamport_bytes clock) ≡ some own_key
        key_read = rw key_size (
            read-append [] own_key (lamport_bytes clock) refl
              (sym (get_lamport-append own_key clock clock_valid small).1))

  -- A request for the time stamp of a key is answered by the stored clock's bytes, which read back as
  -- that clock.
  pub time_stamp_msg_lem :
      (kv : Store cipher skip_list) (key value : List ℕ) (req : Msg) (room : ℕ)
      → Holds req key value room
      → (reply : Msg) × (time_stamp_msg cipher skip_list kv req ≡ some reply)
        × (get_key reply ≡ some (lamport_bytes (Memtable.get cipher skip_list kv key).lamport))
        × (reply.size ≡ 8)
  unfolding time_stamp_msg
  time_stamp_msg_lem kv key value req room h =
      let clock_bytes = lamport_bytes (Memtable.get cipher skip_list kv key).lamport in
      let length_clock = length-lamport_bytes (Memtable.get cipher skip_list kv key).lamport in
      let (m₀, e₀, h₀) = builder-Holds 8 (omega arith) in
      let (m₁, e₁, h₁) = add_key-Holds clock_bytes h₀ (omega (arith, length_clock)) in
      (
        m₁,
        rw (get_key-Holds h, ◌>>=◌, e₀, e₁) refl,
        get_key-Holds h₁,
        omega (arith, h₁.size, length_clock),
      )

  -- A request for the value of a stored key is answered by a message whose key is the key with the
  -- stored clock behind it, and whose value is the stored value.
  value_msg_lem :
      (kv : Store cipher skip_list) (key value : List ℕ) (req : Msg) (room : ℕ) (stored : List ℕ)
      → Holds req key value room
      → (Memtable.get cipher skip_list kv key).value ≡ some stored
      → length stored ≡ (Memtable.get cipher skip_list kv key).size
      → Lamport.IsValid (Memtable.get cipher skip_list kv key).lamport
      → length key + 8 + length stored < 2 ^ 63
      → (reply : Msg) × (value_msg cipher skip_list kv req ≡ some reply)
        × (get_key reply
            ≡ some (key ++ lamport_bytes (Memtable.get cipher skip_list kv key).lamport))
        × (get_value reply ≡ some stored)
        × (get_lamport reply.key_size (get_key reply)
            ≡ some (Memtable.get cipher skip_list kv key).lamport)
  unfolding value_msg
  value_msg_lem kv key value req room stored h found sized valid small =
      let clock_bytes = lamport_bytes (Memtable.get cipher skip_list kv key).lamport in
      let length_clock = length-lamport_bytes (Memtable.get cipher skip_list kv key).lamport in
      let max_size = add_meta_size (length key) + (Memtable.get cipher skip_list kv key).size in
      let fits : length key + 8 + length stored ≡ max_size = omega (arith, sized) in
      let (m, e, key_read, value_read, key_size, size) =
        build_lem max_size key clock_bytes stored (omega (arith, fits, small))
          (omega (arith, fits, length_clock)) in
      let reply_key_size : m.key_size ≡ add_meta_size (length key) =
        omega (arith, key_size, length_clock, small) in
      let clock_read = get_lamport-append key _ valid (omega (arith, small)) in
      (
        m,
        rw
            (
              get_key-Holds h,
              ◌>>=◌,
              found,
              subst (λ n. take n stored ≡ stored) sized (take-length stored),
            )
            e,
        key_read,
        value_read,
        rw key_read (
            subst
              (λ n.
                get_lamport n (some (key ++ clock_bytes))
                ≡ some (Memtable.get cipher skip_list kv key).lamport)
              (sym reply_key_size) clock_read.0),
      )

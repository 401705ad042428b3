-- ===== src/Protocol/Cluster/Growth.antt =====
-- Clocks in a cluster never go back.
use avocado.Common.{
  ℕ, >>=-eq-some, ◌+◌, ◌%◌, ◌^◌, ◌≤◌, ◌≡◌, inl, inr, refl, ◌∙◌, sym, subst, Bool, some, List, take,
  arith, Bool-cases, ==_iff, ◌>>=◌, ◌==◌,
}
use avocado.KeyAccess.{lamport_bytes, add_meta_size}
use avocado.Lamport
use avocado.Lamport.{Lamport}
use avocado.Memtable
use avocado.Memtable.Interface.{Cipher, SkipList}
use avocado.Memtable.Pending.{stamp, put_waiting}
use avocado.Memtable.Creation.{create_node-Waits}
use avocado.Memtable.Put.{IsValid}
use avocado.Memtable.{Store, update}
use avocado.Msg.{Msg, builder, add_key, add_value}
use avocado.Protocol.Cluster.{Cluster, Puts, Step, Reach, AllValid}
use avocado.Protocol.Context.{Context, reduce_resp}
use avocado.Protocol.Continuations.{get_time, set_clock, later_count, span_bytes}
use avocado.Protocol.Operations.{send_to_shard}
use avocado.Protocol.Replica.{put_replica_lem}
use avocado.Protocol.Requests.{get_data, handle_put_replica, put_replica}
use avocado.Protocol.{Packet, Config, Effect}

module _ (cipher : Cipher) (skip_list : SkipList) (packet : Packet) where
  handle_run :
      (rounds : List Bool) (kv : Store cipher skip_list) (iv : ℕ) (req : List ℕ) (msg : Msg)
      (kv₁ kv₂ : Store cipher skip_list) (reply : Msg) (effects : List Effect)
      → get_data packet req ≡ some msg
      → put_replica cipher skip_list rounds kv msg ≡ some (kv₁, reply)
      → handle_put_replica cipher skip_list packet rounds kv iv req ≡ some (kv₂, effects)
      → kv₁ ≡ kv₂
  unfolding handle_put_replica
  handle_run rounds kv iv req msg kv₁ kv₂ reply effects e₁ e₂ run = ground (arith, run)

  get_time_store :
      (config : Config) (rounds : List Bool) (kv : Store cipher skip_list) (traces iv : ℕ)
      (c : Context) (put_context : Context) (kv' : Store cipher skip_list) (traces' : ℕ)
      (effects : List Effect)
      → get_time cipher skip_list packet config rounds kv traces iv c
        ≡ some (put_context, kv', traces', effects)
      → (clock : Lamport) × (stored : Bool) × (Memtable.put_node cipher skip_list rounds
            (set_clock cipher skip_list packet config kv c.node.meta clock)
            c.node
          ≡ some (stored, kv'))
  unfolding get_time
  get_time_store config rounds kv traces iv c put_context kv' traces' effects run =
      let (max, e₁, run₁) = >>=-eq-some (reduce_resp packet c later_count _) _ run in
      let (msg, e₂, run₂) =
        >>=-eq-some
          (builder (add_meta_size c.node.key_size + (kv.heap c.node.meta).data_size)
            >>= add_key c.node.key
            >>= add_key (lamport_bytes (record { count = (max + 1) % 2 ^ 32; m_id = config.m_id }))
            >>= add_value (
                take (Memtable.decrypt_node cipher skip_list kv c.node).size
                  (span_bytes (Memtable.decrypt_node cipher skip_list kv c.node).value)))
          _ run₁ in
      let (sent, e₃, run₃) = >>=-eq-some (send_to_shard packet config _ _ _ _ _ _ _) _ run₂ in
      let ((stored, kv''), e₄, run₄) =
        >>=-eq-some (Memtable.put_node cipher skip_list rounds _ _) _ run₃ in
      let e : kv'' ≡ kv' = cc in
      (record { count = (max + 1) % 2 ^ 32; m_id = config.m_id }, stored, cc)

  module _ (config : ℕ → Config) where
    -- No key's clock is earlier at any node.
    abbrev Grows :
        Cluster cipher skip_list packet config → Cluster cipher skip_list packet config → Type 0
    Grows s t =
        (i : ℕ) (j : List ℕ) → stamp cipher skip_list (s i) j ≤ stamp cipher skip_list (t i) j

    updated :
        (s t : Cluster cipher skip_list packet config) (i : ℕ) (kv : Store cipher skip_list)
        → AllValid cipher skip_list packet config s
        → IsValid cipher skip_list kv
        → ((j : List ℕ) → stamp cipher skip_list (s i) j ≤ stamp cipher skip_list kv j)
        → t ≡ update s i kv
        → AllValid cipher skip_list packet config t × Grows s t × (t i ≡ kv)
    updated s t i kv v valid grows e =
        subst
          (λ (r : Cluster cipher skip_list packet config).
            AllValid cipher skip_list packet config r × Grows s r × (r i ≡ kv))
          (sym e) (all, more, rw ((==_iff i i).1 refl) refl)
      where
        all : (n : ℕ) → IsValid cipher skip_list (update s i kv n)
        all n = elim (Bool-cases (i == n)) [ inl here ↦ rw here valid | inr other ↦ rw other (v n) ]

        more :
            (n : ℕ) (j : List ℕ)
            → stamp cipher skip_list (s n) j ≤ stamp cipher skip_list (update s i kv n) j
        more n j = elim (Bool-cases (i == n)) [
          | inl here ↦ rw here (
              subst (λ m. stamp cipher skip_list (s m) j ≤ stamp cipher skip_list kv j)
                ((==_iff i n).0 here) (grows j))
          | inr other ↦ rw other (omega arith)
        ]

    -- A put of any kind leaves the stores valid and no clock earlier, and its key has its clock or a later
    -- one at the node.
    pub Puts-Grows :
        (s t : Cluster cipher skip_list packet config) (i : ℕ) (key : List ℕ) (clock : Lamport)
        → AllValid cipher skip_list packet config s
        → Puts cipher skip_list packet config s t i key clock
        → AllValid cipher skip_list packet config t
          × Grows s t
          × (Lamport.to_int clock ≤ stamp cipher skip_list (t i) key)
    unfolding set_clock
    Puts-Grows s t i key clock v
          (Puts.replica rounds iv req msg value room kv effects read holds valid strong fits run
            e) =
        let (kv', reply, run', _, valid', own, grows, _, _) =
          put_replica_lem cipher skip_list (s i) (v i) key value clock valid rounds msg room holds
            strong fits in
        let same_store : kv' ≡ kv =
          handle_run rounds (s i) iv req msg kv' kv reply effects read run' run in
        let (all, more, at) =
          updated s t i kv v (subst (IsValid cipher skip_list) same_store valid')
            (λ j.
              subst
                (λ (r : Store cipher skip_list).
                  stamp cipher skip_list (s i) j ≤ stamp cipher skip_list r j)
                same_store (grows j))
            e in
        (
          all,
          more,
          subst
              (λ (r : Store cipher skip_list). Lamport.to_int clock ≤ stamp cipher skip_list r key)
              (same_store ∙ sym at) own,
        )
    Puts-Grows s t i key clock v
          (Puts.own rounds traces iv c put_context kv traces' effects names waits strong run stored
            e) =
        let (clock', ok, runs) =
          get_time_store (config i) rounds (s i) traces iv c put_context kv traces' effects run in
        let (valid, at_node, own, grows) =
          put_waiting cipher skip_list (s i) (v i) c.node waits clock' rounds ok kv strong runs in
        let (all, more, at) = updated s t i kv v valid grows e in
        (
          all,
          more,
          subst (λ (l : Lamport). Lamport.to_int l ≤ stamp cipher skip_list (t i) key)
              (sym at_node ∙ stored)
              (subst (λ k. Lamport.to_int clock' ≤ stamp cipher skip_list (t i) k) names
                (subst
                  (λ (r : Store cipher skip_list).
                    Lamport.to_int clock' ≤ stamp cipher skip_list r c.node.key)
                  (sym at) own)),
        )

    Step-Grows :
        (s t : Cluster cipher skip_list packet config)
        → AllValid cipher skip_list packet config s
        → Step cipher skip_list packet config s t
        → AllValid cipher skip_list packet config t × Grows s t
    Step-Grows s t v (Step.puts i key clock p) =
        let (all, more, _) = Puts-Grows s t i key clock v p in (all, more)
    Step-Grows s t v (Step.creates i key value clock n kv run e) =
        let (valid, _, _, grows) =
          create_node-Waits cipher skip_list (s i) key value clock n kv (v i) run in
        let (all, more, _) = updated s t i kv v valid grows e in (all, more)

    pub Reach-Grows :
        {s t : Cluster cipher skip_list packet config}
        → AllValid cipher skip_list packet config s
        → Reach cipher skip_list packet config s t
        → AllValid cipher skip_list packet config t × Grows s t
    Reach-Grows v Reach.here = (v, λ i j. omega arith)
    Reach-Grows v (Reach.next {t} {u} r st) =
        let (valid, more) = Reach-Grows v r in
        let (valid', more') = Step-Grows t u valid st in
        (valid', λ i j. omega (arith, more i j, more' i j))

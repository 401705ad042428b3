-- ===== src/Server/Run/Count.antt =====
-- The count of running operations of src/server.cpp over a run of handlers.
use avocado.Common.{
  ℕ, ◌+◌, ◌%◌, ◌^◌, ◌≡◌, refl, ap, sym, ◌∙◌, subst, Bool, true, false, Option, some, List, [], ◌∷◌,
  ◌++◌, length, not, ◌&&◌, ltb, if◌then◌else◌, arith, ◌>>=◌, >>=-eq-some, Bool-cases, inl, inr,
  take,
}
use avocado.Common.Bytes.{write}
use avocado.KeyAccess.{lamport_bytes, add_meta_size}
use avocado.Lamport
use avocado.Lamport.{Lamport}
use avocado.Memtable
use avocado.Memtable.Interface.{Cipher, SkipList}
use avocado.Memtable.{Store}
use avocado.Msg.{Msg, get_key, get_value, builder, add_key, add_value}
use avocado.Protocol.Context.{Context, default_node, create, reduce_resp}
use avocado.Protocol.Continuations.{
  later_count, span_bytes, get_time, ack_put_time, Latest, latest_value, has_consensus, ret_value,
  ret_get_put_update,
}
use avocado.Protocol.Operations.{increment, decrement, send_to_shard, benchmark_put, benchmark_get}
use avocado.Protocol.Requests.{ack}
use avocado.Protocol.{Packet, Config, Effect, ReqType, ContType}
use avocado.Server.Run.{get_msg, start_op, start, calls, Handled, Run}
use avocado.Trace.{Op, TraceCmd}
use avocado.Server.Run.Sends.{calls-append, Keeps, send_to_shard-Keeps}

then_branch {ℓ} :
    {A : Type ℓ} {b : Bool} (x y : A) {z : A} → b ≡ true → (if b then x else y) ≡ z → x ≡ z
then_branch {b = true} x y e h = h
then_branch {b = false} x y e h = cc

else_branch {ℓ} :
    {A : Type ℓ} {b : Bool} (x y : A) {z : A} → b ≡ false → (if b then x else y) ≡ z → y ≡ z
else_branch {b = true} x y e h = cc
else_branch {b = false} x y e h = h

module _ (cipher : Cipher) (skip_list : SkipList) (packet : Packet) (config : Config) where
  -- An operation counts itself before it sends.
  sent-Keeps :
      (traces traces' traces'' : ℕ) (sent effects : List Effect) (d c : Context)
      (kv kv' : Store cipher skip_list)
      → Keeps (increment traces) traces'' sent 0
      → ◌≡◌ {A = Option (Context × Store cipher skip_list × ℕ × List Effect)}
          (some (d, kv, traces'', sent))
          (some (c, kv', traces', effects))
      → Keeps traces traces' effects 1
  sent-Keeps traces traces' traces'' sent effects d c kv kv' more run =
      let e : traces'' ≡ traces' = cc in
      let e' : sent ≡ effects = cc in
      let n : calls sent ≡ calls effects = ap calls e' in omega (arith, more, e, n)

  start_op-Keeps :
      (op : Op) (kv kv' : Store cipher skip_list) (traces traces' iv : ℕ) (msg : Msg) (c : Context)
      (effects : List Effect)
      → start_op cipher skip_list packet config op kv traces iv msg
        ≡ some (c, kv', traces', effects)
      → Keeps traces traces' effects 1
  unfolding start_op benchmark_put benchmark_get
  start_op-Keeps Op.put kv kv' traces traces' iv msg c effects run =
      let (key, e₁, run₁) = >>=-eq-some (get_key msg) _ run in
      let (replica_msg, e₂, run₂) = >>=-eq-some (builder (length key) >>= add_key key) _ run₁ in
      let (value, e₃, run₃) = >>=-eq-some (get_value msg) _ run₂ in
      let ((node, kv''), e₄, run₄) =
        >>=-eq-some (Memtable.create_node cipher skip_list kv key value Lamport.min) _ run₃ in
      let ((d, traces'', sent), e₅, run₅) =
        >>=-eq-some (send_to_shard packet config _ _ _ _ _ _ _) _ run₄ in
      sent-Keeps traces traces' traces'' sent effects d c kv'' kv'
        (send_to_shard-Keeps packet config _ d _ _ _ _ _ (increment traces) traces'' sent e₅) run₅
  start_op-Keeps Op.get kv kv' traces traces' iv msg c effects run =
      let (key, e₁, run₁) = >>=-eq-some (get_key msg) _ run in
      let ((node, kv''), e₂, run₂) =
        >>=-eq-some (Memtable.create_node cipher skip_list kv key [] Lamport.min) _ run₁ in
      let ((d, traces'', sent), e₃, run₃) =
        >>=-eq-some (send_to_shard packet config _ _ _ _ _ _ _) _ run₂ in
      sent-Keeps traces traces' traces'' sent effects d c kv'' kv'
        (send_to_shard-Keeps packet config _ d _ _ _ _ _ (increment traces) traces'' sent e₃) run₃

  get_time-Keeps :
      (rounds : List Bool) (kv kv' : Store cipher skip_list) (traces traces' iv : ℕ)
      (c c' : Context) (effects : List Effect)
      → get_time cipher skip_list packet config rounds kv traces iv c
        ≡ some (c', kv', traces', effects)
      → Keeps traces traces' effects 0
  unfolding get_time
  get_time-Keeps rounds kv kv' traces traces' iv c c' effects run =
      let (max, e₁, run₁) = >>=-eq-some (reduce_resp packet c later_count _) _ run in
      let (msg, e₂, run₂) =
        >>=-eq-some
          (builder (add_meta_size c.node.key_size + (kv.heap c.node.meta).data_size)
            >>= add_key c.node.key
            >>= add_key (lamport_bytes (record { count = (max + 1) % 2 ^ 32; m_id = config.m_id }))
            >>= add_value (
                take (Memtable.decrypt_node cipher skip_list kv c.node).size
                  (span_bytes (Memtable.decrypt_node cipher skip_list kv c.node).value)))
          _ run₁ in
      let ((d, traces'', sent), e₃, run₃) =
        >>=-eq-some (send_to_shard packet config _ _ _ _ _ _ _) _ run₂ in
      let ((stored, kv''), e₄, run₄) =
        >>=-eq-some (Memtable.put_node cipher skip_list rounds _ _) _ run₃ in
      send_to_shard-Keeps packet config _ c' _ _ _ _ _ traces traces' effects (e₃ ∙ cc)

  start-Keeps :
      (kv kv' : Store cipher skip_list) (traces traces' iv key_size value_size : ℕ)
      (trace : TraceCmd) (c : Context) (effects : List Effect)
      → start cipher skip_list packet config kv traces iv key_size value_size trace
        ≡ some (c, kv', traces', effects)
      → Keeps traces traces' effects 1
  unfolding start
  start-Keeps kv kv' traces traces' iv key_size value_size trace c effects run =
      let (msg, e₁, run₁) = >>=-eq-some (get_msg key_size value_size) _ run in
      let (buf, e₂, run₂) = >>=-eq-some (write 0 trace.key_hash msg.buf) _ run₁ in
      start_op-Keeps trace.op kv kv' traces traces' iv (record msg { buf = buf }) c effects run₂

  -- An operation ends with one call.
  ended-Keeps :
      (traces traces' : ℕ) (answer : Effect) (effects : List Effect)
      → calls (answer ∷ []) ≡ 1
      → ◌≡◌ {A = Option (ℕ × List Effect)}
          (some (decrement traces, answer ∷ []))
          (some (traces', effects))
      → Keeps traces traces' effects 0
  ended-Keeps traces traces' answer effects one run =
      let e : decrement traces ≡ traces' = cc in
      let e' : answer ∷ [] ≡ effects = cc in
      let n : calls (answer ∷ []) ≡ calls effects = ap calls e' in omega (arith, one, e, n)

  abbrev write_back : ℕ → ℕ → Context → Latest → Option (ℕ × List Effect)
  write_back traces iv c latest = do
    msg ←
        builder (add_meta_size c.node.key_size + latest.span_size)
        >>= add_key c.node.key
        >>= add_key (lamport_bytes latest.clock)
        >>= add_value (span_bytes latest.span)
    (put_context, traces'', sent) ←
        send_to_shard packet config (create default_node) c.node.key ReqType.put_replica
          ContType.ret_get_put_update iv msg traces
    some (decrement traces'', sent ++ (Effect.get_ret latest.span latest.span_size ∷ []))

  write_back-Keeps :
      (traces traces' iv : ℕ) (c : Context) (latest : Latest) (effects : List Effect)
      → write_back traces iv c latest ≡ some (traces', effects)
      → Keeps traces traces' effects 0
  write_back-Keeps traces traces' iv c latest effects run =
      let (msg, e₁, run₁) =
        >>=-eq-some
          (builder (add_meta_size c.node.key_size + latest.span_size)
            >>= add_key c.node.key
            >>= add_key (lamport_bytes latest.clock)
            >>= add_value (span_bytes latest.span))
          _ run in
      let ((put_context, traces'', sent), e₂, run₂) =
        >>=-eq-some (send_to_shard packet config _ _ _ _ _ _ _) _ run₁ in
      let more : Keeps traces traces'' sent 0 =
        send_to_shard-Keeps packet config _ put_context _ _ _ _ _ traces traces'' sent e₂ in
      let e₃ : decrement traces'' ≡ traces' = cc in
      let e₄ : sent ++ (Effect.get_ret latest.span latest.span_size ∷ []) ≡ effects = cc in
      let n : calls effects ≡ calls sent + 1 =
        ap calls (sym e₄) ∙ calls-append sent (Effect.get_ret latest.span latest.span_size ∷ []) in
      omega (arith, more, e₃, n)

  ret_value-Keeps :
      (kv : Store cipher skip_list) (traces traces' iv : ℕ) (c : Context) (effects : List Effect)
      → ret_value cipher skip_list packet config kv traces iv c ≡ some (traces', effects)
      → Keeps traces traces' effects 0
  unfolding ret_value
  ret_value-Keeps kv traces traces' iv c effects run =
      let (latest, e₁, run₁) =
        >>=-eq-some (latest_value cipher skip_list packet config kv c) _ run in
      elim (Bool-cases (not (has_consensus c.n_msgs latest.counts) && ltb 0 latest.span_size)) [
        | inl e ↦ write_back-Keeps traces traces' iv c latest effects (then_branch _ _ e run₁)
        | inr e ↦
            ended-Keeps traces traces' (Effect.get_ret latest.span latest.span_size) effects refl
              (else_branch _ _ e run₁)
      ]

  Handled-Keeps :
      (traces traces' : ℕ) (effects : List Effect) (n : ℕ)
      → Handled cipher skip_list packet config traces traces' effects n
      → Keeps traces traces' effects n
  unfolding ack_put_time ret_get_put_update
  Handled-Keeps traces traces' effects n
        (Handled.starting kv kv' iv key_size value_size trace c run one) =
      subst (Keeps traces traces' effects) (sym one)
        (start-Keeps kv kv' traces traces' iv key_size value_size trace c effects run)
  Handled-Keeps traces traces' effects n
        (Handled.getting_time rounds kv kv' iv c c' run none_started) =
      subst (Keeps traces traces' effects) (sym none_started)
        (get_time-Keeps rounds kv kv' traces traces' iv c c' effects run)
  Handled-Keeps traces traces' effects n (Handled.put_ending run none_started) =
      subst (Keeps traces traces' effects) (sym none_started)
        (ended-Keeps traces traces' (Effect.put_ret ack) effects refl (ap some run))
  Handled-Keeps traces traces' effects n (Handled.get_ending kv iv c run none_started) =
      subst (Keeps traces traces' effects) (sym none_started)
        (ret_value-Keeps kv traces traces' iv c effects run)
  Handled-Keeps traces traces' effects n (Handled.updated run none_started) =
      let e : traces ≡ traces' = cc in
      let e' : [] ≡ effects = cc in
      let n : 0 ≡ calls effects = ap calls e' in omega (arith, none_started, e, n)

  -- After any run of handlers of operations that this node has started, `current_traces` and the client's
  -- calls together are the number of operations started, modulo the width of the counter.
  pub running_lem :
      (traces started called : ℕ)
      → Run cipher skip_list packet config traces started called
      → (traces + called) % 2 ^ 64 ≡ started % 2 ^ 64
  running_lem _ _ _ Run.begin = refl
  running_lem _ _ _
        (Run.handle {traces} {traces'} {started} {called} {n} {effects} before handled) =
      omega (
        arith,
        running_lem traces started called before,
        Handled-Keeps traces traces' effects n handled,
      )

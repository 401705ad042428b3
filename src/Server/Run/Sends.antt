-- ===== src/Server/Run/Sends.antt =====
-- What sending to the replicas of a shard does to the count of running operations of src/server.cpp.
use avocado.Common.{
  ℕ, ◌+◌, ◌%◌, ◌^◌, ◌≡◌, refl, ap, sym, ◌∙◌, subst, some, List, [], ◌∷◌, ◌++◌, map, arith,
  >>=-eq-some, get_elem?,
}
use avocado.Common.Bytes.{read}
use avocado.Msg.{Msg, to_bytes, adjust_size}
use avocado.Protocol.Context.{Context, send}
use avocado.Protocol.Operations.{decrement, send_shard, send_to_shard}
use avocado.Protocol.Routing.{get_idx}
use avocado.Protocol.{Packet, Config, Effect, ReqType, ContType}
use avocado.Server.Run.{calls}

pub calls-append : (a b : List Effect) → calls (a ++ b) ≡ calls a + calls b
calls-append [] b = omega arith
calls-append (Effect.put_ret msg ∷ a) b = omega (arith, calls-append a b)
calls-append (Effect.get_ret value size ∷ a) b = omega (arith, calls-append a b)
calls-append (Effect.skip_ret ∷ a) b = omega (arith, calls-append a b)
calls-append (Effect.request session req cont bytes ∷ a) b = omega (arith, calls-append a b)
calls-append (Effect.respond bytes ∷ a) b = omega (arith, calls-append a b)
calls-append (Effect.cmd_ret n msg ∷ a) b = omega (arith, calls-append a b)

calls-map :
    (req : ReqType) (cont : ContType) (bytes : List ℕ) (sessions : List ℕ)
    → calls (map (λ session. Effect.request session req cont bytes) sessions) ≡ 0
calls-map req cont bytes [] = refl
calls-map req cont bytes (s ∷ sessions) = calls-map req cont bytes sessions

-- What is counted after a handler is what was counted before it.
abbrev pub Keeps : ℕ → ℕ → List Effect → ℕ → Type 0
Keeps traces traces' effects started =
    (traces' + calls effects) % 2 ^ 64 ≡ (traces + started) % 2 ^ 64

module _ (packet : Packet) (config : Config) where
  -- A request to every session calls no client.
  send-calls :
      (c c' : Context) (sessions : List ℕ) (req : ReqType) (cont : ContType) (iv : ℕ) (m : Msg)
      (effects : List Effect)
      → send packet c sessions req cont iv m ≡ some (c', effects)
      → calls effects ≡ 0
  unfolding send
  send-calls c c' [] req cont iv m effects run = cc
  send-calls c c' (s ∷ sessions) req cont iv m effects run =
      let (plain, e, sent) = >>=-eq-some (read 0 (adjust_size m.size) (to_bytes m)) _ run in
      let e' : map (λ session. Effect.request session req cont (packet.encrypt iv plain))
            (s ∷ sessions)
          ≡ effects =
        cc in
      subst (λ es. calls es ≡ 0) e' (calls-map req cont (packet.encrypt iv plain) (s ∷ sessions))

  send_shard-Keeps :
      (c c' : Context) (sessions : List ℕ) (req : ReqType) (cont : ContType) (iv : ℕ) (m : Msg)
      (traces traces' : ℕ) (effects : List Effect)
      → send_shard packet c sessions req cont iv m traces ≡ some (c', traces', effects)
      → Keeps traces traces' effects 0
  unfolding send_shard
  send_shard-Keeps c c' [] req cont iv m traces traces' effects run =
      let e : decrement traces ≡ traces' = cc in
      let e' : Effect.skip_ret ∷ [] ≡ effects = cc in
      let n : calls effects ≡ 1 = ap calls (sym e') in omega (arith, e, n)
  send_shard-Keeps c c' (s ∷ ss) req cont iv m traces traces' effects run =
      let ((d, sent), e, rest) = >>=-eq-some (send packet c (s ∷ ss) req cont iv m) _ run in
      let e₁ : traces ≡ traces' = cc in
      let e₂ : sent ≡ effects = cc in
      let n : calls effects ≡ 0 =
        ap calls (sym e₂) ∙ send-calls c d (s ∷ ss) req cont iv m sent e in
      omega (arith, e₁, n)

  pub send_to_shard-Keeps :
      (c c' : Context) (key : List ℕ) (req : ReqType) (cont : ContType) (iv : ℕ) (m : Msg)
      (traces traces' : ℕ) (effects : List Effect)
      → send_to_shard packet config c key req cont iv m traces ≡ some (c', traces', effects)
      → Keeps traces traces' effects 0
  unfolding send_to_shard
  send_to_shard-Keeps c c' key req cont iv m traces traces' effects run =
      let (idx, e₁, run₁) = >>=-eq-some (get_idx config.replicas key) _ run in
      let (reps, e₂, run₂) = >>=-eq-some (get_elem? config.replicas idx) _ run₁ in
      send_shard-Keeps c c' reps req cont iv m traces traces' effects run₂

-- ===== src/Protocol/Context.antt =====
-- One round of requests: `ReplicaContext` and the counting half of `ABD::req_conts`.
use avocado.Common.{
  ℕ, ◌≡◌, refl, ◌+◌, ◌-◌, ◌*◌, ◌%◌, ◌^◌, Bool, true, false, Option, none, some, List, [], ◌∷◌, ◌++◌,
  map, length, replicate, ltb, if◌then◌else◌, ◌>>=◌,
}
use avocado.Common.Bytes.{read, write}
use avocado.Memtable.Interface.{Node}
use avocado.Msg.{Msg, of_bytes, to_bytes, adjust_size}
use avocado.Protocol.{ReqType, ContType, Packet, meta_data_size, Effect}

-- `cache` holds the packets that came back, in order; `done` is the flag `done`.
pub record Context : Type 0 where
  pub n_resp : ℕ
  pub n_msgs : ℕ
  pub is_done : Bool
  pub cache : List (List ℕ)
  pub max_resp_size : ℕ
  pub node : Node

-- `typename KV_store::Node data;` as the constructor leaves it
abbrev pub default_node : Node
default_node = record { key_size = 0; key = []; meta = 0 }

unfoldable pub create : Node → Context
create node = record {
  n_resp = 0;
  n_msgs = 0;
  is_done = false;
  cache = [];
  max_resp_size = 0;
  node = node;
}

-- `size_t` wraps below the overhead of a packet.
abbrev pub get_message_size : ℕ → ℕ
get_message_size n = (n + 2 ^ 64 - meta_data_size) % 2 ^ 64

last : List (List ℕ) → Option (List ℕ)
last [] = none
last (resp ∷ []) = some resp
last (resp ∷ next ∷ resps) = last (next ∷ resps)

-- `add_to_cache`
unfoldable pub add_to_cache : Context → List ℕ → Context
add_to_cache c resp =
    let size = get_message_size (length resp) in
    record c {
      max_resp_size = if ltb c.max_resp_size size then size else c.max_resp_size;
      cache = c.cache ++ (resp ∷ []);
    }

-- The test for too few responses, where `n_resp` counts the one at hand.
unfoldable pub too_few : ℕ → ℕ → Bool
too_few n_resp n_msgs = ltb (2 * n_resp + 1) n_msgs

-- `req_conts`, for the continuations that wait for a quorum: the context after a response, and
-- whether the continuation's body runs now.
unfoldable pub req_conts : Context → List ℕ → Context × Bool
unfolding add_to_cache too_few
req_conts c resp =
    let cached = add_to_cache c resp in
    let n_resp = c.n_resp + 1 in
    let counted = record cached { n_resp = n_resp } in
    if too_few n_resp c.n_msgs
    then (counted, false)
    else if c.is_done
    then (counted, false)
    else (record counted { is_done = true }, true)

-- For `CmdRet` the body runs at every response, with the count.
unfoldable pub req_conts_cmd : Context → List ℕ → Context × ℕ
unfolding add_to_cache
req_conts_cmd c resp =
    let n_resp = c.n_resp + 1 in (record (add_to_cache c resp) { n_resp = n_resp }, n_resp)

-- The responses one after the other: the context, and how many of them ran the body.
unfoldable pub run_conts : Context → List (List ℕ) → Context × ℕ
unfolding req_conts
run_conts c [] = (c, 0)
run_conts c (resp ∷ resps) =
    let (c', ran) = req_conts c resp in
    let (c'', k) = run_conts c' resps in (c'', if ran then k + 1 else k)

module _ (packet : Packet) where
  open packet use {encrypt, decrypt}

  -- `send_and_encrypt_msg`: the sized part of the message, encrypted once, to every replica.
  -- `none` is also an empty list of sessions, where the code writes to a first node that is not there.
  unfoldable pub send :
      Context → List ℕ → ReqType → ContType → ℕ → Msg → Option (Context × List Effect)
  unfolding adjust_size to_bytes
  send c [] req cont iv msg = none
  send c (s ∷ sessions) req cont iv msg = do
    plain ← read 0 (adjust_size msg.size) (to_bytes msg)
    some (
      record c { n_msgs = length (s ∷ sessions) },
      map (λ session. Effect.request session req cont (encrypt iv plain)) (s ∷ sessions),
    )

  -- `reduce_resp`: each packet is decrypted over one buffer, and `f` reads the buffer as a message.
  unfoldable pub reduce {ℓ} :
      {A : Type ℓ} → (A → Msg → Option A) → List ℕ → List (List ℕ) → A → Option A
  unfolding of_bytes
  reduce f mem [] res = some res
  reduce f mem (resp ∷ resps) res = do
    (plain, _) ← decrypt resp
    mem' ← write 0 plain mem
    msg ← of_bytes mem'
    res' ← f res msg
    reduce f mem' resps res'

  unfoldable pub reduce_resp {ℓ} : {A : Type ℓ} → Context → (A → Msg → Option A) → A → Option A
  unfolding reduce
  reduce_resp c f init = reduce f (replicate c.max_resp_size 0) c.cache init

  -- `map_last`: the last response as a message of its own.
  unfoldable pub last_msg : Context → Option Msg
  unfolding of_bytes last
  last_msg c = do resp ← last c.cache; (plain, _) ← decrypt resp; of_bytes plain

  last-append : (before : List (List ℕ)) (resp : List ℕ) → last (before ++ (resp ∷ [])) ≡ some resp
  unfolding last
  last-append [] resp = refl
  last-append (b ∷ []) resp = refl
  last-append (b ∷ c ∷ before) resp = last-append (c ∷ before) resp

  pub last_msg_lem :
      (c : Context) (before : List (List ℕ)) (resp : List ℕ)
      → c.cache ≡ before ++ (resp ∷ [])
      → last_msg c ≡ (decrypt resp >>= λ p. of_bytes p.0)
  unfolding last_msg
  last_msg_lem c before resp e = rw (e, last-append before resp, ◌>>=◌) refl

-- ===== src/Protocol/Delivery.antt =====
-- What is sent is what the receiver reads: `send_and_encrypt_msg` and `encrypt_and_resp` against
-- `get_data`; and a key's shard is one of those that there are.
use mathlib.Core.List.{append_assoc, append-nil}
use avocado.Common.{
  ℕ, ◌+◌, ◌-◌, ◌%◌, ◌^◌, ◌≤◌, ◌<◌, ◌≡◌, refl, ap, ◌∙◌, sym, some, List, [], ◌∷◌, ◌++◌, length,
  length-append, map, take, drop, length-drop, take-append-drop, take-length, subst, arith, ◌>>=◌,
}
use avocado.Common.Bytes.{le_bytes, le_value, read, read-append}
use avocado.Msg.Build.{Holds}
use avocado.Msg.Wire.{of_bytes-to_bytes, length-to_bytes}
use avocado.Msg.{Msg, to_bytes, adjust_size, header_size}
use avocado.Protocol.Context.{Context, send}
use avocado.Protocol.Requests.{get_data, encrypt_and_resp}
use avocado.Protocol.Routing.{word_size, get_idx}
use avocado.Protocol.{Packet, Effect, ReqType, ContType}

-- A message with nothing behind its value
abbrev trimmed : List ℕ → List ℕ → Msg
trimmed key value = record {
  key_size = length key;
  size = length key + length value;
  buf = key ++ value;
}

trimmed-Holds :
    {m : Msg} (key value : List ℕ) {room : ℕ}
    → Holds m key value room
    → Holds (trimmed key value) key value 0
trimmed-Holds key value h = record {
  rest = [];
  room_left = refl;
  key_size = refl;
  size = refl;
  layout = ap (◌++◌ key) (sym (append-nil value));
  small = omega (arith, h.small);
}

read_sized :
    {m : Msg} (key value : List ℕ) {room : ℕ}
    → Holds m key value room
    → read 0 (adjust_size m.size) (to_bytes m) ≡ some (to_bytes (trimmed key value))
unfolding to_bytes adjust_size
read_sized {m} key value h =
    ap (read 0 (adjust_size m.size)) bytes
    ∙ read-append [] (to_bytes (trimmed key value)) h.rest refl (
        omega
          (arith, h.size, h.small, length-to_bytes (trimmed key value), length-append key value))
  where
    bytes : to_bytes m ≡ to_bytes (trimmed key value) ++ h.rest
    bytes =
        rw (h.key_size, h.size, h.layout)
          (ap (λ l. le_bytes 8 (length key) ++ (le_bytes 8 (length key + length value) ++ l))
              (sym (append_assoc key value h.rest))
            ∙ ap (◌++◌ (le_bytes 8 (length key)))
                (sym (append_assoc (le_bytes 8 (length key + length value)) (key ++ value) h.rest))
            ∙ sym (append_assoc (le_bytes 8 (length key)) _ h.rest))

module _ (packet : Packet) where
  open packet use {encrypt, decrypt, decrypt-encrypt}

  get_data-encrypt :
      {m : Msg} (key value : List ℕ) {room : ℕ} (iv : ℕ)
      → Holds m key value room
      → length key + length value + header_size < 2 ^ 31
      → get_data packet (encrypt iv (to_bytes (trimmed key value))) ≡ some (trimmed key value)
  unfolding get_data
  get_data-encrypt key value iv h short =
      rw (decrypt-encrypt iv (to_bytes (trimmed key value)) size, ◌>>=◌)
        (of_bytes-to_bytes (trimmed key value) (omega (arith, h.small)) (omega (arith, h.small)))
    where
      size : length (to_bytes (trimmed key value)) < 2 ^ 31
      size = omega (arith, short, length-to_bytes (trimmed key value), length-append key value)

  -- The requests of `send` go to all sessions in order, and each one is read by its receiver as a
  -- message with the sender's key and value and nothing behind them, if it has less than 2^31 bytes with
  -- its header and there is a session.
  pub send-get_data :
      (c : Context) (sessions : List ℕ) (req : ReqType) (cont : ContType) (iv : ℕ) (m : Msg)
      (key value : List ℕ) (room : ℕ)
      → 0 < length sessions
      → Holds m key value room
      → length key + length value + header_size < 2 ^ 31
      → (bytes : List ℕ) × (received : Msg) × (send packet c sessions req cont iv m
          ≡ some (
            record c { n_msgs = length sessions },
            map (λ session. Effect.request session req cont bytes) sessions,
          ))
        × (get_data packet bytes ≡ some received)
        × Holds received key value 0
  unfolding send
  send-get_data c [] req cont iv m key value room some_session h short = absurd (omega arith)
  send-get_data c (s ∷ sessions) req cont iv m key value room some_session h short = (
    encrypt iv (to_bytes (trimmed key value)),
    trimmed key value,
    rw (read_sized key value h, ◌>>=◌) refl,
    get_data-encrypt key value iv h short,
    trimmed-Holds key value h,
  )

  -- A response too.
  pub encrypt_and_resp-get_data :
      (iv : ℕ) (m : Msg) (key value : List ℕ) (room : ℕ)
      → Holds m key value room
      → length key + length value + header_size < 2 ^ 31
      → (bytes : List ℕ) × (received : Msg) × (encrypt_and_resp packet iv m
          ≡ some (Effect.respond bytes))
        × (get_data packet bytes ≡ some received)
        × Holds received key value 0
  unfolding encrypt_and_resp
  encrypt_and_resp-get_data iv m key value room h short = (
    encrypt iv (to_bytes (trimmed key value)),
    trimmed key value,
    rw (read_sized key value h, ◌>>=◌) refl,
    get_data-encrypt key value iv h short,
    trimmed-Holds key value h,
  )

word_size_le : (n : ℕ) → 0 < n → (n - word_size n) + word_size n ≤ n
unfolding word_size
word_size_le n h = ground arith

-- The number of the key's shard: the last 8, 4, 2 or 1 bytes of the key, as many as it has, as a
-- little-endian number modulo the number of shards.
abbrev pub Shard : List (List ℕ) → List ℕ → ℕ → Type 0
Shard replicas key idx =
    (front word : List ℕ) × (key ≡ front ++ word)
    × (length word ≡ word_size (length key))
    × (idx ≡ le_value word % length replicas)

word_size_small : (n : ℕ) → 0 < n → word_size n ≤ n
unfolding word_size
word_size_small n h = ground arith

take_all :
    (key : List ℕ) (n size : ℕ) → length (drop n key) ≡ size → take size (drop n key) ≡ drop n key
take_all key n size h = subst (λ s. take s (drop n key) ≡ drop n key) h (take-length (drop n key))

last_word :
    (key : List ℕ)
    → 0 < length key
    → (front word : List ℕ) × (key ≡ front ++ word)
      × (length word ≡ word_size (length key))
      × (read (length key - word_size (length key)) (word_size (length key)) key ≡ some word)
unfolding read
last_word key k =
    let le = word_size_le (length key) k in
    let n = length key - word_size (length key) in
    let len : length (drop n key) ≡ word_size (length key) =
      omega (arith, length-drop n key, le, word_size_small (length key) k) in
    (
      take n key,
      drop n key,
      sym (take-append-drop n key),
      len,
      rw (take_all key n (word_size (length key)) len) (ground (arith, le)),
    )

-- Every key of at least one byte has a shard, if there are any.
pub get_idx_lem :
    (replicas : List (List ℕ)) (key : List ℕ)
    → 0 < length replicas
    → 0 < length key
    → (idx : ℕ) × (get_idx replicas key ≡ some idx)
      × (idx < length replicas)
      × Shard replicas key idx
unfolding get_idx
get_idx_lem [] key h k = absurd (omega arith)
get_idx_lem (r ∷ rs) key h k =
    let (front, word, e, len, run) = last_word key k in
    (
      le_value word % length (r ∷ rs),
      rw (run, ◌>>=◌) refl,
      omega arith,
      (front, word, e, len, refl),
    )

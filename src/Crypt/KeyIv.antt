-- ===== src/Crypt/KeyIv.antt =====
-- `KeyIV`: where a packet's IV comes from, and what is kept for the next one.
use avocado.Common.{
  ℕ, zero, suc, ◌+◌, ◌/◌, ◌%◌, ◌^◌, ◌≡◌, refl, ap, sym, ◌∙◌, Bool, true, false, Option, none, some,
  List, ◌++◌, take, drop, arith, if◌then◌else◌, ◌>>=◌, ◌==◌,
}
use avocado.Common.Bytes.{le_bytes, le_value}

-- 16 bytes each; the constructor fills 12 bytes of `iv`.
pub record KeyIv : Type 0 where
  pub key : List ℕ
  pub iv : List ℕ

abbrev pub iv_size : ℕ
iv_size = 12

unfoldable pub create : (key iv uninitialised : List ℕ) → KeyIv
create key iv uninitialised = record {
  key = take 16 key;
  iv = take iv_size iv ++ drop iv_size uninitialised;
}

-- `inc`: `src + a` to the first 12 bytes of `dst`, as a number of 96 bits
unfoldable pub inc : (dst src : List ℕ) → ℕ → List ℕ
inc dst src a =
    let low = le_value (take 8 src) in
    let high = le_value (take 4 (drop 8 src)) in
    le_bytes 8 ((low + a) % 2 ^ 64)
    ++ le_bytes 4 ((high + (low + a) / 2 ^ 64) % 2 ^ 32)
    ++ drop 12 dst

-- The 16 bytes are equal as two 64-bit words.
unfoldable pub words_eq : List ℕ → List ℕ → Bool
words_eq a b =
    if le_value (take 8 a) == le_value (take 8 b)
    then le_value (take 8 (drop 8 a)) == le_value (take 8 (drop 8 b))
    else false

-- `compare_exchange_128 (dst, src, old)`: the flag, and what `dst` and `old` hold afterwards
unfoldable pub compare_exchange_128 : (dst src old : List ℕ) → Bool × List ℕ × List ℕ
unfolding words_eq
compare_exchange_128 dst src old = if words_eq dst old then (true, src, old) else (false, dst, dst)

-- The loop goes round until the exchange succeeds; `none` means that the fuel ran out.
unfoldable pub exchange : ℕ → (iv raw dst : List ℕ) → Option (List ℕ × List ℕ)
unfolding compare_exchange_128
exchange zero iv raw dst = none
exchange (suc fuel) iv raw dst =
    let again = exchange fuel iv raw (compare_exchange_128 iv raw dst).2 in
    if (compare_exchange_128 iv raw dst).0
    then some ((compare_exchange_128 iv raw dst).1, (compare_exchange_128 iv raw dst).2)
    else again

-- `get_packet_iv_aligned`: the state's and the destination's bytes; `raw` is not initialised.
-- Without another thread two rounds are enough.
unfoldable pub get_packet_iv_aligned : (iv dst raw : List ℕ) → Option (List ℕ × List ℕ)
unfolding inc exchange
get_packet_iv_aligned iv dst raw = exchange 2 iv (inc raw dst 1) dst

-- `get_packet_iv`: 16 bytes go to a destination that is not aligned by way of a local array, which
-- is not initialised either.
unfoldable pub get_packet_iv : Bool → KeyIv → (dst local raw : List ℕ) → Option (KeyIv × List ℕ)
unfolding get_packet_iv_aligned
get_packet_iv aligned k dst local raw = do
  (iv, out) ← get_packet_iv_aligned k.iv (if aligned then take 16 dst else local) raw
  some (record k { iv = iv }, out)

exchange_lem :
    (iv raw dst : List ℕ) → exchange 2 iv raw dst ≡ some (raw, if words_eq iv dst then dst else iv)
unfolding exchange words_eq
exchange_lem iv raw dst = ground arith

words_eq_out : (iv dst : List ℕ) → words_eq iv (if words_eq iv dst then dst else iv) ≡ true
unfolding words_eq
words_eq_out iv dst = ground arith

meet_words :
    (a₁ a₂ b₁ b₂ c₁ c₂ : ℕ)
    → (if a₁ == b₁ then a₂ == b₂ else false) ≡ true
    → (if a₁ == c₁ then a₂ == c₂ else false) ≡ true
    → (if b₁ == c₁ then b₂ == c₂ else false) ≡ true
meet_words a₁ a₂ b₁ b₂ c₁ c₂ h k = ground arith

words_eq_meet : (a b c : List ℕ) → words_eq a b ≡ true → words_eq a c ≡ true → words_eq b c ≡ true
unfolding words_eq
words_eq_meet a b c h k =
    meet_words (le_value (take 8 a)) (le_value (take 8 (drop 8 a))) (le_value (take 8 b))
      (le_value (take 8 (drop 8 b))) (le_value (take 8 c)) (le_value (take 8 (drop 8 c))) h k

-- The IV for a packet whose memory starts with these bytes
abbrev pub packet_iv : (stored memory : List ℕ) → List ℕ
packet_iv stored memory = if words_eq stored memory then memory else stored

abbrev pub memory_of : Bool → (dst local : List ℕ) → List ℕ
memory_of aligned dst local = if aligned then take 16 dst else local

pub get_packet_iv_run :
    (aligned : Bool) (k : KeyIv) (dst local raw : List ℕ)
    → get_packet_iv aligned k dst local raw
      ≡ some (
        record k { iv = inc raw (memory_of aligned dst local) 1 },
        packet_iv k.iv (memory_of aligned dst local),
      )
unfolding get_packet_iv
get_packet_iv_run aligned k dst local raw =
    let memory = memory_of aligned dst local in
    rw (exchange_lem k.iv (inc raw memory 1) memory, ◌>>=◌) refl

-- Without another thread the packet gets an IV with the words of the stored one, and the IV that is
-- stored for the next packet is the successor of what was in the packet's memory before, whatever the
-- stored one was.
get_packet_iv_lem :
    (aligned : Bool) (k : KeyIv) (dst local raw : List ℕ)
    → (k' : KeyIv) × (out : List ℕ) × (get_packet_iv aligned k dst local raw ≡ some (k', out))
      × (words_eq k.iv out ≡ true)
      × (k'.key ≡ k.key)
      × (k'.iv ≡ inc raw (if aligned then take 16 dst else local) 1)
get_packet_iv_lem aligned k dst local raw = (
  record k { iv = inc raw (memory_of aligned dst local) 1 },
  packet_iv k.iv (memory_of aligned dst local),
  get_packet_iv_run aligned k dst local raw,
  words_eq_out k.iv (memory_of aligned dst local),
  refl,
  refl,
)

-- Three packets that are written one after the other over memory with the same bytes: the third has
-- the second one's IV.
pub iv_repeats :
    (aligned : Bool) (dst local raw : List ℕ) (k k₁ k₂ k₃ : KeyIv) (out₁ out₂ out₃ : List ℕ)
    → get_packet_iv aligned k dst local raw ≡ some (k₁, out₁)
    → get_packet_iv aligned k₁ dst local raw ≡ some (k₂, out₂)
    → get_packet_iv aligned k₂ dst local raw ≡ some (k₃, out₃)
    → words_eq out₂ out₃ ≡ true
iv_repeats aligned dst local raw k k₁ k₂ k₃ out₁ out₂ out₃ e₁ e₂ e₃ =
    let (k₁', o₁, r₁, w₁, _, i₁) = get_packet_iv_lem aligned k dst local raw in
    let (k₂', o₂, r₂, w₂, _, i₂) = get_packet_iv_lem aligned k₁ dst local raw in
    let (k₃', o₃, r₃, w₃, _, i₃) = get_packet_iv_lem aligned k₂ dst local raw in
    let k₁_same : k₁ ≡ k₁' = cc in
    let k₂_same : k₂ ≡ k₂' = cc in
    let out₂_same : out₂ ≡ o₂ = cc in
    let out₃_same : out₃ ≡ o₃ = cc in
    let stored : k₂.iv ≡ k₁.iv = ap KeyIv.iv k₂_same ∙ i₂ ∙ sym (ap KeyIv.iv k₁_same ∙ i₁) in
    words_eq_meet k₁.iv out₂ out₃ (rw out₂_same w₂) (rw (← stored, out₃_same) w₃)

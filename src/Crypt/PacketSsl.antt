-- ===== src/Crypt/PacketSsl.antt =====
-- `PacketSsl`: the layout of a packet, and its encryption and decryption in memory.
pub mod Layout
use avocado.Common.{ℕ, ◌+◌, ◌-◌, ◌%◌, ◌^◌, Bool, Option, some, List, length, take, ◌>>=◌}
use avocado.Common.Bytes.{read, write}
use avocado.Crypt.KeyIv.{KeyIv, iv_size, get_packet_iv}
use avocado.Crypt.{Aead}

abbrev pub mac_size : ℕ
mac_size = 16

abbrev pub meta_data_size : ℕ
meta_data_size = iv_size + mac_size

-- `size_t`, which wraps; the assertion of `get_message_size` is off in a release build.
unfoldable pub get_buffer_size : ℕ → ℕ
get_buffer_size msg_size = (msg_size + meta_data_size) % 2 ^ 64

unfoldable pub get_message_size : ℕ → ℕ
get_message_size buf_size = (buf_size + 2 ^ 64 - meta_data_size) % 2 ^ 64

module _ (aead : Aead) where
  open aead use {seal, open_sealed}

  -- `cipher<ENCRYPT>`: the IV, of which 16 bytes are written and 12 count, the text over the rest of
  -- them, and the tag. `none` is a write out of the buffer. OpenSSL's calls are those that succeed, so
  -- the result of `cipher`, which is then true, is left out.
  unfoldable pub encrypt :
      (aligned : Bool) → KeyIv → (dst src local raw : List ℕ) → Option (KeyIv × List ℕ)
  encrypt aligned k dst src local raw = do
    (k', iv) ← get_packet_iv aligned k dst local raw
    dst₁ ← write 0 iv dst
    let sealed = seal k.key (take iv_size dst₁) src
    dst₂ ← write iv_size sealed.0 dst₁
    dst₃ ← write (iv_size + length src) sealed.1 dst₂
    some (k', dst₃)

  -- `cipher<DECRYPT>` of a buffer of `size` bytes: the text, and whether its tag is right
  unfoldable pub decrypt : KeyIv → List ℕ → ℕ → Option (List ℕ × Bool)
  unfolding get_message_size
  decrypt k src size = do
    iv ← read 0 iv_size src
    text ← read iv_size (get_message_size size) src
    tag ← read (iv_size + get_message_size size) mac_size src
    some (open_sealed k.key iv text tag)

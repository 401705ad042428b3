-- ===== src/Protocol/Encrypted.antt =====
-- The packets of `PacketSsl` as the packets that the protocol's handlers send and read: `encrypt`
-- and `decrypt` of src/include/crypt/release/encrypt_package.h in a buffer of just a packet's size.
use mathlib.Core.Option.{some-injective}
use avocado.Common.{
  length_zero, refl, ℕ, ◌+◌, ◌^◌, ◌<◌, ◌≡◌, ap, ◌∙◌, sym, Bool, true, some, List, [], length, take,
  arith,
}
use avocado.Common.Bytes.{le_bytes, length-le_bytes}
use avocado.Crypt.KeyIv.{KeyIv, iv_size, get_packet_iv, get_packet_iv_run, packet_iv, memory_of}
use avocado.Crypt.PacketSsl
use avocado.Crypt.PacketSsl.{meta_data_size, get_buffer_size, get_message_size}
use avocado.Crypt.PacketSsl.Layout.{
  sealed_bytes, length-sealed_bytes, decrypt-sealed_bytes, encrypt-sealed_bytes, rest, length-rest,
}
use avocado.Crypt.{Aead}
use avocado.Protocol.{Packet}

-- The state that both directions read the key of
abbrev pub keyed : List ℕ → KeyIv
keyed key = record { key = key; iv = [] }

module _ (aead : Aead) where
  abbrev pub sealed : List ℕ → ℕ → List ℕ → List ℕ
  sealed key iv plain = sealed_bytes aead key (le_bytes iv_size iv) plain []

  pub length-sealed :
      (key : List ℕ) (iv : ℕ) (plain : List ℕ)
      → length (sealed key iv plain) ≡ length plain + meta_data_size
  length-sealed key iv plain = omega (
    arith,
    length-sealed_bytes aead key (le_bytes iv_size iv) plain [] (length-le_bytes iv_size iv),
  )

  pub decrypt-sealed :
      (key : List ℕ) (iv : ℕ) (plain : List ℕ)
      → length plain < 2 ^ 31
      → PacketSsl.decrypt aead (keyed key) (sealed key iv plain) (length (sealed key iv plain))
        ≡ some (plain, true)
  unfolding get_buffer_size
  decrypt-sealed key iv plain small =
      ap (PacketSsl.decrypt aead (keyed key) (sealed key iv plain)) size
      ∙ decrypt-sealed_bytes aead (keyed key) (le_bytes iv_size iv) plain []
          (length-le_bytes iv_size iv) small
    where
      size : length (sealed key iv plain) ≡ get_buffer_size (length plain)
      size = omega (arith, small, length-sealed key iv plain)

  -- What the protocol sends and reads when it runs over `PacketSsl` with a key
  abbrev pub packet_ssl : List ℕ → Packet
  packet_ssl key = record {
    encrypt = sealed key;
    decrypt = λ packet. PacketSsl.decrypt aead (keyed key) packet (length packet);
    decrypt-encrypt = decrypt-sealed key;
    length-encrypt = length-sealed key;
  }

  -- In a buffer of just `get_buffer_size` bytes `PacketSsl` writes the packet that the protocol's
  -- interface gives for the number of the IV that it takes, keeps the key, and reads packets as the
  -- interface does.
  pub packet_refines :
      (aligned : Bool) (k k' : KeyIv) (dst src local raw iv : List ℕ) (n : ℕ)
      → length k.iv ≡ 16
      → length local ≡ 16
      → length src < 2 ^ 31
      → length dst ≡ get_buffer_size (length src)
      → get_packet_iv aligned k dst local raw ≡ some (k', iv)
      → take iv_size iv ≡ le_bytes iv_size n
      → (PacketSsl.encrypt aead aligned k dst src local raw
          ≡ some (k', (packet_ssl k.key).encrypt n src))
        × ((packet : List ℕ)
            → PacketSsl.decrypt aead k' packet (length packet) ≡ (packet_ssl k.key).decrypt packet)
  unfolding PacketSsl.decrypt get_buffer_size
  packet_refines aligned k k' dst src local raw iv n h₁ h₂ small size e h₃ =
      let same = some-injective _ _ (sym (get_packet_iv_run aligned k dst local raw) ∙ e) in
      let nonce_same : take iv_size (packet_iv k.iv (memory_of aligned dst local))
          ≡ le_bytes iv_size n =
        ap (take iv_size) (ap (λ p. p.1) same) ∙ h₃ in
      let no_rest =
        length_zero (rest aead aligned k dst src local raw h₁ h₂ small (omega (arith, size))) (
          omega (
            arith,
            size,
            length-rest aead aligned k dst src local raw h₁ h₂ small (omega (arith, size)),
          )) in
      let key_same : k.key ≡ k'.key = ap (λ p. KeyIv.key p.0) same in
      (
        encrypt-sealed_bytes aead aligned k dst src local raw h₁ h₂ small (omega (arith, size))
            ∙ rw (no_rest, nonce_same, ap (λ p. p.0) same) refl,
        λ packet.
            ap (λ key. PacketSsl.decrypt aead (keyed key) packet (length packet)) (sym key_same),
      )

-- ===== src/Crypt/PacketSsl/Layout.antt =====
-- The bytes of a packet of `PacketSsl`, and that decryption takes them apart again.
use mathlib.Core.List.{append_assoc}
use avocado.Common.{
  ℕ, ◌+◌, ◌^◌, ◌≤◌, ◌<◌, ◌≡◌, refl, ap, ◌∙◌, sym, subst, Bool, true, some, List, [], ◌++◌, length,
  length-append, length-take, length-drop, take, drop, take-append-drop, arith, ◌>>=◌,
}
use avocado.Common.Bytes.{read, write, read-append, take-append_eq, write-rest}
use avocado.Crypt.KeyIv.{
  KeyIv, iv_size, get_packet_iv, packet_iv, memory_of, get_packet_iv_run, inc,
}
use avocado.Crypt.PacketSsl.{
  mac_size, meta_data_size, get_buffer_size, get_message_size, encrypt, decrypt,
}
use avocado.Crypt.{Aead}

module _ (aead : Aead) where
  open aead use {seal, open_sealed, length-text, length-tag, open-seal}

  -- What a buffer holds after an encryption with some IV: IV, text, tag, and what was behind
  abbrev pub sealed_bytes : (key iv src rest : List ℕ) → List ℕ
  sealed_bytes key iv src rest = iv ++ ((seal key iv src).0 ++ ((seal key iv src).1 ++ rest))

  encrypt_run :
      (aligned : Bool) (k k' : KeyIv) (dst src local raw iv nonce dst₁ dst₂ dst₃ : List ℕ)
      → get_packet_iv aligned k dst local raw ≡ some (k', iv)
      → write 0 iv dst ≡ some dst₁
      → take iv_size dst₁ ≡ nonce
      → write iv_size (seal k.key nonce src).0 dst₁ ≡ some dst₂
      → write (iv_size + length src) (seal k.key nonce src).1 dst₂ ≡ some dst₃
      → encrypt aead aligned k dst src local raw ≡ some (k', dst₃)
  unfolding encrypt
  encrypt_run aligned k k' dst src local raw iv nonce dst₁ dst₂ dst₃ e₁ e₂ e₃ e₄ e₅ =
      rw (e₁, ◌>>=◌, e₂, e₃, e₄, e₅) refl

  decrypt_run :
      (k : KeyIv) (src nonce text tag plain : List ℕ) (size : ℕ)
      → read 0 iv_size src ≡ some nonce
      → read iv_size (get_message_size size) src ≡ some text
      → read (iv_size + get_message_size size) mac_size src ≡ some tag
      → open_sealed k.key nonce text tag ≡ (plain, true)
      → decrypt aead k src size ≡ some (plain, true)
  unfolding decrypt
  decrypt_run k src nonce text tag plain size e₁ e₂ e₃ e₄ = rw (e₁, ◌>>=◌, e₂, e₃, e₄) refl

  pub get_message_size-get_buffer_size :
      (n : ℕ) → n < 2 ^ 31 → get_message_size (get_buffer_size n) ≡ n
  unfolding get_message_size get_buffer_size
  get_message_size-get_buffer_size n h = omega arith

  pub length-sealed_bytes :
      (key nonce src rest : List ℕ)
      → length nonce ≡ iv_size
      → length (sealed_bytes key nonce src rest) ≡ length src + meta_data_size + length rest
  length-sealed_bytes key nonce src rest h = omega (
    arith,
    h,
    length-text key nonce src,
    length-tag key nonce src,
    length-append nonce ((seal key nonce src).0 ++ ((seal key nonce src).1 ++ rest)),
    length-append (seal key nonce src).0 ((seal key nonce src).1 ++ rest),
    length-append (seal key nonce src).1 rest,
  )

  -- Whatever stands behind the packet
  pub decrypt-sealed_bytes :
      (k : KeyIv) (nonce src rest : List ℕ)
      → length nonce ≡ iv_size
      → length src < 2 ^ 31
      → decrypt aead k (sealed_bytes k.key nonce src rest) (get_buffer_size (length src))
        ≡ some (src, true)
  decrypt-sealed_bytes k nonce src rest h small =
      decrypt_run k (sealed_bytes k.key nonce src rest) nonce text tag src
        (get_buffer_size (length src)) (read-append [] nonce (text ++ (tag ++ rest)) refl h)
        (read-append nonce text (tag ++ rest) h (length_text ∙ sym message_size))
        (subst
          (λ l.
            read (iv_size + get_message_size (get_buffer_size (length src))) mac_size l ≡ some tag)
          (append_assoc nonce text (tag ++ rest))
          (read-append (nonce ++ text) tag rest
            (omega (arith, length-append nonce text, h, length_text, message_size))
            (length-tag k.key nonce src)))
        (open-seal k.key nonce src)
    where
      text : List ℕ
      text = (seal k.key nonce src).0

      tag : List ℕ
      tag = (seal k.key nonce src).1

      length_text : length text ≡ length src
      length_text = length-text k.key nonce src

      message_size : get_message_size (get_buffer_size (length src)) ≡ length src
      message_size = get_message_size-get_buffer_size (length src) small

  module _ (aligned : Bool) (k : KeyIv) (dst src local raw : List ℕ) (iv_length : length k.iv ≡ 16)
      (local_length : length local ≡ 16) (small : length src < 2 ^ 31)
      (room : get_buffer_size (length src) ≤ length dst) where
    abbrev pub iv : List ℕ
    iv = packet_iv k.iv (memory_of aligned dst local)

    abbrev pub nonce : List ℕ
    nonce = take iv_size iv

    abbrev pub text : List ℕ
    text = (seal k.key nonce src).0

    abbrev pub tag : List ℕ
    tag = (seal k.key nonce src).1

    abbrev pub behind_iv : List ℕ
    behind_iv = drop iv_size iv ++ drop 16 dst

    abbrev pub behind_text : List ℕ
    behind_text = drop (length text) behind_iv

    buffer_size : get_buffer_size (length src) ≡ length src + meta_data_size
    unfolding get_buffer_size
    buffer_size = omega arith

    length-iv : length iv ≡ 16
    length-iv = ground (arith, iv_length, local_length, room, buffer_size, length-take 16 dst)

    length-nonce : length nonce ≡ iv_size
    length-nonce = omega (arith, length-iv, length-take iv_size iv)

    length-behind_iv : length behind_iv + iv_size ≡ length dst
    length-behind_iv = omega (
      arith,
      room,
      buffer_size,
      length-iv,
      length-append (drop iv_size iv) (drop 16 dst),
      length-drop iv_size iv,
      length-drop 16 dst,
    )

    iv_split : iv ++ drop 16 dst ≡ nonce ++ behind_iv
    iv_split =
        ap (λ l. l ++ drop 16 dst) (sym (take-append-drop iv_size iv))
        ∙ append_assoc nonce (drop iv_size iv) (drop 16 dst)

    abbrev pub rest : List ℕ
    rest = drop (length tag) behind_text

    wrote_iv : write 0 iv dst ≡ some (nonce ++ behind_iv)
    wrote_iv =
        write-rest [] iv dst refl (omega (arith, length-iv, room, buffer_size))
        ∙ ap some (ap (λ n. iv ++ drop n dst) length-iv ∙ iv_split)

    wrote_text : write iv_size text (nonce ++ behind_iv) ≡ some (nonce ++ (text ++ behind_text))
    wrote_text =
        write-rest nonce text behind_iv length-nonce
          (omega (arith, length-text k.key nonce src, length-behind_iv, room, buffer_size))

    wrote_tag :
        write (iv_size + length src) tag (nonce ++ (text ++ behind_text))
        ≡ some (sealed_bytes k.key nonce src rest)
    wrote_tag =
        subst (λ l. write (iv_size + length src) tag l ≡ some (nonce ++ (text ++ (tag ++ rest))))
          (append_assoc nonce text behind_text)
          (write-rest (nonce ++ text) tag behind_text
              (omega (arith, length-append nonce text, length-nonce, length-text k.key nonce src))
              (omega (
                arith,
                length-text k.key nonce src,
                length-tag k.key nonce src,
                length-behind_iv,
                room,
                buffer_size,
                length-drop (length text) behind_iv,
              ))
            ∙ ap some (append_assoc nonce text (tag ++ rest)))

    pub length-rest : length rest + length src + meta_data_size ≡ length dst
    length-rest = omega (
      arith,
      length-text k.key nonce src,
      length-tag k.key nonce src,
      length-behind_iv,
      room,
      buffer_size,
      length-drop (length tag) behind_text,
      length-drop (length text) behind_iv,
    )

    pub encrypt-sealed_bytes :
        encrypt aead aligned k dst src local raw
        ≡ some (
          record k { iv = inc raw (memory_of aligned dst local) 1 },
          sealed_bytes k.key nonce src rest,
        )
    encrypt-sealed_bytes =
        encrypt_run aligned k _ dst src local raw iv nonce (nonce ++ behind_iv)
          (nonce ++ (text ++ behind_text)) (sealed_bytes k.key nonce src rest)
          (get_packet_iv_run aligned k dst local raw) wrote_iv
          (take-append_eq nonce behind_iv length-nonce) wrote_text wrote_tag

    -- A buffer of at least `get_buffer_size` bytes is enough, and decrypting the packet gives the plain
    -- bytes back with a right tag, for a plain text of less than 2^31 bytes.
    pub decrypt-encrypt :
        (k' : KeyIv) × (out : List ℕ) × (encrypt aead aligned k dst src local raw ≡ some (k', out))
        × (length out ≡ length dst)
        × (decrypt aead k' out (get_buffer_size (length src)) ≡ some (src, true))
    decrypt-encrypt = (
      record k { iv = inc raw (memory_of aligned dst local) 1 },
      sealed_bytes k.key nonce src rest,
      encrypt-sealed_bytes,
      omega (arith, length-rest, length-sealed_bytes k.key nonce src rest length-nonce),
      decrypt-sealed_bytes (record k { iv = inc raw (memory_of aligned dst local) 1 }) nonce src
          rest length-nonce small,
    )

-- ===== src/Crypt/Tests.antt =====
-- The theorems about packets at concrete inputs.
use avocado.Common.{
  ℕ, ◌≡◌, refl, ◌⊎◌, true, false, none, some, List, [], ◌∷◌, ◌++◌, length, replicate, arith,
  if◌then◌else◌, take,
}
use avocado.Common.Bytes.{le_bytes, le_value}
use avocado.Crypt.KeyIv.{KeyIv, words_eq, get_packet_iv, iv_repeats}
use avocado.Crypt.PacketSsl.{get_buffer_size, encrypt, decrypt}
use avocado.Crypt.PacketSsl.Layout.{decrypt-encrypt}
use avocado.Crypt.Sample.{tagging}
use avocado.Crypt.CipherSsl
use avocado.Crypt.CipherSsl.{Evp, CipherSsl, Outcome, Succeeds}
use avocado.Crypt.CipherSsl.Gcm.{Gcm, encrypt_run, encrypt_outcome, cipher_refines}

abbrev start : KeyIv
start = record { key = replicate 16 1; iv = replicate 16 5 }

abbrev buffer : List ℕ
buffer = replicate 31 0

decrypt-encrypt_example :
    (k' : KeyIv) × (out : List ℕ) × (encrypt tagging true start buffer
        (1 ∷ 2 ∷ 3 ∷ [])
        (replicate 16 9)
        (replicate 16 8)
      ≡ some (k', out))
    × (length out ≡ 31)
    × (decrypt tagging k' out (get_buffer_size 3) ≡ some (1 ∷ 2 ∷ 3 ∷ [], true))
unfolding get_buffer_size
decrypt-encrypt_example =
    decrypt-encrypt tagging true start buffer (1 ∷ 2 ∷ 3 ∷ []) (replicate 16 9) (replicate 16 8)
      refl refl (omega arith) (omega arith)

-- The IVs of three packets over the same memory
abbrev first : KeyIv
first = record { key = replicate 16 1; iv = 10 ∷ (replicate 11 9 ++ replicate 4 8) }

iv_repeats_example : words_eq first.iv first.iv ≡ true
unfolding get_packet_iv words_eq le_value le_bytes
iv_repeats_example =
    iv_repeats false buffer (replicate 16 9) (replicate 16 8) start first first first
      (replicate 16 5) first.iv first.iv refl refl refl

-- A library of OpenSSL that encrypts as `tagging` does
abbrev plain_evp : Evp
plain_evp = record {
  Ctx = ℕ;
  new = some 0;
  init = λ e ctx key iv. some 1;
  update = λ e ctx src. (true, src, 2);
  final = λ e ctx. (true, [], ctx);
  get_tag = λ ctx. some (replicate 16 7);
  set_tag = λ ctx tag. some 3;
}

plain-Gcm : Gcm plain_evp tagging
plain-Gcm = record {
  context = 0;
  ready = λ e key iv. 1;
  updated = λ e key iv src. 2;
  tagged = λ key iv src tag. 3;
  text = λ key iv src. src;
  gives = refl;
  starts = λ e key iv. refl;
  encrypts = λ key iv plain. refl;
  encrypt_ends = λ key iv plain. refl;
  tags = λ key iv plain. refl;
  decrypts = λ key iv src. refl;
  takes_tag = λ key iv src tag. refl;
  decrypt_ends = λ key iv src tag. refl;
  opens = λ key iv src tag. refl;
  streams = λ key iv plain n. refl;
  length-text = λ key iv src. refl;
}

abbrev ssl : CipherSsl
ssl = record { key = replicate 16 1; iv = replicate 12 2 }

cipher_refines_example :
    (CipherSsl.encrypt plain_evp ssl (9 ∷ 9 ∷ 9 ∷ []) (5 ∷ 6 ∷ []) (replicate 16 0)
      ≡ some (record { ok = true; dst = 5 ∷ 6 ∷ 9 ∷ []; mac = replicate 16 7 }))
    × (r : Outcome) × (CipherSsl.decrypt plain_evp ssl
          (9 ∷ 9 ∷ 9 ∷ [])
          (5 ∷ 6 ∷ [])
          (replicate 16 0)
        ≡ some r)
    × ((if r.ok then some (take 2 r.dst) else none) ≡ some (5 ∷ 6 ∷ []))
cipher_refines_example =
    cipher_refines plain_evp ssl (9 ∷ 9 ∷ 9 ∷ []) (5 ∷ 6 ∷ []) (replicate 16 0) tagging plain-Gcm
      (omega arith) refl

abbrev sealed : Outcome
sealed = record { ok = true; dst = 5 ∷ 6 ∷ 9 ∷ []; mac = replicate 16 7 }

sealed_run :
    CipherSsl.encrypt plain_evp ssl (9 ∷ 9 ∷ 9 ∷ []) (5 ∷ 6 ∷ []) (replicate 16 0) ≡ some sealed
sealed_run =
    encrypt_run plain_evp ssl (9 ∷ 9 ∷ 9 ∷ []) (5 ∷ 6 ∷ []) (replicate 16 0) tagging plain-Gcm
      (omega arith)

encrypt_outcome_example :
    ((sealed.ok ≡ true) × Succeeds plain_evp ssl (5 ∷ 6 ∷ []) sealed.mac)
    ⊎ ((sealed.ok ≡ false) × (sealed.mac ≡ replicate 16 0))
encrypt_outcome_example =
    encrypt_outcome plain_evp ssl (9 ∷ 9 ∷ 9 ∷ []) (5 ∷ 6 ∷ []) (replicate 16 0) sealed sealed_run

-- ===== src/Crypt/CipherSsl.antt =====
-- `CipherSsl` of src/include/crypt/release/encrypt_openssl.h: one encryption or decryption as a chain of
-- calls of OpenSSL, each of which may fail. The calls are arguments; sizes are below `INT_MAX`.
pub mod Gcm
use avocado.Common.{
  ℕ, ◌+◌, ◌≡◌, Bool, true, false, Option, none, some, List, [], ◌∷◌, length, take, if◌then◌else◌,
  ◌>>=◌,
}
use avocado.Common.Bytes.{write}

-- `EVP_CIPHER_CTX_new`, and `EVP_EncryptInit_ex` and so on, or with `false` `EVP_DecryptInit_ex` and so on:
-- none is a call that fails. `update` and `final` write bytes whether they fail or not.
pub record Evp : Type 1 where
  pub Ctx : Type 0
  pub new : Option Ctx
  pub init : Bool → Ctx → (key iv : List ℕ) → Option Ctx
  pub update : Bool → Ctx → List ℕ → Bool × List ℕ × Ctx
  pub final : Bool → Ctx → Bool × List ℕ × Ctx
  pub get_tag : Ctx → Option (List ℕ)
  pub set_tag : Ctx → List ℕ → Option Ctx

pub record CipherSsl : Type 0 where
  pub key : List ℕ
  pub iv : List ℕ

abbrev pub key_size : ℕ
key_size = 16

abbrev pub iv_size : ℕ
iv_size = 12

abbrev pub mac_size : ℕ
mac_size = 16

unfoldable pub create : List ℕ → List ℕ → CipherSsl
create key iv = record { key = take key_size key; iv = take iv_size iv }

-- What a call returns, and what the arrays hold then
pub record Outcome : Type 0 where
  pub ok : Bool
  pub dst : List ℕ
  pub mac : List ℕ

-- Bytes that OpenSSL writes at a place of an array; without any the place does not matter.
unfoldable pub write_out : ℕ → List ℕ → List ℕ → Option (List ℕ)
write_out off [] dst = some dst
write_out off (b ∷ bs) dst = write off (b ∷ bs) dst

module _ (evp : Evp) where
  open evp use {Ctx, new, init, update, final, get_tag, set_tag}

  -- `encrypt_final`, at `dst + len` as `cipher` calls it: its last bytes go to `dst + len + len`.
  unfoldable pub encrypt_final : Ctx → List ℕ → ℕ → List ℕ → Option Outcome
  unfolding write_out
  encrypt_final ctx dst len mac = do
    let (ok, out, ctx') = final true ctx
    dst' ← write_out (len + len) out dst
    some (
        if ok
        then elim (get_tag ctx') [
          | none ↦ record { ok = false; dst = dst'; mac = mac }
          | some tag ↦ record { ok = true; dst = dst'; mac = tag }
        ]
        else record { ok = false; dst = dst'; mac = mac })

  unfoldable pub decrypt_final : Ctx → List ℕ → ℕ → List ℕ → Option Outcome
  unfolding write_out
  decrypt_final ctx dst len mac = elim (set_tag ctx (take mac_size mac)) [
    | none ↦ some (record { ok = false; dst = dst; mac = mac })
    | some ctx' ↦
        let (ok, out, ctx'') = final false ctx' in
        write_out (len + len) out dst >>= λ dst'. some (record { ok = ok; dst = dst'; mac = mac })
  ]

  -- `cipher<init, update, end>`; `none` is a write out of the array.
  unfoldable pub cipher :
      Bool
      → (Ctx → List ℕ → ℕ → List ℕ → Option Outcome)
      → CipherSsl
      → (dst src mac : List ℕ) → Option Outcome
  unfolding write_out
  cipher encrypting end c dst src mac =
      let failed = λ (d : List ℕ). some (record { ok = false; dst = d; mac = mac }) in
      elim new [
        | none ↦ failed dst
        | some ctx ↦ elim (init encrypting ctx c.key c.iv) [
          | none ↦ failed dst
          | some ctx₁ ↦
              let (ok, out, ctx₂) = update encrypting ctx₁ src in
              write_out 0 out dst >>= λ dst₁.
              (if ok then end ctx₂ dst₁ (length out) mac else failed dst₁)
        ]
      ]

  unfoldable pub encrypt : CipherSsl → (dst src mac : List ℕ) → Option Outcome
  unfolding cipher encrypt_final
  encrypt = cipher true encrypt_final

  unfoldable pub decrypt : CipherSsl → (dst src mac : List ℕ) → Option Outcome
  unfolding cipher decrypt_final
  decrypt = cipher false decrypt_final

  -- The calls of OpenSSL that an encryption makes, all with success, and the tag that they give
  pub record Succeeds (c : CipherSsl) (src tag : List ℕ) : Type 0 where
    pub ctx : Ctx
    pub ctx₁ : Ctx
    pub gives : new ≡ some ctx
    pub starts : init true ctx c.key c.iv ≡ some ctx₁
    pub updates : (update true ctx₁ src).0 ≡ true
    pub ends : (final true (update true ctx₁ src).2).0 ≡ true
    pub tags : get_tag (final true (update true ctx₁ src).2).2 ≡ some tag

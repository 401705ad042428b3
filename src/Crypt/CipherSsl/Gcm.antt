-- ===== src/Crypt/CipherSsl/Gcm.antt =====
-- What `CipherSsl` does where OpenSSL implements AES-GCM, and where a call of it fails.
use avocado.Common.{
  ℕ, ◌≤◌, ◌≡◌, ◌⊎◌, refl, subst, ◌∙◌, ap, Bool, true, false, none, some, List, [], ◌∷◌, ◌++◌,
  length, take, take-length, drop, arith, Option-cases, Bool-cases, inl, inr, if◌then◌else◌, ◌>>=◌,
}
use avocado.Common.Bytes.{write-rest, take-append_eq}
use avocado.Crypt.CipherSsl.{
  Evp, CipherSsl, Outcome, Succeeds, write_out, encrypt, decrypt, mac_size,
}
use avocado.Crypt.{Aead}
use avocado.Memtable.Interface as Memtable
use avocado.Store.Table as Store

-- A library of OpenSSL that gives a context, whose calls succeed, and that encrypts and decrypts as
-- `aead` does; AES-GCM encrypts byte by byte, writes nothing at its end, and decrypts whatever the tag.
pub record Gcm (evp : Evp) (aead : Aead) : Type 0 where
  pub context : evp.Ctx
  pub ready : Bool → (key iv : List ℕ) → evp.Ctx
  pub updated : Bool → (key iv src : List ℕ) → evp.Ctx
  pub tagged : (key iv text tag : List ℕ) → evp.Ctx
  pub text : (key iv src : List ℕ) → List ℕ
  pub gives : evp.new ≡ some context
  pub starts : (e : Bool) (key iv : List ℕ) → evp.init e context key iv ≡ some (ready e key iv)
  pub encrypts :
      (key iv plain : List ℕ)
      → evp.update true (ready true key iv) plain
        ≡ (true, (aead.seal key iv plain).0, updated true key iv plain)
  pub encrypt_ends :
      (key iv plain : List ℕ)
      → evp.final true (updated true key iv plain) ≡ (true, [], updated true key iv plain)
  pub tags :
      (key iv plain : List ℕ)
      → evp.get_tag (updated true key iv plain) ≡ some (aead.seal key iv plain).1
  pub decrypts :
      (key iv src : List ℕ)
      → evp.update false (ready false key iv) src
        ≡ (true, text key iv src, updated false key iv src)
  pub takes_tag :
      (key iv src tag : List ℕ)
      → evp.set_tag (updated false key iv src) tag ≡ some (tagged key iv src tag)
  pub decrypt_ends :
      (key iv src tag : List ℕ)
      → evp.final false (tagged key iv src tag)
        ≡ ((aead.open_sealed key iv src tag).1, [], tagged key iv src tag)
  pub opens : (key iv src tag : List ℕ) → (aead.open_sealed key iv src tag).0 ≡ text key iv src
  pub streams :
      (key iv plain : List ℕ) (n : ℕ)
      → text key iv (take n (aead.seal key iv plain).0) ≡ take n plain
  pub length-text : (key iv src : List ℕ) → length (text key iv src) ≡ length src

-- The interface that the key-value store takes
abbrev pub memtable_cipher : Aead → CipherSsl → Memtable.Cipher
memtable_cipher aead c = record {
  encrypt = λ p. aead.seal c.key c.iv p;
  decrypt = λ t m. let (p, ok) = aead.open_sealed c.key c.iv t m in if ok then some p else none;
  decrypt-encrypt =
      λ p. ap (λ (r : List ℕ × Bool). if r.1 then some r.0 else none) (aead.open-seal c.key c.iv p);
}

-- The interface that the hash table takes
abbrev pub store_cipher : (evp : Evp) (aead : Aead) → Gcm evp aead → CipherSsl → Store.Cipher
store_cipher evp aead gcm c = record {
  encrypt = (memtable_cipher aead c).encrypt;
  decrypt = (memtable_cipher aead c).decrypt;
  text = λ t. gcm.text c.key c.iv t;
  decrypt-encrypt = (memtable_cipher aead c).decrypt-encrypt;
  text-take = λ n p. gcm.streams c.key c.iv p n;
}

write_out-rest :
    (out dst : List ℕ)
    → length out ≤ length dst
    → write_out 0 out dst ≡ some (out ++ drop (length out) dst)
unfolding write_out
write_out-rest [] dst fits = refl
write_out-rest (b ∷ bs) dst fits = write-rest [] (b ∷ bs) dst refl fits

module _ (evp : Evp) (c : CipherSsl) (dst src mac : List ℕ) where
  encrypt_ok :
      (r : Outcome) → encrypt evp c dst src mac ≡ some r → r.ok ≡ true → Succeeds evp c src r.mac
  unfolding encrypt
  encrypt_ok r run ok = elim (Option-cases evp.new) [
    | inl fails ↦ absurd (ground (arith, run, ok, fails))
    | inr (ctx, gives) ↦ elim (Option-cases (evp.init true ctx c.key c.iv)) [
      | inl fails ↦ absurd (ground (arith, run, ok, gives, fails))
      | inr (ctx₁, starts) ↦ record {
        ctx = ctx;
        ctx₁ = ctx₁;
        gives = gives;
        starts = starts;
        updates = ground (arith, run, ok, gives, starts);
        ends = ground (arith, run, ok, gives, starts);
        tags = ground (arith, run, ok, gives, starts);
      }
    ]
  ]

  encrypt_failed : (r : Outcome) → encrypt evp c dst src mac ≡ some r → r.ok ≡ false → r.mac ≡ mac
  unfolding encrypt
  encrypt_failed r run bad = ground (arith, run, bad)

  -- An encryption that writes inside its array either returns true, and then every call of OpenSSL has
  -- succeeded and the tag is that of the last one, or it returns false and leaves the tag as it was.
  pub encrypt_outcome :
      (r : Outcome)
      → encrypt evp c dst src mac ≡ some r
      → ((r.ok ≡ true) × Succeeds evp c src r.mac) ⊎ ((r.ok ≡ false) × (r.mac ≡ mac))
  encrypt_outcome r run = elim (Bool-cases r.ok) [
    | inl ok ↦ inl (ok, encrypt_ok r run ok)
    | inr bad ↦ inr (bad, encrypt_failed r run bad)
  ]

  module _ (aead : Aead) (gcm : Gcm evp aead) (fits : length src ≤ length dst) where
    pub encrypt_run :
        encrypt evp c dst src mac
        ≡ some (record {
          ok = true;
          dst = (aead.seal c.key c.iv src).0 ++ drop (length src) dst;
          mac = (aead.seal c.key c.iv src).1;
        })
    unfolding encrypt
    encrypt_run =
        rw
          (
            gcm.gives,
            gcm.starts true c.key c.iv,
            gcm.encrypts c.key c.iv src,
            write_out-rest (aead.seal c.key c.iv src).0 dst
                (omega (arith, aead.length-text c.key c.iv src, fits)),
            ◌>>=◌,
            gcm.encrypt_ends c.key c.iv src,
            gcm.tags c.key c.iv src,
            aead.length-text c.key c.iv src,
          )
          refl

    pub decrypt_run :
        decrypt evp c dst src mac
        ≡ some (record {
          ok = (aead.open_sealed c.key c.iv src (take mac_size mac)).1;
          dst = (aead.open_sealed c.key c.iv src (take mac_size mac)).0 ++ drop (length src) dst;
          mac = mac;
        })
    unfolding decrypt
    decrypt_run =
        rw
          (
            gcm.gives,
            gcm.starts false c.key c.iv,
            gcm.decrypts c.key c.iv src,
            write_out-rest (gcm.text c.key c.iv src) dst
                (omega (arith, gcm.length-text c.key c.iv src, fits)),
            ◌>>=◌,
            gcm.takes_tag c.key c.iv src (take mac_size mac),
            gcm.decrypt_ends c.key c.iv src (take mac_size mac),
            gcm.length-text c.key c.iv src,
            gcm.opens c.key c.iv src (take mac_size mac),
          )
          refl

    -- Over an array of at least the text's size, with a tag of 16 bytes: encryption gives what the store's
    -- interface says, with the array's other bytes as they were, and decryption returns true exactly where
    -- the interface decrypts, with its plain text in front.
    pub cipher_refines :
        length mac ≡ mac_size
        → (encrypt evp c dst src mac
            ≡ some (record {
              ok = true;
              dst = ((memtable_cipher aead c).encrypt src).0 ++ drop (length src) dst;
              mac = ((memtable_cipher aead c).encrypt src).1;
            }))
          × (r : Outcome) × (decrypt evp c dst src mac ≡ some r)
          × ((if r.ok then some (take (length src) r.dst) else none)
              ≡ (memtable_cipher aead c).decrypt src mac)
    cipher_refines size = (
      encrypt_run,
      _,
      decrypt_run,
      rw
          (
            whole_mac,
            take-append_eq (aead.open_sealed c.key c.iv src mac).0 (drop (length src) dst)
                (ap length (gcm.opens c.key c.iv src mac) ∙ gcm.length-text c.key c.iv src),
          )
          refl,
    )
      where
        whole_mac : take mac_size mac ≡ mac
        whole_mac = subst (λ n. take n mac ≡ mac) size (take-length mac)

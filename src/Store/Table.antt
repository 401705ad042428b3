-- ===== src/Store/Table.antt =====
-- `Avocado::Entry` and one bucket of `EHashtable`, with the positions of its list: position 0 is
-- before the first entry, and position `i + 1` is at entry `i`.
use avocado.Common.{
  ℕ, zero, suc, ◌+◌, ◌-◌, ◌*◌, ◌%◌, ◌^◌, ◌≡◌, Bool, true, false, ◌&&◌, Option, none, some, List, [],
  ◌∷◌, ◌++◌, refl, get_elem?, length, take, ◌==◌, if◌then◌else◌, ◌>>=◌,
}
use avocado.Store.Hash.{Openssl, Hash, update_hash}

-- What the table uses of `CipherSsl`: encryption to a text of the same length and a tag, decryption
-- with the tag checked, and the text that a decryption writes whatever the tag is.
pub record Cipher : Type 0 where
  pub encrypt : List ℕ → List ℕ × List ℕ
  pub decrypt : List ℕ → List ℕ → Option (List ℕ)
  pub text : List ℕ → List ℕ
  pub decrypt-encrypt : (p : List ℕ) → decrypt (encrypt p).0 (encrypt p).1 ≡ some p
  pub text-take : (n : ℕ) (p : List ℕ) → text (take n (encrypt p).0) ≡ take n p

-- `hash_`, in `uint64_t`
unfoldable pub hash_from : ℕ → ℕ → List ℕ → ℕ
hash_from mult value [] = value
hash_from mult value (b ∷ bs) = hash_from mult ((value * mult + b) % 2 ^ 64) bs

-- `Entry::hash` and `EHashtable::hash`; `none` is a division by zero.
unfoldable pub key_hash_of : List ℕ → ℕ
unfolding hash_from
key_hash_of key = hash_from 11 7 key % 256

unfoldable pub bucket_of : ℕ → List ℕ → Option ℕ
unfolding hash_from
bucket_of zero key = none
bucket_of (suc n) key = some (hash_from 61 7 key % suc n)

-- `Entry`
pub record Entry : Type 0 where
  pub key_size : ℕ
  pub val_size : ℕ
  pub key_hash : ℕ
  pub key_val : List ℕ
  pub mac : List ℕ

-- `Ret_value`: the position before the entry, and the plain key and value
pub record RetValue : Type 0 where
  pub idx : ℕ
  pub size : ℕ
  pub kv : Option (List ℕ)

abbrev pub keys_eq : List ℕ → List ℕ → Bool
keys_eq [] [] = true
keys_eq (x ∷ xs) (y ∷ ys) = x == y && keys_eq xs ys
keys_eq _ _ = false

-- `insert_after` and `erase_after` at a position, as src/include/list.h has them: an insertion before
-- the first entry leaves the new entry alone.
unfoldable pub insert_after : {A : Type 0} → List A → ℕ → A → Option (List A)
insert_after bucket zero e = some (e ∷ [])
insert_after [] (suc i) e = none
insert_after (x ∷ bucket) (suc zero) e = some (x ∷ e ∷ bucket)
insert_after (x ∷ bucket) (suc (suc i)) e = do rest ← insert_after bucket (suc i) e; some (x ∷ rest)

unfoldable pub erase_after : {A : Type 0} → List A → ℕ → Option (List A)
erase_after [] i = none
erase_after (x ∷ bucket) zero = some bucket
erase_after (x ∷ bucket) (suc i) = do rest ← erase_after bucket i; some (x ∷ rest)

module _ {A : Type 0} where
  pub at_middle :
      (before after : List A) (e : A) → get_elem? (before ++ (e ∷ after)) (length before) ≡ some e
  at_middle [] after e = refl
  at_middle (b ∷ before) after e = at_middle before after e

  pub erase_middle :
      (before after : List A) (e : A)
      → erase_after (before ++ (e ∷ after)) (length before) ≡ some (before ++ after)
  unfolding erase_after
  erase_middle [] after e = refl
  erase_middle (b ∷ before) after e = rw (erase_middle before after e, ◌>>=◌) refl

  pub insert_middle :
      (b : A) (before after : List A) (e : A)
      → insert_after (b ∷ (before ++ after)) (suc (length before)) e
        ≡ some (b ∷ (before ++ (e ∷ after)))
  unfolding insert_after
  insert_middle b [] after e = refl
  insert_middle b (c ∷ before) after e = rw (insert_middle c before after e, ◌>>=◌) refl

module _ (openssl : Openssl) (cipher : Cipher) where
  open cipher use {encrypt, decrypt, text}

  -- The constructor of `Entry`, whose sizes are `uint32_t`: of the bytes it is given, as many are
  -- encrypted as the wrapped sum of the two sizes says.
  unfoldable pub entry_of : ℕ → List ℕ → Entry
  unfolding key_hash_of
  entry_of key_size key_value =
      let key_bytes = key_size % 2 ^ 32 in
      let val_bytes = (length key_value + 2 ^ 64 - key_size) % 2 ^ 32 in
      let sealed = encrypt (take ((key_bytes + val_bytes) % 2 ^ 32) key_value) in
      record {
        key_size = key_bytes;
        val_size = val_bytes;
        key_hash = key_hash_of (take key_bytes key_value);
        key_val = sealed.0;
        mac = sealed.1;
      }

  -- `Entry::get` and `Entry::compare`; the tag of the key alone is not looked at.
  unfoldable pub entry_get : Entry → Option (List ℕ)
  entry_get e = decrypt e.key_val e.mac

  unfoldable pub compare : Entry → List ℕ → Option (List ℕ)
  unfolding entry_get
  compare e key =
      if keys_eq (text (take e.key_size e.key_val)) (take e.key_size key) then entry_get e else none

  -- The test of an entry in `find` and `get`
  unfoldable pub match_entry : Entry → List ℕ → Option (List ℕ)
  unfolding compare key_hash_of
  match_entry e key =
      if e.key_size == length key && (e.key_hash == key_hash_of key) then compare e key else none

  -- `find`, from position `last` on: whether there is an entry, `Ret_value`, and the hash over the
  -- entries before it. `none` is a hash that does not come to an end.
  unfoldable pub find :
      ℕ → List Entry → List ℕ → ℕ → Hash openssl → Option (Bool × RetValue × Hash openssl)
  find fuel [] key last h = some (false, record { idx = last; size = 0; kv = none }, h)
  find fuel (e ∷ bucket) key last h =
      let next : Option (Bool × RetValue × Hash openssl) = (do
        h' ← update_hash openssl fuel h e.mac
        find fuel bucket key (last + 1) h') in
      elim (match_entry e key) [
        | some plain ↦ some (
          true,
          record { idx = last; size = (e.key_size + e.val_size) % 2 ^ 32; kv = some plain },
          h,
        )
        | none ↦ next
      ]

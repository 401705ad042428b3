-- ===== src/Store/Get.antt =====
-- `EHashtable::get`, and the table around its buckets. `SafeIter` runs over the whole bucket, and what
-- was found counts if the hash over it agrees.
use avocado.Common.{
  ℕ, ◌-◌, zero, suc, ◌+◌, ◌%◌, ◌^◌, ◌≤◌, ◌<◌, ◌≡◌, refl, ap, Bool, true, Option, none, some, List,
  [], ◌∷◌, ◌++◌, length, length-take, take, take-length, subst, get_elem?, set, arith,
  if◌then◌else◌, ◌>>=◌,
}
use avocado.Store.Hash.{Openssl, create, equal, zeros, update_all, hash_zeros, equal-create}
use avocado.Store.Find.{Missing}
use avocado.Store.Put.{put, macs_of, put-Missing, put_found_lem}
use avocado.Store.Table.{
  Cipher, Entry, RetValue, bucket_of, entry_of, entry_get, compare, match_entry, keys_eq,
}

module _ (openssl : Openssl) (cipher : Cipher) where
  open cipher use {encrypt, decrypt, text, decrypt-encrypt, text-take}

  -- `{bucket.cend (), 0, nullptr}`
  abbrev pub at_end : List Entry → RetValue
  at_end bucket = record { idx = suc (length bucket); size = 0; kv = none }

  found_in : RetValue → List Entry → List ℕ → ℕ → RetValue
  found_in other [] key last = other
  found_in other (e ∷ es) key last = elim (match_entry openssl cipher e key) [
    | some plain ↦ record { idx = last; size = (e.key_size + e.val_size) % 2 ^ 32; kv = some plain }
    | none ↦ found_in other es key (last + 1)
  ]

  -- The private `get` and the test of its flag; `none` is a hash that does not come to an end.
  unfoldable pub get : ℕ → List Entry → List ℕ → List ℕ → Option RetValue
  unfolding found_in
  get fuel bucket bucket_hash key = do
    h ← update_all openssl fuel (create openssl) (macs_of openssl cipher bucket)
    some (
        if equal openssl h bucket_hash
        then found_in (at_end bucket) bucket key 0
        else at_end bucket)

  -- The table: buckets with their hashes
  unfoldable pub table_get : ℕ → List (List Entry × List ℕ) → List ℕ → Option RetValue
  unfolding get bucket_of
  table_get fuel table key = do
    i ← bucket_of (length table) key
    (bucket, bucket_hash) ← get_elem? table i
    get fuel bucket bucket_hash key

  unfoldable pub table_put :
      ℕ
      → List (List Entry × List ℕ)
      → ℕ
      → List ℕ
      → (RetValue → Bool)
      → Option (Bool × List (List Entry × List ℕ))
  unfolding put bucket_of
  table_put fuel table key_size key_value accepts = do
    i ← bucket_of (length table) (take key_size key_value)
    (bucket, bucket_hash) ← get_elem? table i
    (ok, bucket', bucket_hash') ←
        put openssl cipher fuel bucket bucket_hash key_size key_value accepts
    some (ok, set table i (bucket', bucket_hash'))

  keys_eq_self : (key : List ℕ) → keys_eq key key ≡ true
  keys_eq_self [] = refl
  keys_eq_self (x ∷ xs) = ground (arith, keys_eq_self xs)

  take-take : (n : ℕ) (l : List ℕ) → take n (take n l) ≡ take n l
  take-take zero l = refl
  take-take (suc n) [] = refl
  take-take (suc n) (x ∷ l) = ap (◌∷◌ x) (take-take n l)

  -- An entry is found under its own key.
  pub match_entry-entry_of :
      (key_size : ℕ) (key_value : List ℕ)
      → key_size ≤ length key_value
      → length key_value < 2 ^ 32
      → match_entry openssl cipher
          (entry_of openssl cipher key_size key_value)
          (take key_size key_value)
        ≡ some key_value
  unfolding match_entry entry_of compare entry_get
  match_entry-entry_of key_size key_value fits small =
      rw
        (
          same_size,
          all_bytes,
          text-take key_size key_value,
          take-take key_size key_value,
          keys_eq_self (take key_size key_value),
          decrypt-encrypt key_value,
        )
        (ground (arith, length-take key_size key_value, fits))
    where
      same_size : key_size % 2 ^ 32 ≡ key_size
      same_size = omega arith

      all_bytes :
          take ((key_size + (length key_value + 2 ^ 64 - key_size) % 2 ^ 32) % 2 ^ 32) key_value
          ≡ key_value
      all_bytes = subst (λ n. take n key_value ≡ key_value) (omega arith) (take-length key_value)

  found_in_middle :
      (other : RetValue) (before after : List Entry) (e : Entry) (key plain : List ℕ) (last : ℕ)
      → Missing openssl cipher before key
      → match_entry openssl cipher e key ≡ some plain
      → (found_in other (before ++ (e ∷ after)) key last).kv ≡ some plain
  unfolding found_in
  found_in_middle other [] after e key plain last m found = rw (found_in, found) refl
  found_in_middle other (b ∷ before) after e key plain last m found =
      rw (found_in, m.0) (found_in_middle other before after e key plain (last + 1) m.1 found)

  module _ (ctx : openssl.Ctx) (gives : openssl.new ≡ some ctx) where
    get_middle :
        (fuel : ℕ) (before after : List Entry) (e : Entry) (key plain : List ℕ)
        → Missing openssl cipher before key
        → match_entry openssl cipher e key ≡ some plain
        → (r : RetValue) × (get fuel (before ++ (e ∷ after)) zeros key ≡ some r)
          × (r.kv ≡ some plain)
    unfolding get
    get_middle fuel before after e key plain m found =
        let bucket = before ++ (e ∷ after) in
        (
          found_in (at_end bucket) bucket key 0,
          rw
              (
                (hash_zeros openssl ctx fuel (macs_of openssl cipher bucket) gives).0,
                ◌>>=◌,
                equal-create openssl ctx gives,
              )
              refl,
          found_in_middle (at_end bucket) before after e key plain 0 m found,
        )

    -- After a put of a new key that `accepts` lets pass, a get of the key finds the key and the value, where
    -- the two together have less than 2^32 bytes and the list of the bucket's tags hashes to zeros.
    pub get-put-Missing :
        (fuel : ℕ) (bucket : List Entry) (key_size : ℕ) (key_value : List ℕ)
        (accepts : RetValue → Bool)
        → Missing openssl cipher bucket (take key_size key_value)
        → accepts (record { idx = length bucket; size = 0; kv = none }) ≡ true
        → key_size ≤ length key_value
        → length key_value < 2 ^ 32
        → (bucket' : List Entry) × (r : RetValue) × (put openssl cipher fuel bucket zeros key_size
              key_value accepts
            ≡ some (true, bucket', zeros))
          × (get fuel bucket' zeros (take key_size key_value) ≡ some r)
          × (r.kv ≡ some key_value)
    get-put-Missing fuel bucket key_size key_value accepts m passes fits small =
        let (r, runs, reads) =
          get_middle fuel bucket [] (entry_of openssl cipher key_size key_value)
            (take key_size key_value) key_value m
            (match_entry-entry_of key_size key_value fits small) in
        (
          bucket ++ (entry_of openssl cipher key_size key_value ∷ []),
          r,
          put-Missing openssl cipher ctx gives fuel bucket key_size key_value accepts m passes,
          runs,
          reads,
        )

    -- A put over an entry that is behind others in its bucket, which `accepts` lets pass, leaves all other
    -- entries as they are, and a get of the key finds the new key and value, where the two together have
    -- less than 2^32 bytes.
    pub get-put-found :
        (fuel : ℕ) (b : Entry) (before after : List Entry) (e : Entry) (key_size : ℕ)
        (key_value plain : List ℕ) (accepts : RetValue → Bool)
        → Missing openssl cipher (b ∷ before) (take key_size key_value)
        → match_entry openssl cipher e (take key_size key_value) ≡ some plain
        → accepts (record {
          idx = suc (length before);
          size = (e.key_size + e.val_size) % 2 ^ 32;
          kv = some plain;
        })
          ≡ true
        → key_size ≤ length key_value
        → length key_value < 2 ^ 32
        → (new : Entry) × (r : RetValue) × (put openssl cipher fuel
              (b ∷ (before ++ (e ∷ after)))
              zeros
              key_size
              key_value
              accepts
            ≡ some (true, b ∷ (before ++ (new ∷ after)), zeros))
          × (get fuel (b ∷ (before ++ (new ∷ after))) zeros (take key_size key_value) ≡ some r)
          × (r.kv ≡ some key_value)
    get-put-found fuel b before after e key_size key_value plain accepts m found passes fits small =
        let new = entry_of openssl cipher key_size key_value in
        let (r, runs, reads) =
          get_middle fuel (b ∷ before) after new (take key_size key_value) key_value m
            (match_entry-entry_of key_size key_value fits small) in
        (
          new,
          r,
          put_found_lem openssl cipher ctx gives fuel b before after e key_size key_value plain
              accepts m found passes,
          runs,
          reads,
        )

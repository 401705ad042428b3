-- ===== src/Store/Put.antt =====
-- `EHashtable::put` and `get` on a bucket, and what a put does to the bucket.
use avocado.Common.{
  ℕ, ◌%◌, ◌^◌, suc, ◌+◌, ◌≡◌, refl, ◌∙◌, Bool, true, false, not, Option, none, some, List, [], ◌∷◌,
  ◌++◌, length, take, drop, get_elem?, arith, if◌then◌else◌, ◌>>=◌,
}
use avocado.Store.Hash.{
  Openssl, Hash, create, update_hash, finalize, copy, equal, zeros, update_create, finalize-create,
  copy-create, equal-create, update_all, mac_bytes, hash_zeros,
}
use avocado.Store.Table.{
  Cipher, Entry, RetValue, insert_after, erase_after, entry_of, match_entry, find, at_middle,
  erase_middle, insert_middle,
}
use avocado.Store.Find.{Missing, missing_at, found_at, find-Missing, find_found}

module _ (openssl : Openssl) (cipher : Cipher) where
  abbrev pub macs_of : List Entry → List (List ℕ)
  macs_of [] = []
  macs_of (e ∷ es) = e.mac ∷ macs_of es

  -- The outcome of a put: `ok`, the bucket, and its hash
  abbrev Outcome : Type 0
  Outcome = Bool × List Entry × List ℕ

  put_new : ℕ → List Entry → List ℕ → Entry → RetValue → Hash openssl → Option Outcome
  put_new fuel bucket bucket_hash e ret h =
      let accepted : Option Outcome = (do
        new_hash ← update_hash openssl fuel (copy openssl h) e.mac
        bucket' ← insert_after bucket ret.idx e
        some (true, bucket', take 1 (finalize openssl new_hash).mac ++ drop 1 bucket_hash)) in
      if equal openssl (finalize openssl h) bucket_hash
      then accepted
      else some (false, bucket, bucket_hash)

  -- The replaced entry is at position `ret.idx + 1`.
  put_found : ℕ → List Entry → List ℕ → Entry → RetValue → Hash openssl → Option Outcome
  put_found fuel bucket bucket_hash e ret h = do
    old ← get_elem? bucket ret.idx
    new_hash ← update_hash openssl fuel (copy openssl h) e.mac
    h₁ ← update_hash openssl fuel h old.mac
    erased ← erase_after bucket ret.idx
    bucket' ← insert_after erased ret.idx e
    let rest = macs_of (drop (ret.idx + 1) bucket')
    h₂ ← update_all openssl fuel h₁ rest
    new_hash₂ ← update_all openssl fuel new_hash rest
    some (
      equal openssl (finalize openssl h₂) bucket_hash,
      bucket',
      take mac_bytes (finalize openssl new_hash₂).mac,
    )

  -- The private `put`; a key and its value come in one array.
  unfoldable pub put : ℕ → List Entry → List ℕ → ℕ → List ℕ → (RetValue → Bool) → Option Outcome
  unfolding put_new put_found
  put fuel bucket bucket_hash key_size key_value accepts = do
    (updated, ret, h) ← find openssl cipher fuel bucket (take key_size key_value) 0 (create openssl)
    let e = entry_of openssl cipher key_size key_value
    (if not (accepts ret)
        then some (false, bucket, bucket_hash)
        else if updated
        then put_found fuel bucket bucket_hash e ret h
        else put_new fuel bucket bucket_hash e ret h)

  module _ (ctx : openssl.Ctx) (gives : openssl.new ≡ some ctx) where
    create_mac : (create openssl).mac ≡ zeros
    create_mac = (hash_zeros openssl ctx 0 [] gives).2

    insert_last :
        (b : Entry) (bucket : List Entry) (e : Entry)
        → insert_after (b ∷ bucket) (length (b ∷ bucket)) e ≡ some (b ∷ (bucket ++ (e ∷ [])))
    unfolding insert_after
    insert_last b [] e = refl
    insert_last b (c ∷ bucket) e = rw (insert_last c bucket e, ◌>>=◌) refl

    insert_new :
        (bucket : List Entry) (e : Entry)
        → insert_after bucket (length bucket) e ≡ some (bucket ++ (e ∷ []))
    unfolding insert_after
    insert_new [] e = refl
    insert_new (b ∷ bucket) e = insert_last b bucket e

    -- A put of a key that no entry has, which `accepts` lets pass, adds the entry at the bucket's end.
    pub put-Missing :
        (fuel : ℕ) (bucket : List Entry) (key_size : ℕ) (key_value : List ℕ)
        (accepts : RetValue → Bool)
        → Missing openssl cipher bucket (take key_size key_value)
        → accepts (record { idx = length bucket; size = 0; kv = none }) ≡ true
        → put fuel bucket zeros key_size key_value accepts
          ≡ some (true, bucket ++ (entry_of openssl cipher key_size key_value ∷ []), zeros)
    unfolding put
    put-Missing fuel bucket key_size key_value accepts m passes =
        rw
          (
            find-Missing openssl cipher ctx gives fuel bucket (take key_size key_value) 0 m
                ∙ missing_at openssl cipher ctx gives {j = length bucket} (omega arith),
            ◌>>=◌,
            passes,
            finalize-create openssl ctx gives,
            equal-create openssl ctx gives,
            copy-create openssl ctx gives,
            update_create openssl ctx gives fuel (entry_of openssl cipher key_size key_value).mac,
            insert_new bucket (entry_of openssl cipher key_size key_value),
          )
          (rw (finalize-create openssl ctx gives, create_mac) refl)

    -- A put of a key that an entry behind others has, which `accepts` lets pass, replaces that entry.
    pub put_found_lem :
        (fuel : ℕ) (b : Entry) (before after : List Entry) (e : Entry) (key_size : ℕ)
        (key_value plain : List ℕ) (accepts : RetValue → Bool)
        → Missing openssl cipher (b ∷ before) (take key_size key_value)
        → match_entry openssl cipher e (take key_size key_value) ≡ some plain
        → accepts (record {
          idx = suc (length before);
          size = (e.key_size + e.val_size) % 2 ^ 32;
          kv = some plain;
        })
          ≡ true
        → put fuel (b ∷ (before ++ (e ∷ after))) zeros key_size key_value accepts
          ≡ some (true, b ∷ (before ++ (entry_of openssl cipher key_size key_value ∷ after)), zeros)
    unfolding put
    put_found_lem fuel b before after e key_size key_value plain accepts m found passes =
        rw
          (
            find_found openssl cipher ctx gives fuel (b ∷ before) after e (take key_size key_value)
                  plain 0 m found
                ∙ found_at openssl cipher ctx gives {j = suc (length before)} e plain (omega arith),
            ◌>>=◌,
            passes,
            at_middle (b ∷ before) after e,
            copy-create openssl ctx gives,
            update_create openssl ctx gives fuel (entry_of openssl cipher key_size key_value).mac,
            update_create openssl ctx gives fuel e.mac,
            erase_middle (b ∷ before) after e,
            insert_middle b before after (entry_of openssl cipher key_size key_value),
          )
          (rw
            (
              (hash_zeros openssl ctx fuel
                  (macs_of (
                    drop (suc (length before) + 1)
                      (b ∷ (before ++ (entry_of openssl cipher key_size key_value ∷ after)))))
                  gives).0,
              ◌>>=◌,
              finalize-create openssl ctx gives,
              equal-create openssl ctx gives,
              create_mac,
            )
            refl)

    -- A put of the key of the bucket's first entry leaves the new entry alone: the other entries of
    -- the bucket are lost.
    pub put_first_lem :
        (fuel : ℕ) (after : List Entry) (e : Entry) (key_size : ℕ) (key_value plain : List ℕ)
        (accepts : RetValue → Bool)
        → match_entry openssl cipher e (take key_size key_value) ≡ some plain
        → accepts (record { idx = 0; size = (e.key_size + e.val_size) % 2 ^ 32; kv = some plain })
          ≡ true
        → put fuel (e ∷ after) zeros key_size key_value accepts
          ≡ some (true, entry_of openssl cipher key_size key_value ∷ [], zeros)
    unfolding put insert_after erase_after update_all entry_of
    put_first_lem fuel after e key_size key_value plain accepts found passes =
        rw
          (
            find_found openssl cipher ctx gives fuel [] after e (take key_size key_value) plain 0
                  refl found
                ∙ found_at openssl cipher ctx gives {j = 0} e plain (omega arith),
            ◌>>=◌,
            passes,
            copy-create openssl ctx gives,
            update_create openssl ctx gives fuel (entry_of openssl cipher key_size key_value).mac,
            update_create openssl ctx gives fuel e.mac,
            finalize-create openssl ctx gives,
            equal-create openssl ctx gives,
            create_mac,
          )
          refl

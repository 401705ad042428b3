-- ===== src/Store/Find.antt =====
-- What the search of `EHashtable` in a bucket finds, in src/include/store.h, where the hash is as it was created.
use avocado.Common.{
  ℕ, ◌%◌, ◌^◌, ◌+◌, ◌≡◌, Bool, true, false, Option, none, some, List, [], ◌∷◌, ◌++◌, length, arith,
  ◌>>=◌,
}
use avocado.Store.Hash.{Openssl, Hash, create, update_create}
use avocado.Store.Table.{Cipher, Entry, RetValue, match_entry, find}

module _ (openssl : Openssl) (cipher : Cipher) where
  -- No entry of the bucket is the key's.
  abbrev pub Missing : List Entry → List ℕ → Type 0
  Missing [] key = true ≡ true
  Missing (e ∷ es) key = (match_entry openssl cipher e key ≡ none) × Missing es key

  module _ (ctx : openssl.Ctx) (gives : openssl.new ≡ some ctx) where
    pub missing_at :
        {i j : ℕ}
        → i ≡ j
        → ◌≡◌ {A = Option (Bool × RetValue × Hash openssl)}
            (some (false, record { idx = i; size = 0; kv = none }, create openssl))
            (some (false, record { idx = j; size = 0; kv = none }, create openssl))
    missing_at e = λ k. some (false, record { idx = e k; size = 0; kv = none }, create openssl)

    pub found_at :
        {i j : ℕ} (e : Entry) (plain : List ℕ)
        → i ≡ j
        → ◌≡◌ {A = Option (Bool × RetValue × Hash openssl)}
            (some (
              true,
              record { idx = i; size = (e.key_size + e.val_size) % 2 ^ 32; kv = some plain },
              create openssl,
            ))
            (some (
              true,
              record { idx = j; size = (e.key_size + e.val_size) % 2 ^ 32; kv = some plain },
              create openssl,
            ))
    found_at e plain q = λ k. some (
      true,
      record { idx = q k; size = (e.key_size + e.val_size) % 2 ^ 32; kv = some plain },
      create openssl,
    )

    pub find-Missing :
        (fuel : ℕ) (bucket : List Entry) (key : List ℕ) (last : ℕ)
        → Missing bucket key
        → find openssl cipher fuel bucket key last (create openssl)
          ≡ some (false, record { idx = last + length bucket; size = 0; kv = none }, create openssl)
    unfolding find
    find-Missing fuel [] key last m = missing_at (omega arith)
    find-Missing fuel (e ∷ es) key last m =
        rw
          (
            find,
            m.0,
            update_create openssl ctx gives fuel e.mac,
            ◌>>=◌,
            find-Missing fuel es key (last + 1) m.1,
          )
          (missing_at (omega arith))

    pub find_found :
        (fuel : ℕ) (before after : List Entry) (e : Entry) (key plain : List ℕ) (last : ℕ)
        → Missing before key
        → match_entry openssl cipher e key ≡ some plain
        → find openssl cipher fuel (before ++ (e ∷ after)) key last (create openssl)
          ≡ some (
            true,
            record {
              idx = last + length before;
              size = (e.key_size + e.val_size) % 2 ^ 32;
              kv = some plain;
            },
            create openssl,
          )
    unfolding find
    find_found fuel [] after e key plain last m found =
        rw (find, found) (found_at e plain (omega arith))
    find_found fuel (x ∷ before) after e key plain last m found =
        rw
          (
            find,
            m.0,
            update_create openssl ctx gives fuel x.mac,
            ◌>>=◌,
            find_found fuel before after e key plain (last + 1) m.1 found,
          )
          (found_at e plain (omega arith))

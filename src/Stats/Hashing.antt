-- ===== src/Stats/Hashing.antt =====
-- `HashSsl` of a build that collects statistics, in src/include/stats/debug/stats/encrypt_openssl.h: a hash
-- that counts what it takes and how long that takes.
use avocado.Common.{
  ℕ, ◌+◌, ◌%◌, ◌^◌, ◌<◌, ◌≡◌, refl, Option, some, List, [], ◌∷◌, ◌++◌, length, map, arith, ◌>>=◌,
  none, ap, ap₂, ◌∙◌, fun_ext,
}
use avocado.Stats.Totals.{sum}
use avocado.Stats.{FetchAdd, add_data, take_time_diff}
use avocado.Store.Hash
use avocado.Store.Hash.{Openssl, Hash}

-- The bytes of an array of elements
abbrev pub bytes_of : List (List ℕ) → List ℕ
bytes_of [] = []
bytes_of (e ∷ es) = e ++ bytes_of es

-- A call of `update` with an array of `n` elements, each given by its bytes
pub record Update : Type 0 where
  pub src : List (List ℕ)
  pub before : ℕ
  pub after : ℕ

module _ (openssl : Openssl) where
  pub record HashSsl : Type 0 where
    pub base : Hash openssl
    pub bytes : ℕ
    pub time : ℕ

  unfoldable pub create : HashSsl
  create = record { base = Hash.create openssl; bytes = 0; time = 0 }

  unfoldable pub update : ℕ → HashSsl → Update → Option HashSsl
  update fuel h u = do
    base ← Hash.update_hash openssl fuel h.base (bytes_of u.src)
    some (record {
      base = base;
      bytes = (h.bytes + length u.src) % 2 ^ 64;
      time = (h.time + take_time_diff u.before u.after) % 2 ^ 64;
    })

  -- The hash and its additions to `hash_ssl_stats.data`
  unfoldable pub finalize : HashSsl → (before after : ℕ) → HashSsl × List FetchAdd
  finalize h before after =
      let time = (h.time + take_time_diff before after) % 2 ^ 64 in
      (record h { base = Hash.finalize openssl h.base; time = time }, add_data h.bytes time)

  unfoldable pub update_all : ℕ → HashSsl → List Update → Option HashSsl
  unfolding update
  update_all fuel h [] = some h
  update_all fuel h (u ∷ us) = do h' ← update fuel h u; update_all fuel h' us

  abbrev pub bytes_of_all : List Update → List (List ℕ)
  bytes_of_all = map (λ u. bytes_of u.src)

  abbrev pub n_elements : Update → ℕ
  n_elements u = length u.src

  abbrev pub duration : Update → ℕ
  duration u = take_time_diff u.before u.after

  -- The state after some updates, around the hash that the base class has then
  abbrev counted : HashSsl → List Update → Hash openssl → HashSsl
  counted h us base = record {
    base = base;
    bytes = (h.bytes + sum n_elements us) % 2 ^ 64;
    time = (h.time + sum duration us) % 2 ^ 64;
  }

  counted-cons :
      (h : HashSsl) (u : Update) (us : List Update) (b base : Hash openssl)
      → counted
          (record {
            base = b;
            bytes = (h.bytes + length u.src) % 2 ^ 64;
            time = (h.time + take_time_diff u.before u.after) % 2 ^ 64;
          })
          us
          base
        ≡ counted h (u ∷ us) base
  counted-cons h u us b base =
      let bytes : ((h.bytes + length u.src) % 2 ^ 64 + sum n_elements us) % 2 ^ 64
          ≡ (h.bytes + (length u.src + sum n_elements us)) % 2 ^ 64 =
        omega arith in
      let time : ((h.time + duration u) % 2 ^ 64 + sum duration us) % 2 ^ 64
          ≡ (h.time + (duration u + sum duration us)) % 2 ^ 64 =
        omega arith in
      rw (bytes, time) refl

  update_all_run :
      (fuel : ℕ) (h : HashSsl) (us : List Update)
      → h.bytes < 2 ^ 64
      → h.time < 2 ^ 64
      → update_all fuel h us ≡ (do
        base ← Hash.update_all openssl fuel h.base (bytes_of_all us)
        some (counted h us base))
  unfolding update_all update Hash.update_all
  update_all_run fuel h [] small short =
      let bytes : (h.bytes + 0) % 2 ^ 64 ≡ h.bytes = omega (arith, small) in
      let time : (h.time + 0) % 2 ^ 64 ≡ h.time = omega (arith, short) in rw (bytes, time) refl
  update_all_run fuel h (u ∷ us) small short =
      step (λ b. update_all_run fuel (after_u b) us (omega arith) (omega arith))
        (Hash.update_hash openssl fuel h.base (bytes_of u.src))
    where
      after_u : Hash openssl → HashSsl
      after_u b = record {
        base = b;
        bytes = (h.bytes + length u.src) % 2 ^ 64;
        time = (h.time + take_time_diff u.before u.after) % 2 ^ 64;
      }

      step :
          ((b : Hash openssl)
            → update_all fuel (after_u b) us ≡ (do
              base ← Hash.update_all openssl fuel b (bytes_of_all us)
              some (counted (after_u b) us base)))
          → (r : Option (Hash openssl))
          → (do h' ← (do b ← r; some (after_u b)); update_all fuel h' us) ≡ (do
            base ← (do b ← r; Hash.update_all openssl fuel b (bytes_of_all us))
            some (counted h (u ∷ us) base))
      step run none = refl
      step run (some b) =
          run b
          ∙ ap (◌>>=◌ (Hash.update_all openssl fuel b (bytes_of_all us)))
              (fun_ext (λ base. ap some (counted-cons h u us b base)))

  -- A hash that counts runs as the hash that does not, on the same bytes, and what it adds to the counters
  -- when it is finalized is one event, with the time of its calls and with the number of elements that the
  -- updates were given, whatever their size, in the place of the number of bytes.
  pub finalize_lem :
      (fuel : ℕ) (us : List Update) (before after : ℕ)
      → (do h ← update_all fuel create us; some (finalize h before after)) ≡ (do
        base ← Hash.update_all openssl fuel (Hash.create openssl) (bytes_of_all us)
        let time = (sum duration us + take_time_diff before after) % 2 ^ 64
        some (
          record {
            base = Hash.finalize openssl base;
            bytes = sum n_elements us % 2 ^ 64;
            time = time;
          },
          add_data (sum n_elements us % 2 ^ 64) time,
        ))
  unfolding create finalize
  finalize_lem fuel us before after =
      rw (update_all_run fuel create us (omega arith) (omega arith))
        (finalized (Hash.update_all openssl fuel (Hash.create openssl) (bytes_of_all us)))
    where
      bytes_sum : (0 + sum n_elements us) % 2 ^ 64 ≡ sum n_elements us % 2 ^ 64
      bytes_sum = omega arith

      time_sum :
          ((0 + sum duration us) % 2 ^ 64 + take_time_diff before after) % 2 ^ 64
          ≡ (sum duration us + take_time_diff before after) % 2 ^ 64
      time_sum = omega arith

      finalized :
          (r : Option (Hash openssl))
          → (do h ← (do base ← r; some (counted create us base)); some (finalize h before after))
            ≡ (do
              base ← r
              let time = (sum duration us + take_time_diff before after) % 2 ^ 64
              some (
                record {
                  base = Hash.finalize openssl base;
                  bytes = sum n_elements us % 2 ^ 64;
                  time = time;
                },
                add_data (sum n_elements us % 2 ^ 64) time,
              ))
      finalized none = refl
      finalized (some base) =
          ap₂
            (λ bytes time. some (
              record { base = Hash.finalize openssl base; bytes = bytes; time = time },
              add_data bytes time,
            ))
            bytes_sum time_sum

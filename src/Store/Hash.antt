-- ===== src/Store/Hash.antt =====
-- `SplitCipherSsl` at encryption, and `HashSsl`. OpenSSL's contexts are arguments; a null context is
-- none.
pub mod Objects
use avocado.Common.{
  ℕ, ◌≡◌, refl, Bool, true, false, not, ◌&&◌, Option, none, some, List, [], ◌∷◌, length, replicate,
  take, if◌then◌else◌, ◌>>=◌, zero, suc, ◌==◌, arith,
}

-- What is used of OpenSSL: a new context, which may fail, and whether each call succeeds, with the
-- number of bytes that an update writes.
pub record Openssl : Type 1 where
  pub Ctx : Type 0
  pub new : Option Ctx
  pub init : Option Ctx → Bool × Option Ctx
  pub update : Option Ctx → List ℕ → Bool × ℕ × Option Ctx
  pub final : Option Ctx → Bool × List ℕ × Option Ctx

abbrev pub mac_bytes : ℕ
mac_bytes = 16

abbrev pub zeros : List ℕ
zeros = replicate mac_bytes 0

abbrev is_null {ℓ} : {A : Type ℓ} → Option A → Bool
is_null none = true
is_null (some a) = false

module _ (openssl : Openssl) where
  open openssl use {Ctx, new, init, update, final}

  -- `HashSsl`: `valid`, `_final`, `pState` and `mac`
  pub record Hash : Type 0 where
    pub valid : Bool
    pub is_final : Bool
    pub state : Option Ctx
    pub mac : List ℕ

  -- `init` compares the null pointer with the new context, and does not assign it.
  unfoldable pub create : Hash
  create = record {
    valid = if is_null new then (init none).0 else false;
    is_final = false;
    state = none;
    mac = zeros;
  }

  -- `update_`: `dst_pos` stays 0, so a call that writes bytes is made again. `none` means that the
  -- fuel ran out.
  unfoldable pub update_loop : ℕ → Hash → List ℕ → Option Hash
  update_loop zero h src = none
  update_loop (suc fuel) h src =
      let (valid, len, state) = update h.state src in
      let h' = record h { valid = valid; state = state } in
      let again = update_loop fuel h' src in
      if not (len == 0) && not (length src == 0) && valid then again else some h'

  -- `update`
  unfoldable pub update_hash : ℕ → Hash → List ℕ → Option Hash
  unfolding update_loop
  update_hash fuel h src = if h.valid && not h.is_final then update_loop fuel h src else some h

  unfoldable pub finalize : Hash → Hash
  finalize h =
      let (valid, mac, state) = final h.state in
      if h.valid && not h.is_final
      then record h { valid = valid; is_final = true; state = state; mac = take mac_bytes mac }
      else h

  -- The copy constructor: the context is copied into a null pointer, which fails.
  unfoldable pub copy : Hash → Hash
  copy h = record h { state = none; mac = if h.is_final then h.mac else zeros }

  -- The move constructor, with what is left of the other hash
  unfoldable pub move : Hash → Hash × Hash
  move h = (
    record h { mac = if h.is_final then h.mac else zeros },
    record h { valid = false; state = none },
  )

  -- Assignment of a copy: the own context is freed, and the other one copied into a null pointer.
  unfoldable pub assign : Hash → Hash → Hash
  assign h other = record {
    valid = other.valid;
    is_final = other.is_final;
    state = none;
    mac = other.mac;
  }

  -- Assignment of a moved hash, with what is left of it; the own context is lost.
  unfoldable pub move_assign : Hash → Hash → Hash × Hash
  move_assign h other = (other, record other { valid = false; state = none })

  abbrev bytes_eq : List ℕ → List ℕ → Bool
  bytes_eq [] [] = true
  bytes_eq (x ∷ xs) (y ∷ ys) = x == y && bytes_eq xs ys
  bytes_eq _ _ = false

  unfoldable pub equal : Hash → List ℕ → Bool
  equal h other = bytes_eq h.mac other

  unfoldable pub update_all : ℕ → Hash → List (List ℕ) → Option Hash
  unfolding update_hash
  update_all fuel h [] = some h
  update_all fuel h (src ∷ srcs) = do h' ← update_hash fuel h src; update_all fuel h' srcs

  module _ (ctx : Ctx) (h : new ≡ some ctx) where
    pub update_create : (fuel : ℕ) (src : List ℕ) → update_hash fuel create src ≡ some create
    unfolding create update_hash
    update_create fuel src = ground (arith, h)

    pub finalize-create : finalize create ≡ create
    unfolding create finalize
    finalize-create = ground (arith, h)

    pub copy-create : copy create ≡ create
    unfolding create copy
    copy-create = refl

    pub create-valid : create.valid ≡ false
    unfolding create
    create-valid = ground (arith, h)

    pub move-create : move create ≡ (create, create)
    unfolding create move
    move-create = ground (arith, h)

    pub assign-create : assign create create ≡ create
    unfolding create assign
    assign-create = refl

    pub move_assign-create : move_assign create create ≡ (create, create)
    unfolding create move_assign
    move_assign-create = ground (arith, h)

    pub equal-create : equal create zeros ≡ true
    unfolding create equal
    equal-create = refl

  -- Where OpenSSL gives a context, a hash is never valid: whatever it is given, it stays as it was
  -- created, with a code of zeros.
  pub hash_zeros :
      (ctx : Ctx) (fuel : ℕ) (srcs : List (List ℕ))
      → new ≡ some ctx
      → (update_all fuel create srcs ≡ some create)
        × (finalize create ≡ create)
        × (create.mac ≡ zeros)
  unfolding create update_all finalize
  hash_zeros ctx fuel [] h = ground (arith, h)
  hash_zeros ctx fuel (src ∷ srcs) h = ground (arith, h, hash_zeros ctx fuel srcs)

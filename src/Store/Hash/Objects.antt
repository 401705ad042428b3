-- ===== src/Store/Hash/Objects.antt =====
-- Hashes of src/include/crypt/release/encrypt_openssl.h as the program makes, copies and moves them.
use avocado.Common.{ℕ, ◌≡◌, refl, ap, ◌∙◌, sym, subst, true, false, some, List, []}
use avocado.Store.Hash.{
  Openssl, zeros, Hash, create, update_hash, finalize, copy, move, assign, move_assign, equal,
  update_create, finalize-create, copy-create, move-create, assign-create, move_assign-create,
  create-valid, equal-create, hash_zeros,
}

module _ (openssl : Openssl) (fuel : ℕ) where
  -- A hash that some sequence of operations on hashes leaves
  pub data Made : Hash openssl → Type 0 where
    created : Made (create openssl)
    updated :
        (h h' : Hash openssl) (src : List ℕ)
        → Made h
        → update_hash openssl fuel h src ≡ some h'
        → Made h'
    finalized : (h : Hash openssl) → Made h → Made (finalize openssl h)
    copied : (h : Hash openssl) → Made h → Made (copy openssl h)
    moved : (h : Hash openssl) → Made h → Made (move openssl h).0
    left : (h : Hash openssl) → Made h → Made (move openssl h).1
    assigned : (h other : Hash openssl) → Made h → Made other → Made (assign openssl h other)
    move_assigned :
        (h other : Hash openssl) → Made h → Made other → Made (move_assign openssl h other).0
    assigned_from :
        (h other : Hash openssl) → Made h → Made other → Made (move_assign openssl h other).1

  module _ (ctx : openssl.Ctx) (gives : openssl.new ≡ some ctx) where
    as_created : (h : Hash openssl) → Made h → h ≡ create openssl
    as_created _ Made.created = refl
    as_created _ (Made.updated h h' src made run) =
        let e : h ≡ create openssl = as_created h made in
        let same : update_hash openssl fuel (create openssl) src ≡ some (create openssl) =
          update_create openssl ctx gives fuel src in
        cc
    as_created _ (Made.finalized h made) =
        ap (finalize openssl) (as_created h made) ∙ finalize-create openssl ctx gives
    as_created _ (Made.copied h made) =
        ap (copy openssl) (as_created h made) ∙ copy-create openssl ctx gives
    as_created _ (Made.moved h made) =
        ap (λ h. (move openssl h).0) (as_created h made)
        ∙ ap (λ p. p.0) (move-create openssl ctx gives)
    as_created _ (Made.left h made) =
        ap (λ h. (move openssl h).1) (as_created h made)
        ∙ ap (λ p. p.1) (move-create openssl ctx gives)
    as_created _ (Made.assigned h other made made') =
        ap (λ h. assign openssl h other) (as_created h made)
        ∙ ap (assign openssl (create openssl)) (as_created other made')
        ∙ assign-create openssl ctx gives
    as_created _ (Made.move_assigned h other made made') =
        ap (λ h. (move_assign openssl h other).0) (as_created h made)
        ∙ ap (λ h. (move_assign openssl (create openssl) h).0) (as_created other made')
        ∙ ap (λ p. p.0) (move_assign-create openssl ctx gives)
    as_created _ (Made.assigned_from h other made made') =
        ap (λ h. (move_assign openssl h other).1) (as_created h made)
        ∙ ap (λ h. (move_assign openssl (create openssl) h).1) (as_created other made')
        ∙ ap (λ p. p.1) (move_assign-create openssl ctx gives)

  -- Where OpenSSL gives a context, no sequence of creations, updates, finalizations, copies, moves and
  -- assignments leads to a hash that is valid: each is as it was created, its code is zeros, and an update of
  -- it comes to an end at once.
  pub made_idle :
      (ctx : openssl.Ctx) (h : Hash openssl)
      → openssl.new ≡ some ctx
      → Made h
      → (h ≡ create openssl)
        × (h.valid ≡ false)
        × (h.mac ≡ zeros)
        × (equal openssl h zeros ≡ true)
        × ((src : List ℕ) → update_hash openssl fuel h src ≡ some h)
  made_idle ctx h gives made =
      let e = as_created ctx gives h made in
      (
        e,
        ap Hash.valid e ∙ create-valid openssl ctx gives,
        ap Hash.mac e ∙ (hash_zeros openssl ctx fuel [] gives).2,
        ap (λ h. equal openssl h zeros) e ∙ equal-create openssl ctx gives,
        λ src.
            subst (λ h. update_hash openssl fuel h src ≡ some h) (sym e)
              (update_create openssl ctx gives fuel src),
      )

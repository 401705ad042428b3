-- ===== src/Crypt/CbcHash/Blocks.antt =====
-- The code over whole blocks, where OpenSSL implements CBC, in src/include/crypt/hash_openssl.h.
use mathlib.Core.List.{append_assoc, append-nil}
use avocado.Common.{
  length_zero, ℕ, zero, suc, ◌+◌, ◌≤◌, ◌<◌, ◌≡◌, refl, ap, sym, ap₂, ◌∙◌, true, false, Option, some,
  List, [], ◌∷◌, ◌++◌, length, length-append, length-drop, take, drop, replicate, map, leb, ltb,
  ◌>>=◌, arith,
}
use avocado.Common.Bytes.{read, write, write-rest, read-append, take-append_eq, drop-append_eq}
use avocado.Crypt.CbcHash.{
  Evp, HashSsl, block_size, create, feed, whole_blocks, update_hash, end_hash,
}

-- A library that gives a context and encrypts in CBC mode: an update with a block writes its cipher text,
-- which is the code of the blocks so far, and an end for decryption fails.
pub record Cbc (evp : Evp) (key iv : List ℕ) : Type 0 where
  pub context : evp.Ctx
  pub after : List (List ℕ) → evp.Ctx
  pub code : List (List ℕ) → List ℕ
  pub gives : evp.new ≡ some context
  pub starts : evp.init context (take 16 key) (take 12 iv) ≡ (true, after [])
  pub takes :
      (bs : List (List ℕ)) (b : List ℕ)
      → length b ≡ 16
      → evp.update (after bs) b ≡ (true, code (bs ++ (b ∷ [])), after (bs ++ (b ∷ [])))
  pub takes_none : (bs : List (List ℕ)) → evp.update (after bs) [] ≡ (true, [], after bs)
  pub length-code : (bs : List (List ℕ)) → length (code bs) ≡ 16
  pub refuses : (bs : List (List ℕ)) → evp.decrypt_final (after bs) ≡ (false, [], after bs)

-- Whole blocks
abbrev pub AllBlocks : List (List ℕ) → Type 0
AllBlocks [] = 0 ≤ 0
AllBlocks (b ∷ bs) = (length b ≡ 16) × AllBlocks bs

abbrev pub bytes : List (List ℕ) → List ℕ
bytes [] = []
bytes (b ∷ bs) = b ++ bytes bs

module _ (evp : Evp) where
  abbrev pub update_all : HashSsl evp → List (List ℕ) → Option (HashSsl evp)
  update_all h [] = some h
  update_all h (src ∷ srcs) = do h' ← update_hash evp h src; update_all h' srcs

-- The blocks of all updates
abbrev pub join : List (List (List ℕ)) → List (List ℕ)
join [] = []
join (bs ∷ updates) = bs ++ join updates

abbrev pub AllUpdates : List (List (List ℕ)) → Type 0
AllUpdates [] = 0 ≤ 0
AllUpdates (bs ∷ updates) = AllBlocks bs × AllUpdates updates

module _ (evp : Evp) (key iv : List ℕ) (cbc : Cbc evp key iv) where
  open cbc use {after, code}

  -- The hash after some blocks, with some bytes as its block
  abbrev pub hash_of : List (List ℕ) → List ℕ → HashSsl evp
  hash_of bs block = record {
    ctx = some (after bs);
    ok = true;
    key = take 16 key;
    iv = take 12 iv;
    hashblock = block;
    offset = 0;
  }

  overwrite : (b block : List ℕ) → length b ≡ 16 → length block ≡ 16 → write 0 b block ≡ some b
  overwrite b block hb hc =
      write-rest [] b block refl (omega (arith, hb, hc))
      ∙ ap some (
          ap (λ l. b ++ l)
            (length_zero (drop (length b) block)
              (omega (arith, hb, hc, length-drop (length b) block)))
          ∙ append-nil b)

  feed_block :
      (bs : List (List ℕ)) (b block : List ℕ)
      → length b ≡ 16
      → length block ≡ 16
      → feed evp (hash_of bs block) 0 b
        ≡ some (hash_of (bs ++ (b ∷ [])) (code (bs ++ (b ∷ []))), length (code (bs ++ (b ∷ []))))
  unfolding feed
  feed_block bs b block hb hc =
      rw
        (
          cbc.takes bs b hb,
          overwrite (code (bs ++ (b ∷ []))) block (cbc.length-code (bs ++ (b ∷ []))) hc,
          ◌>>=◌,
        )
        refl

  -- What the block is after some more blocks
  abbrev pub last_code : List (List ℕ) → List (List ℕ) → List ℕ → List ℕ
  last_code bs [] block = block
  last_code bs (b ∷ more) block = code (bs ++ (b ∷ more))

  length-last_code :
      (bs more : List (List ℕ)) (block : List ℕ)
      → length block ≡ 16
      → length (last_code bs more block) ≡ 16
  length-last_code bs [] block h = h
  length-last_code bs (b ∷ more) block h = cbc.length-code (bs ++ (b ∷ more))

  last_code-step :
      (bs : List (List ℕ)) (b : List ℕ) (more : List (List ℕ))
      → last_code (bs ++ (b ∷ [])) more (code (bs ++ (b ∷ []))) ≡ code (bs ++ (b ∷ more))
  last_code-step bs b [] = refl
  last_code-step bs b (c ∷ more) = ap code (append_assoc bs (b ∷ []) (c ∷ more))

  loop_lem :
      (fuel : ℕ) (bs more : List (List ℕ)) (block : List ℕ)
      → length block ≡ 16
      → AllBlocks more
      → length (bytes more) < fuel
      → whole_blocks evp fuel (hash_of bs block) (bytes more)
        ≡ some (hash_of (bs ++ more) (last_code bs more block))
  unfolding whole_blocks
  loop_lem zero bs more block hb all enough = absurd (omega (arith, enough))
  loop_lem (suc fuel) bs [] block hb all enough =
      ap (λ l. some (hash_of l block)) (sym (append-nil bs))
  loop_lem (suc fuel) bs (b ∷ more) block hb all enough =
      let is_block : leb block_size (length (b ++ bytes more)) ≡ true =
        ground (arith, all.0, length-append b (bytes more)) in
      rw
        (
          is_block,
          take-append_eq b (bytes more) all.0,
          drop-append_eq b (bytes more) all.0,
          feed_block bs b block all.0 hb,
          ◌>>=◌,
        )
        (loop_lem fuel (bs ++ (b ∷ [])) more (code (bs ++ (b ∷ [])))
            (cbc.length-code (bs ++ (b ∷ []))) all.1
            (omega (arith, enough, all.0, length-append b (bytes more)))
          ∙ ap₂ (λ l c. some (hash_of l c)) (append_assoc bs (b ∷ []) more)
              (last_code-step bs b more))

  feed_none :
      (bs : List (List ℕ)) (block : List ℕ)
      → feed evp (hash_of bs block) 0 [] ≡ some (hash_of bs block, 0)
  unfolding feed write
  feed_none bs block = rw (cbc.takes_none bs) (ground arith)

  -- An update with whole blocks
  update_lem :
      (bs more : List (List ℕ)) (block : List ℕ)
      → length block ≡ 16
      → AllBlocks more
      → update_hash evp (hash_of bs block) (bytes more)
        ≡ some (hash_of (bs ++ more) (last_code bs more block))
  unfolding update_hash whole_blocks
  update_lem bs [] block hb all =
      let nothing : read 0 0 [] ≡ some [] = read-append [] [] [] refl refl in
      rw (nothing, ◌>>=◌, feed_none bs block)
        (ap (λ l. some (hash_of l block)) (sym (append-nil bs)))
  update_lem bs (b ∷ more) block hb all =
      let is_block : ltb (length (b ++ bytes more)) block_size ≡ false =
        ground (arith, all.0, length-append b (bytes more)) in
      rw
        (
          is_block,
          read-append [] b (bytes more) refl all.0,
          ◌>>=◌,
          feed_block bs b block all.0 hb,
          drop-append_eq b (bytes more) all.0,
        )
        (loop_lem (length (b ++ bytes more) + 1) (bs ++ (b ∷ [])) more (code (bs ++ (b ∷ [])))
            (cbc.length-code (bs ++ (b ∷ []))) all.1 (omega (arith, length-append b (bytes more)))
          ∙ ap₂ (λ l c. some (hash_of l c)) (append_assoc bs (b ∷ []) more)
              (last_code-step bs b more))

  -- What a hash holds after some blocks
  abbrev pub coded : List (List ℕ) → List ℕ
  coded [] = replicate block_size 0
  coded (b ∷ bs) = code (b ∷ bs)

  length-coded : (bs : List (List ℕ)) → length (coded bs) ≡ 16
  length-coded [] = refl
  length-coded (b ∷ bs) = cbc.length-code (b ∷ bs)

  last_code-coded : (bs more : List (List ℕ)) → last_code bs more (coded bs) ≡ coded (bs ++ more)
  last_code-coded [] [] = refl
  last_code-coded [] (c ∷ more) = refl
  last_code-coded (b ∷ bs) [] = ap (λ l. coded (b ∷ l)) (sym (append-nil bs))
  last_code-coded (b ∷ bs) (c ∷ more) = refl

  update_all_run :
      (bs : List (List ℕ)) (updates : List (List (List ℕ)))
      → AllUpdates updates
      → update_all evp (hash_of bs (coded bs)) (map bytes updates)
        ≡ some (hash_of (bs ++ join updates) (coded (bs ++ join updates)))
  update_all_run bs [] all = ap (λ l. some (hash_of l (coded l))) (sym (append-nil bs))
  update_all_run bs (u ∷ updates) all =
      rw (update_lem bs u (coded bs) (length-coded bs) all.0, ◌>>=◌, last_code-coded bs u)
        (update_all_run (bs ++ u) updates all.1
          ∙ ap (λ l. some (hash_of l (coded l))) (append_assoc bs u (join updates)))

  create_run : create evp key iv ≡ hash_of [] (coded [])
  unfolding create
  create_run = rw (cbc.gives, cbc.starts) refl

  -- Over updates with whole blocks, however the blocks are cut into updates, the hash is good and holds the
  -- code of all blocks in order, or zeros without any. At the end of the hash the code stays, but the hash
  -- is never good any more.
  pub code_lem :
      (updates : List (List (List ℕ)))
      → AllUpdates updates
      → (update_all evp (create evp key iv) (map bytes updates)
          ≡ some (hash_of (join updates) (coded (join updates))))
        × (end_hash evp (hash_of (join updates) (coded (join updates)))
            ≡ some (record (hash_of (join updates) (coded (join updates))) { ok = false }))
  unfolding end_hash write
  code_lem updates all = (
    ap (λ h. update_all evp h (map bytes updates)) create_run ∙ update_all_run [] updates all,
    rw (cbc.refuses (join updates)) (ground arith),
  )

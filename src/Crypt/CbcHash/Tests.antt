-- ===== src/Crypt/CbcHash/Tests.antt =====
-- A code at concrete blocks, over a library whose cipher text is the number of the block.
use avocado.Common.{
  ℕ, ◌+◌, ◌≡◌, refl, ap, true, false, none, some, List, [], ◌∷◌, ◌++◌, length, length-append,
  replicate, if◌then◌else◌, ◌==◌, map, arith,
}
use avocado.Common.Bytes.{write}
use avocado.Crypt.CbcHash.{Evp, HashSsl, create, feed, adjust_size, end_hash}
use avocado.Crypt.CbcHash.Blocks.{Cbc, bytes, update_all, code_lem}

abbrev counting : Evp
counting = record {
  Ctx = ℕ;
  new = some 0;
  init = λ c key iv. (true, c);
  update = λ c src. if length src == 16 then (true, replicate 16 (c + 1), c + 1) else (true, [], c);
  decrypt_final = λ c. (false, [], c);
  copy = λ c other. c;
}

counting-takes :
    (bs : List (List ℕ)) (b : List ℕ)
    → length b ≡ 16
    → counting.update (length bs) b
      ≡ (true, replicate 16 (length (bs ++ (b ∷ []))), length (bs ++ (b ∷ [])))
counting-takes bs b h =
    let whole : (length b == 16) ≡ true = ground (arith, h) in
    let more : length bs + 1 ≡ length (bs ++ (b ∷ [])) = omega (arith, length-append bs (b ∷ [])) in
    rw whole (ap (λ n. (true, replicate 16 n, n)) more)

abbrev counting-Cbc : Cbc counting (replicate 16 1) (replicate 12 2)
counting-Cbc = record {
  context = 0;
  after = length;
  code = λ bs. replicate 16 (length bs);
  gives = refl;
  starts = refl;
  takes = counting-takes;
  takes_none = λ bs. refl;
  length-code = λ bs. refl;
  refuses = λ bs. refl;
}

-- Two blocks, nothing, and one block
abbrev updates : List (List (List ℕ))
updates = (replicate 16 5 ∷ replicate 16 6 ∷ []) ∷ [] ∷ (replicate 16 7 ∷ []) ∷ []

abbrev coded : HashSsl counting
coded = record {
  ctx = some 3;
  ok = true;
  key = replicate 16 1;
  iv = replicate 12 2;
  hashblock = replicate 16 3;
  offset = 0;
}

code_lem_example :
    (update_all counting (create counting (replicate 16 1) (replicate 12 2)) (map bytes updates)
      ≡ some coded)
    × (end_hash counting coded ≡ some (record coded { ok = false }))
code_lem_example =
    code_lem counting (replicate 16 1) (replicate 12 2) counting-Cbc updates (omega arith)

sizes_adjusted : (adjust_size 16 ≡ 16) × (adjust_size 17 ≡ 32)
unfolding adjust_size
sizes_adjusted = (refl, refl)

-- A call at the end of the block writes behind it.
behind_block : feed counting (record coded { offset = 16 }) 16 (replicate 16 0) ≡ none
unfolding feed write
behind_block = refl

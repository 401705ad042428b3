-- ===== src/Strings/Tests.antt =====
-- Copies of strings at concrete inputs, and the theorem about them.
use avocado.Common.{◌≡◌, refl, none, some, [], ◌∷◌, ◌++◌, replicate, arith, ◌>>=◌}
use avocado.Common.Bytes.{read, write}
use avocado.Strings.{strlen, strlcpy, strlcat, strlcat-strlcpy}

cut : strlcpy (replicate 3 9) (1 ∷ 2 ∷ 3 ∷ 0 ∷ []) 3 ≡ some (1 ∷ 2 ∷ 0 ∷ [], 2)
unfolding strlcpy strlen read write
cut = refl

full : strlcat (1 ∷ 2 ∷ 0 ∷ []) (3 ∷ 0 ∷ []) 3 ≡ some (1 ∷ 2 ∷ 0 ∷ [], 2)
unfolding strlcat strlen
full = refl

strlcat-strlcpy_example :
    (strlcpy (replicate 4 9) ((1 ∷ []) ++ (0 ∷ [])) 4
      >>= (λ r. strlcat r.0 ((2 ∷ 3 ∷ 4 ∷ []) ++ (0 ∷ [])) 4))
    ≡ none
strlcat-strlcpy_example =
    strlcat-strlcpy (replicate 4 9) (1 ∷ []) (2 ∷ 3 ∷ 4 ∷ []) [] [] 4 (omega arith, omega arith)
      (omega arith, (omega arith, (omega arith, omega arith))) refl (omega arith) (omega arith)

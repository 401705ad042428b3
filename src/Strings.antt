-- ===== src/Strings.antt =====
-- The copies of strings in src/copy_utility.c, over arrays of bytes: `none` is an access out of an array.
mod Tests
use mathlib.Core.List.{append_assoc}
use avocado.Common.{
  ℕ, zero, suc, ◌+◌, ◌-◌, ◌%◌, ◌^◌, ◌≤◌, ◌<◌, ◌≡◌, refl, ap, ◌∙◌, sym, subst, Bool, Option, none,
  some, List, [], ◌∷◌, ◌++◌, length, length-append, length-drop, length-take, take, drop,
  take-append-drop, arith, ltb, leb, ltb→lt, Bool-cases, inl, inr, if◌then◌else◌, ◌>>=◌,
}
use avocado.Common.Bytes.{read, write, read-append, write-rest, write-eq-none}

-- `strlen` of the standard library; `none` is an array without a NUL.
unfoldable pub strlen : List ℕ → Option ℕ
strlen [] = none
strlen (zero ∷ l) = some 0
strlen (suc n ∷ l) = do k ← strlen l; some (suc k)

-- The bytes written, and the length returned; `size_t` wraps at the `--size` of 0.
unfoldable pub strlcpy : List ℕ → List ℕ → ℕ → Option (List ℕ × ℕ)
unfolding strlen
strlcpy dst src size = do
  srclen ← strlen src
  let size' = (size + 2 ^ 64 - 1) % 2 ^ 64
  let len = if ltb size' srclen then size' else srclen
  copied ← read 0 len src
  dst₁ ← write 0 copied dst
  dst₂ ← write len (0 ∷ []) dst₁
  some (dst₂, len)

-- The end of `strlcat`, where the string has `dstlen` bytes and `size` is what was left behind them
strlcat_at : List ℕ → List ℕ → ℕ → ℕ → Option (List ℕ × ℕ)
unfolding strlen
strlcat_at dst src dstlen size = do
  srclen ← strlen src
  let len = if ltb size srclen then size else srclen
  copied ← read 0 len src
  dst₁ ← write dstlen copied dst
  dst₂ ← write (dstlen + len) (0 ∷ []) dst₁
  some (dst₂, dstlen + len)

-- A length is less than `2 ^ 64 - 1`, so `dstlen + 1` does not wrap.
unfoldable pub strlcat : List ℕ → List ℕ → ℕ → Option (List ℕ × ℕ)
unfolding strlen strlcat_at
strlcat dst src size = do
  dstlen ← strlen dst
  (if leb size (dstlen + 1) then some (dst, dstlen) else strlcat_at dst src dstlen (size - dstlen))

-- No byte of a list is the NUL.
abbrev pub NoNul : List ℕ → Type 0
NoNul [] = 0 ≤ 0
NoNul (x ∷ xs) = (1 ≤ x) × NoNul xs

strlen-append : (s t : List ℕ) → NoNul s → strlen (s ++ (0 ∷ t)) ≡ some (length s)
unfolding strlen
strlen-append [] t h = refl
strlen-append (zero ∷ s) t h = ground (arith, h.0)
strlen-append (suc n ∷ s) t h = rw (strlen-append s t h.1, ◌>>=◌) refl

-- A copy of a string that fits
strlcpy_lem :
    (dst a t : List ℕ) (size : ℕ)
    → NoNul a
    → length dst ≡ size
    → length a + 1 < size
    → size < 2 ^ 64
    → strlcpy dst (a ++ (0 ∷ t)) size ≡ some (a ++ (0 ∷ drop 1 (drop (length a) dst)), length a)
unfolding strlcpy
strlcpy_lem dst a t size h whole fits small =
    rw
      (
        strlen-append a t h,
        ◌>>=◌,
        all_of_it,
        read-append [] a (0 ∷ t) refl refl,
        write-rest [] a dst refl (omega (arith, whole, fits)),
        write-rest a (0 ∷ []) (drop (length a) dst) refl
            (omega (arith, length-drop (length a) dst, whole, fits)),
      )
      refl
  where
    all_of_it :
        (if ltb ((size + 2 ^ 64 - 1) % 2 ^ 64) (length a)
          then (size + 2 ^ 64 - 1) % 2 ^ 64
          else length a)
        ≡ length a
    all_of_it = ground (arith, fits, small)

module _ (d rest b u : List ℕ) (size : ℕ) (hd : NoNul d) (hb : NoNul b)
    (whole : length (d ++ (0 ∷ rest)) ≡ size) (room : length d + 1 < size) where
  strlcat_starts :
      strlcat (d ++ (0 ∷ rest)) (b ++ (0 ∷ u)) size
      ≡ strlcat_at (d ++ (0 ∷ rest)) (b ++ (0 ∷ u)) (length d) (size - length d)
  unfolding strlcat
  strlcat_starts = rw (strlen-append d rest hd, ◌>>=◌) (ground (arith, room))

  strlcat_fits :
      length d + length b < size
      → strlcat_at (d ++ (0 ∷ rest)) (b ++ (0 ∷ u)) (length d) (size - length d)
        ≡ some (d ++ (b ++ (0 ∷ drop 1 (drop (length b) (0 ∷ rest)))), length d + length b)
  unfolding strlcat_at
  strlcat_fits fits =
      rw
        (
          strlen-append b u hb,
          ◌>>=◌,
          all_of_it,
          read-append [] b (0 ∷ u) refl refl,
          write-rest d b (0 ∷ rest) refl (omega (arith, whole, length-append d (0 ∷ rest), fits)),
          sym (append_assoc d b (drop (length b) (0 ∷ rest))),
          write-rest (d ++ b) (0 ∷ []) (drop (length b) (0 ∷ rest)) (length-append d b) (
              omega (
                arith,
                whole,
                length-append d (0 ∷ rest),
                length-drop (length b) (0 ∷ rest),
                fits,
              )),
          append_assoc d b (0 ∷ drop 1 (drop (length b) (0 ∷ rest))),
        )
        refl
    where
      all_of_it :
          (if ltb (size - length d) (length b) then size - length d else length b) ≡ length b
      all_of_it = ground (arith, fits)

  strlcat_over :
      size ≤ length d + length b
      → strlcat_at (d ++ (0 ∷ rest)) (b ++ (0 ∷ u)) (length d) (size - length d) ≡ none
  unfolding strlcat_at
  strlcat_over over =
      rw
        (
          strlen-append b u hb,
          ◌>>=◌,
          what_is_left,
          reads,
          write-rest d (take k b) (0 ∷ rest) refl
              (omega (arith, whole, length-append d (0 ∷ rest), length_part, room)),
          write-eq-none (length d + k) (0 ∷ [])
              (d ++ (take k b ++ drop (length (take k b)) (0 ∷ rest))) full,
        )
        refl
    where
      k : ℕ
      k = size - length d

      what_is_left : (if ltb (size - length d) (length b) then size - length d else length b) ≡ k
      what_is_left = ground (arith, over)

      length_part : length (take k b) ≡ k
      length_part = omega (arith, length-take k b, over)

      reads : read 0 k (b ++ (0 ∷ u)) ≡ some (take k b)
      reads =
          subst (λ l. read 0 k l ≡ some (take k b))
            (sym (append_assoc (take k b) (drop k b) (0 ∷ u))
              ∙ ap (λ l. l ++ (0 ∷ u)) (take-append-drop k b))
            (read-append [] (take k b) (drop k b ++ (0 ∷ u)) refl length_part)

      full : length (d ++ (take k b ++ drop (length (take k b)) (0 ∷ rest))) < length d + k + 1
      full = omega (
        arith,
        whole,
        room,
        length_part,
        length-append d (0 ∷ rest),
        length-append d (take k b ++ drop (length (take k b)) (0 ∷ rest)),
        length-append (take k b) (drop (length (take k b)) (0 ∷ rest)),
        length-drop (length (take k b)) (0 ∷ rest),
      )

  strlcat_lem : strlcat (d ++ (0 ∷ rest)) (b ++ (0 ∷ u)) size ≡ (
      if ltb (length d + length b) size
      then some (d ++ (b ++ (0 ∷ drop 1 (drop (length b) (0 ∷ rest)))), length d + length b)
      else none)
  strlcat_lem = strlcat_starts ∙ elim (Bool-cases (ltb (length d + length b) size)) [
    | inl fits ↦ rw fits (strlcat_fits (ltb→lt (length d + length b) size fits))
    | inr over ↦ rw over (strlcat_over (ground arith))
  ]

-- A copy of `a` to an array of `size` bytes, where it fits with a byte to spare, and an append of `b`:
-- while the two together are shorter than the array, it holds `a`, `b` and a NUL, with the bytes behind
-- them as they were, and the length is theirs. Where they are not, the append accesses memory out of
-- the array.
pub strlcat-strlcpy :
    (dst a b t u : List ℕ) (size : ℕ)
    → NoNul a
    → NoNul b
    → length dst ≡ size
    → length a + 1 < size
    → size < 2 ^ 64
    → (strlcpy dst (a ++ (0 ∷ t)) size >>= (λ r. strlcat r.0 (b ++ (0 ∷ u)) size)) ≡ (
        if ltb (length a + length b) size
        then some (
          a ++ (b ++ (0 ∷ drop 1 (drop (length b) (0 ∷ drop 1 (drop (length a) dst))))),
          length a + length b,
        )
        else none)
strlcat-strlcpy dst a b t u size ha hb whole room small =
    rw (strlcpy_lem dst a t size ha whole room small, ◌>>=◌)
      (strlcat_lem a (drop 1 (drop (length a) dst)) b u size ha hb
        (omega (
          arith,
          whole,
          room,
          length-append a (0 ∷ drop 1 (drop (length a) dst)),
          length-drop 1 (drop (length a) dst),
          length-drop (length a) dst,
        ))
        room)

-- ===== src/Protocol/Padding.antt =====
-- A packet format that encrypts nothing has the laws that are asked of `Packet`.
use avocado.Common.{
  ℕ, ◌-◌, ◌^◌, ◌<◌, ◌≡◌, ap, Bool, true, Option, some, List, ◌++◌, length, length-append, take,
  replicate, arith,
}
use avocado.Common.Bytes.{take-append_eq}
use avocado.Protocol.{Packet}

-- Packets that only get 28 bytes longer
pub unpadded :
    (iv : ℕ) (p : List ℕ)
    → length p < 2 ^ 31
    → ◌≡◌ {A = Option (List ℕ × Bool)}
        (some (take (length (p ++ replicate 28 iv) - 28) (p ++ replicate 28 iv), true))
        (some (p, true))
unpadded iv p small =
    ap (λ (l : List ℕ). some (l, true))
      (take-append_eq p (replicate 28 iv) (omega (arith, length-append p (replicate 28 iv))))

abbrev pub padding : Packet
padding = record {
  encrypt = λ iv p. p ++ replicate 28 iv;
  decrypt = λ d. some (take (length d - 28) d, true);
  decrypt-encrypt = unpadded;
  length-encrypt = λ iv p. length-append p (replicate 28 iv);
}

-- ===== src/Crypt/Sample.antt =====
-- An authenticated encryption that only adds a tag has the laws that are asked of `Aead`.
use avocado.Common.{refl, true, replicate}
use avocado.Crypt.{Aead}

abbrev pub tagging : Aead
tagging = record {
  seal = λ key iv p. (p, replicate 16 7);
  open_sealed = λ key iv text tag. (text, true);
  length-text = λ key iv p. refl;
  length-tag = λ key iv p. refl;
  open-seal = λ key iv p. refl;
}

-- ===== src/Crypt.antt =====
-- Packet encryption: src/include/crypt/release/encrypt_package.h and the 128-bit compare-exchange of
-- src/include/utils/utility.h, and the cipher of src/include/crypt/release/encrypt_openssl.h.
-- Memory that the code does not initialise is an argument, and so is OpenSSL's AES-GCM.
pub mod KeyIv
pub mod PacketSsl
pub mod CipherSsl
pub mod CbcHash
pub mod Sample
mod Tests
use avocado.Common.{ℕ, ◌+◌, ◌≡◌, Bool, true, List, length}

-- What `PacketSsl::cipher` uses of EVP_aes_128_gcm: the text of the same length and a tag of 16
-- bytes; decryption writes its text whether the tag is right or not.
pub record Aead : Type 0 where
  pub seal : (key iv plain : List ℕ) → List ℕ × List ℕ
  pub open_sealed : (key iv text tag : List ℕ) → List ℕ × Bool
  pub length-text : (key iv plain : List ℕ) → length (seal key iv plain).0 ≡ length plain
  pub length-tag : (key iv plain : List ℕ) → length (seal key iv plain).1 ≡ 16
  pub open-seal :
      (key iv plain : List ℕ)
      → open_sealed key iv (seal key iv plain).0 (seal key iv plain).1 ≡ (plain, true)

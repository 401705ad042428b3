-- ===== src/Stats/Packets.antt =====
-- The ciphers of a build that collects statistics: `PacketSsl`, its counters, and `CipherSsl`, in
-- src/include/stats/debug/stats/encrypt_package.h and src/include/stats/debug/stats/encrypt_openssl.h.
use avocado.Common.{
  ℕ, ◌+◌, ◌-◌, ◌*◌, ◌%◌, ◌^◌, ◌≡◌, refl, Bool, Option, List, [], ◌∷◌, length, map, arith,
  if◌then◌else◌,
}
use avocado.Crypt.CipherSsl
use avocado.Crypt.CipherSsl.{Evp, CipherSsl, Outcome}
use avocado.Crypt.KeyIv.{KeyIv}
use avocado.Crypt.PacketSsl
use avocado.Crypt.PacketSsl.{meta_data_size, get_message_size}
use avocado.Crypt.{Aead}
use avocado.Stats.Totals.{sum, in_order, run-calls}
use avocado.Stats.{
  Counters, FetchAdd, n_events, n_bytes, same, start, run, add_data, Interleaved, take_time_diff,
}

module _ (aead : Aead) where
  -- With the time stamps before and after the base's function: its result, and the additions to
  -- `packet_ssl_stats.encrypt`
  unfoldable pub encrypt :
      (aligned : Bool)
      → KeyIv
      → (dst src local raw : List ℕ) (before after : ℕ) → Option (KeyIv × List ℕ) × List FetchAdd
  encrypt aligned k dst src local raw before after = (
    PacketSsl.encrypt aead aligned k dst src local raw,
    add_data (length src) (take_time_diff before after),
  )

  -- `src_size` is the packet's; the additions are to `packet_ssl_stats.decrypt`.
  unfoldable pub decrypt :
      KeyIv → (src : List ℕ) (src_size before after : ℕ) → Option (List ℕ × Bool) × List FetchAdd
  decrypt k src src_size before after =
      (PacketSsl.decrypt aead k src src_size, add_data src_size (take_time_diff before after))

module _ (evp : Evp) where
  unfoldable pub cipher_encrypt :
      CipherSsl → (dst src mac : List ℕ) (before after : ℕ) → Option Outcome × List FetchAdd
  cipher_encrypt c dst src mac before after =
      (CipherSsl.encrypt evp c dst src mac, add_data (length src) (take_time_diff before after))

  unfoldable pub cipher_decrypt :
      CipherSsl → (dst src mac : List ℕ) (before after : ℕ) → Option Outcome × List FetchAdd
  cipher_decrypt c dst src mac before after =
      (CipherSsl.decrypt evp c dst src mac, add_data (length src) (take_time_diff before after))

-- `~PacketSslStats`, on the counters of `decrypt`
unfoldable pub destroy : Counters → Counters
destroy s c =
    if same n_bytes c
    then (s n_bytes + 2 ^ 64 - (s n_events * meta_data_size) % 2 ^ 64) % 2 ^ 64
    else s c

-- One call of `decrypt`, on a packet in a buffer of its size
pub record Decryption : Type 0 where
  pub key_iv : KeyIv
  pub src : List ℕ
  pub before : ℕ
  pub after : ℕ

module _ (aead : Aead) where
  abbrev pub log : Decryption → List FetchAdd
  log d = (decrypt aead d.key_iv d.src (length d.src) d.before d.after).1

  abbrev pub message_size : Decryption → ℕ
  message_size d = get_message_size (length d.src)

  sizes :
      (ds : List Decryption)
      → (sum message_size ds + meta_data_size * sum (λ d. 1) ds) % 2 ^ 64
        ≡ sum (λ d. length d.src) ds % 2 ^ 64
  unfolding get_message_size
  sizes [] = refl
  sizes (d ∷ ds) = omega (arith, sizes ds)

  sizes_all :
      (threads : List (List Decryption))
      → (sum (sum message_size) threads + meta_data_size * sum (sum (λ d. 1)) threads) % 2 ^ 64
        ≡ sum (sum (λ d. length d.src)) threads % 2 ^ 64
  sizes_all [] = refl
  sizes_all (ds ∷ threads) = omega (arith, sizes ds, sizes_all threads)

  -- However the decryptions of all threads interleave, what the program reports for them in the end is
  -- the number of packets, and as bytes the sum of the sizes of their messages, without what each
  -- packet has besides; both by the width of a counter.
  pub decrypted_bytes :
      (threads : List (List Decryption)) (adds : List FetchAdd)
      → Interleaved (map (in_order log) threads) adds
      → (destroy (run adds start) n_events ≡ sum (sum (λ d. 1)) threads % 2 ^ 64)
        × (destroy (run adds start) n_bytes ≡ sum (sum message_size) threads % 2 ^ 64)
  unfolding destroy decrypt
  decrypted_bytes threads adds h =
      let events = run-calls n_events log (λ d. 1) (λ d. refl) threads h in
      let bytes = run-calls n_bytes log (λ d. length d.src) (λ d. omega arith) threads h in
      (events, omega (arith, events, bytes, sizes_all threads))

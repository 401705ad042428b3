-- ===== src/Stats/Tests.antt =====
-- The theorems about the counters and the clock at concrete inputs.
use avocado.Common.{true, ℕ, ◌≡◌, refl, none, some, List, [], ◌∷◌, map, replicate, ◌>>=◌}
use avocado.Crypt.PacketSsl.{get_message_size}
use avocado.Crypt.Sample.{tagging}
use avocado.Stats.Clock.{CrystalClockFactors, get_time_in_ms, create}
use avocado.Stats.Hashing
use avocado.Stats.Hashing.{Update, finalize_lem}
use avocado.Stats.Packets
use avocado.Stats.Packets.{Decryption, decrypt, destroy, decrypted_bytes}
use avocado.Stats.Totals.{in_order}
use avocado.Store.Hash
use avocado.Store.Hash.{Openssl}
use avocado.Stats.{
  add_data, Counter, FetchAdd, n_events, n_bytes, total_time, start, run, Interleaved, idle, over,
  step,
}

abbrev add : Counter → ℕ → FetchAdd
add c n = record { counter = c; amount = n }

-- Two packets that two threads decrypt
abbrev packet : ℕ → Decryption
packet n = record {
  key_iv = record { key = replicate 16 1; iv = replicate 16 2 };
  src = replicate n 0;
  before = 10;
  after = 15;
}

abbrev decryptions : List (List Decryption)
decryptions = (packet 30 ∷ []) ∷ (packet 29 ∷ []) ∷ []

abbrev mixed : List FetchAdd
mixed =
    add n_bytes 30
    ∷ add n_bytes 29
    ∷ add n_events 1
    ∷ add total_time 5
    ∷ add n_events 1
    ∷ add total_time 5
    ∷ []

abbrev event_time : List FetchAdd
event_time = add n_events 1 ∷ add total_time 5 ∷ []

mixed-Interleaved : Interleaved (map (in_order (Packets.log tagging)) decryptions) mixed
unfolding decrypt
mixed-Interleaved = step [] (add n_bytes 30) event_time ((add n_bytes 29 ∷ event_time) ∷ []) _ (
    step (event_time ∷ []) (add n_bytes 29) event_time [] _ (
      step (event_time ∷ []) (add n_events 1) (add total_time 5 ∷ []) [] _ (
        step (event_time ∷ []) (add total_time 5) [] [] _ (
          step [] (add n_events 1) (add total_time 5 ∷ []) ([] ∷ []) _
            (step [] (add total_time 5) [] ([] ∷ []) _ (over _ _ (over _ _ idle)))))))

decrypted_bytes_example :
    (destroy (run mixed start) n_events ≡ 2) × (destroy (run mixed start) n_bytes ≡ 3)
unfolding get_message_size
decrypted_bytes_example = decrypted_bytes tagging decryptions mixed mixed-Interleaved

-- A crystal of 24 MHz, and time stamps of 2.4 GHz
abbrev clock : CrystalClockFactors
clock = record {
  crystal_clock_fq = 24000000;
  art_fq = 24000000;
  denominator = 1;
  numerator = 100;
  base_freq = 0;
  max_freq = 0;
  bus_freq = 0;
}

clock_created :
    create (record { eax = 1; ebx = 100; ecx = 24000000 }) (record { eax = 0; ebx = 0; ecx = 0 })
    ≡ some clock
unfolding create
clock_created = refl

-- A second is a thousand milliseconds.
second : get_time_in_ms clock 2400000000 ≡ some 1000
unfolding get_time_in_ms
second = refl

-- A library of OpenSSL without memory, whose other calls succeed
abbrev library : Openssl
library = record {
  Ctx = ℕ;
  new = none;
  init = λ ctx. (true, ctx);
  update = λ ctx src. (true, 0, ctx);
  final = λ ctx. (true, replicate 16 9, ctx);
}

-- Two numbers of four bytes, and one of one byte
abbrev updates : List Update
updates =
    record { src = replicate 4 1 ∷ replicate 4 2 ∷ []; before = 10; after = 13 }
    ∷ record { src = (7 ∷ []) ∷ []; before = 14; after = 15 }
    ∷ []

finalize_lem_example :
    (do
      h ← Hashing.update_all library 3 (Hashing.create library) updates
      some (Hashing.finalize library h 20 24))
    ≡ some (
      record {
        base = record { valid = true; is_final = true; state = none; mac = replicate 16 9 };
        bytes = 3;
        time = 8;
      },
      add_data 3 8,
    )
unfolding Hash.update_all Hash.update_hash Hash.update_loop Hash.create Hash.finalize
finalize_lem_example = finalize_lem library 3 updates 20 24

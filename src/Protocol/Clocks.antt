-- ===== src/Protocol/Clocks.antt =====
-- The step of `reduce_resp` in `GetTime` over the replies of replicas: each packet is one clock.
use mathlib.Core.List.{append_assoc}
use avocado.Common.{
  ℕ, ◌^◌, ◌≤◌, ◌<◌, ◌≡◌, refl, ap, ◌∙◌, some, List, [], ◌∷◌, ◌++◌, length, length-append, map, drop,
  replicate, length-replicate, arith, if◌then◌else◌, ◌>>=◌, get_elem?, leb, zero, suc,
}
use avocado.Common.Bytes.{le_bytes, read-append, write-rest}
use avocado.KeyAccess.{lamport_bytes, length-lamport_bytes, get_lamport-append}
use avocado.Lamport
use avocado.Lamport.{Lamport}
use avocado.Msg.Wire.{of_bytes-to_bytes, length-to_bytes}
use avocado.Msg.{Msg, of_bytes, to_bytes, get_key}
use avocado.Protocol.Context.{Context, reduce, reduce_resp}
use avocado.Protocol.Continuations.{later_count}
use avocado.Protocol.{Packet}

-- Bytes behind a message's array become the end of its buffer.
pub of_bytes-append :
    (m : Msg) (rest : List ℕ)
    → m.key_size < 2 ^ 64
    → m.size < 2 ^ 64
    → of_bytes (to_bytes m ++ rest) ≡ some (record m { buf = m.buf ++ rest })
unfolding to_bytes
of_bytes-append m rest hk hs =
    ap of_bytes (
      append_assoc (le_bytes 8 m.key_size) (le_bytes 8 m.size ++ m.buf) rest
      ∙ ap (◌++◌ (le_bytes 8 m.key_size)) (append_assoc (le_bytes 8 m.size) m.buf rest))
    ∙ of_bytes-to_bytes (record m { buf = m.buf ++ rest }) hk hs

-- The message of one clock, as `time_stamp_msg` builds it
abbrev pub clock_msg : Lamport → Msg
clock_msg l = record { key_size = 8; size = 8; buf = lamport_bytes l }

pub later_count-clock :
    (prior : ℕ) (l : Lamport) (rest : List ℕ)
    → Lamport.IsValid l
    → later_count prior (record (clock_msg l) { buf = lamport_bytes l ++ rest })
      ≡ some (if leb l.count prior then prior else l.count)
unfolding later_count get_key
later_count-clock prior l rest v =
    rw
      (
        read-append [] (lamport_bytes l) rest refl (length-lamport_bytes l),
        ◌>>=◌,
        (get_lamport-append [] l v (omega arith)).0,
      )
      refl

-- The latest of a count and those of some clocks
abbrev pub latest_count : ℕ → List Lamport → ℕ
latest_count prior [] = prior
latest_count prior (l ∷ ls) = latest_count (if leb l.count prior then prior else l.count) ls

pub latest_count-le : (prior : ℕ) (ls : List Lamport) → prior ≤ latest_count prior ls
latest_count-le prior [] = omega arith
latest_count-le prior (l ∷ ls) =
    ground (arith, latest_count-le (if leb l.count prior then prior else l.count) ls)

pub latest_count-elem :
    (prior : ℕ) (ls : List Lamport) (i : ℕ) (l : Lamport)
    → get_elem? ls i ≡ some l
    → l.count ≤ latest_count prior ls
latest_count-elem prior [] i l h = cc
latest_count-elem prior (k ∷ ls) zero l h =
    ground (arith, latest_count-le (if leb k.count prior then prior else k.count) ls)
latest_count-elem prior (k ∷ ls) (suc i) l h =
    latest_count-elem (if leb k.count prior then prior else k.count) ls i l h

module _ (packet : Packet) where
  open packet use {encrypt, decrypt, decrypt-encrypt, length-encrypt}

  -- A packet with a clock, under some IV
  abbrev pub clock_packet : ℕ × Lamport → List ℕ
  clock_packet (iv, l) = encrypt iv (to_bytes (clock_msg l))

  abbrev pub clocks_of : List (ℕ × Lamport) → List Lamport
  clocks_of [] = []
  clocks_of ((iv, l) ∷ replies) = l ∷ clocks_of replies

  pub reduce-clocks :
      (mem : List ℕ) (replies : List (ℕ × Lamport)) (prior : ℕ)
      → 24 ≤ length mem
      → ((i : ℕ) (l : Lamport) → get_elem? (clocks_of replies) i ≡ some l → Lamport.IsValid l)
      → reduce packet later_count mem (map clock_packet replies) prior
        ≡ some (latest_count prior (clocks_of replies))
  unfolding reduce
  reduce-clocks mem [] prior h v = refl
  reduce-clocks mem ((iv, l) ∷ replies) prior h v =
      rw
        (
          decrypt-encrypt iv plain (omega (arith, length_plain)),
          ◌>>=◌,
          write-rest [] plain mem refl (omega (arith, length_plain)),
          of_bytes-append (clock_msg l) (drop (length plain) mem) (omega arith) (omega arith),
          later_count-clock prior l (drop (length plain) mem) (v 0 l refl),
        )
        (reduce-clocks (plain ++ drop (length plain) mem) replies
          (if leb l.count prior then prior else l.count)
          (omega (arith, length_plain, length-append plain (drop (length plain) mem)))
          (λ i k e. v (suc i) k e))
    where
      plain : List ℕ
      plain = to_bytes (clock_msg l)

      length_plain : length plain ≡ 24
      length_plain = omega (arith, length-to_bytes (clock_msg l), length-lamport_bytes l)

  -- `reduce_resp` over the replies of replicas is the latest of the clocks' counts.
  pub reduce_resp-clocks :
      (c : Context) (replies : List (ℕ × Lamport)) (prior : ℕ)
      → c.cache ≡ map clock_packet replies
      → 24 ≤ c.max_resp_size
      → ((i : ℕ) (l : Lamport) → get_elem? (clocks_of replies) i ≡ some l → Lamport.IsValid l)
      → reduce_resp packet c later_count prior ≡ some (latest_count prior (clocks_of replies))
  unfolding reduce_resp
  reduce_resp-clocks c replies prior cached room v = rw cached (
      reduce-clocks (replicate c.max_resp_size 0) replies prior
        (omega (arith, length-replicate {A = ℕ} c.max_resp_size 0)) v)

-- ===== src/Protocol/Answer.antt =====
-- What a get returns when some replica has a later value: the fold of `RetValue` on one response.
use mathlib.Core.List.{append_assoc}
use avocado.Common.{
  ℕ, ◌+◌, ◌-◌, ◌≤◌, ◌≡◌, refl, ap, ◌∙◌, sym, true, some, List, [], ◌++◌, length, length-append,
  length-take, take, drop, take-append-drop, length-drop, Bool-cases, inl, inr, arith, ◌>>=◌,
}
use avocado.Common.Bytes.{le_bytes, read, write, read-append, write-rest}
use avocado.KeyAccess.{
  sub_meta_size, lamport_bytes, get_lamport, add_meta_size, length-lamport_bytes,
  bytes_lamport-lamport_bytes,
}
use avocado.Lamport
use avocado.Lamport.{Lamport}
use avocado.Msg.Build.{Holds}
use avocado.Msg.Wire.{length-to_bytes}
use avocado.Msg.{Msg, of_bytes, to_bytes, get_key}
use avocado.Protocol.Clocks.{of_bytes-append}
use avocado.Protocol.Continuations.{Latest, count_clock, later_response}

later_response_run :
    (key_size : ℕ) (l : Latest) (buf copy : Msg) {clock : Lamport} {bytes tmp key : List ℕ}
    → get_lamport key_size (some buf.buf) ≡ some clock
    → Lamport.gt clock l.clock ≡ true
    → read 0 buf.size (to_bytes buf) ≡ some bytes
    → write 0 bytes l.tmp ≡ some tmp
    → of_bytes tmp ≡ some copy
    → get_key copy ≡ some key
    → later_response key_size l buf
      ≡ some (record {
        counts = count_clock clock l.counts;
        tmp = tmp;
        clock = clock;
        span = some key;
        span_size = copy.key_size;
      })
unfolding later_response
later_response_run key_size l buf copy e₁ e₂ e₃ e₄ e₅ e₆ = rw (e₁, ◌>>=◌, e₂, e₃, e₄, e₅, e₆) refl

module _ (l : Latest) (key value : List ℕ) (clock : Lamport) (buf : Msg) (room : ℕ)
    (h : Holds buf (key ++ lamport_bytes clock) value room) where
  clock_read :
      Lamport.IsValid clock → get_lamport (add_meta_size (length key)) (some buf.buf) ≡ some clock
  unfolding get_lamport
  clock_read v =
      rw
        (
          h.layout,
          append_assoc key (lamport_bytes clock) (value ++ h.rest),
          read-append {off = sub_meta_size (add_meta_size (length key))} key (lamport_bytes clock)
              (value ++ h.rest)
              (omega (
                arith,
                h.small,
                length-append key (lamport_bytes clock),
                length-lamport_bytes clock,
              ))
              (length-lamport_bytes clock),
          ◌>>=◌,
          bytes_lamport-lamport_bytes clock v,
        )
        refl

  -- The copy ends 16 bytes before the value's end.
  abbrev value' : List ℕ
  value' = take (length value - 16) value

  abbrev copied : Msg
  copied = record buf { buf = key ++ lamport_bytes clock ++ value' }

  bytes_read : 16 ≤ length value → read 0 buf.size (to_bytes buf) ≡ some (to_bytes copied)
  unfolding to_bytes
  bytes_read long =
      ap (read 0 buf.size) bytes
      ∙ read-append [] (to_bytes copied) (drop (length value - 16) value ++ h.rest) refl (
          omega (
            arith,
            h.size,
            length-to_bytes copied,
            length-append (key ++ lamport_bytes clock) value',
            length-take (length value - 16) value,
          ))
    where
      bytes : to_bytes buf ≡ to_bytes copied ++ (drop (length value - 16) value ++ h.rest)
      bytes =
          rw
            (
              h.layout,
              append_assoc (le_bytes 8 buf.key_size) (le_bytes 8 buf.size ++ copied.buf)
                  (drop (length value - 16) value ++ h.rest),
              append_assoc (le_bytes 8 buf.size) copied.buf
                  (drop (length value - 16) value ++ h.rest),
              append_assoc (key ++ lamport_bytes clock) value'
                  (drop (length value - 16) value ++ h.rest),
              ← append_assoc value' (drop (length value - 16) value) h.rest,
              take-append-drop (length value - 16) value,
            )
            refl

  pub later_response_copies :
      Lamport.IsValid clock
      → Lamport.gt clock l.clock ≡ true
      → 16 ≤ length value
      → buf.size ≤ length l.tmp
      → (l' : Latest) × (later_response (add_meta_size (length key)) l buf ≡ some l')
        × (l'.clock ≡ clock)
        × (l'.span ≡ some (key ++ lamport_bytes clock))
        × (l'.span_size ≡ length key + 8)
        × (length l'.tmp ≡ length l.tmp)
  unfolding get_key
  later_response_copies v later long fits = (
    _,
    later_response_run (add_meta_size (length key)) l buf
        (record copied { buf = copied.buf ++ drop (length (to_bytes copied)) l.tmp }) (clock_read v)
        later (bytes_read long)
        (write-rest [] (to_bytes copied) l.tmp refl (omega (arith, fits, size)))
        (of_bytes-append copied (drop (length (to_bytes copied)) l.tmp)
          (omega (arith, h.key_size, h.small)) (omega (arith, h.size, h.small)))
        span,
    refl,
    refl,
    omega (arith, h.key_size, length-append key (lamport_bytes clock), length-lamport_bytes clock),
    omega (
      arith,
      fits,
      size,
      length-append (to_bytes copied) (drop (length (to_bytes copied)) l.tmp),
      length-drop (length (to_bytes copied)) l.tmp,
    ),
  )
    where
      size : length (to_bytes copied) ≡ buf.size
      size = omega (
        arith,
        h.size,
        length-to_bytes copied,
        length-append (key ++ lamport_bytes clock) value',
        length-take (length value - 16) value,
        long,
      )

      span :
          get_key (record copied { buf = copied.buf ++ drop (length (to_bytes copied)) l.tmp })
          ≡ some (key ++ lamport_bytes clock)
      span =
          rw
            (append_assoc (key ++ lamport_bytes clock) value'
              (drop (length (to_bytes copied)) l.tmp))
            (read-append [] (key ++ lamport_bytes clock) _ refl (sym h.key_size))

  -- A response with a later clock and a value of at least 16 bytes: what is taken for its value is
  -- its key, with the clock behind it.
  pub later_response_span :
      Lamport.IsValid clock
      → Lamport.gt clock l.clock ≡ true
      → 16 ≤ length value
      → buf.size ≤ length l.tmp
      → (l' : Latest) × (later_response (add_meta_size (length key)) l buf ≡ some l')
        × (l'.clock ≡ clock)
        × (l'.span ≡ some (key ++ lamport_bytes clock))
        × (l'.span_size ≡ length key + 8)
  later_response_span v later long fits =
      let (l', e, at, span, size, _) = later_response_copies v later long fits in
      (l', e, at, span, size)

  -- Whatever its clock, the step comes to an end at a clock that is not earlier than either one.
  pub later_response_ends :
      Lamport.IsValid clock
      → 16 ≤ length value
      → buf.size ≤ length l.tmp
      → (l' : Latest) × (later_response (add_meta_size (length key)) l buf ≡ some l')
        × (Lamport.to_int l.clock ≤ Lamport.to_int l'.clock)
        × (Lamport.to_int clock ≤ Lamport.to_int l'.clock)
        × (length l'.tmp ≡ length l.tmp)
  unfolding later_response Lamport.gt
  later_response_ends v long fits = elim (Bool-cases (Lamport.gt clock l.clock)) [
    | inl later ↦
        let (l', e, at, _, _, same) = later_response_copies v later long fits in
        let clock_at : Lamport.to_int l'.clock ≡ Lamport.to_int clock = ap Lamport.to_int at in
        (l', e, ground (arith, later, clock_at), omega (arith, clock_at), same)
    | inr earlier ↦ (
      record l { counts = count_clock clock l.counts },
      rw (clock_read v, ◌>>=◌, earlier) refl,
      omega arith,
      ground (arith, earlier),
      refl,
    )
  ]

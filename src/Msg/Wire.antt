-- ===== src/Msg/Wire.antt =====
-- The bytes of a message determine it.
use avocado.Common.{
  ℕ, ◌+◌, ◌^◌, ◌≤◌, ◌<◌, ◌≡◌, ◌∙◌, ap, some, List, ◌++◌, take, drop, length, length-append, arith,
}
use avocado.Common.Bytes.{
  le_bytes, le_value, length-le_bytes, le_value-le_bytes, take-append_eq, drop-append_eq,
  drop-append_add,
}
use avocado.Msg.{Msg, header_size, of_bytes, to_bytes}

pub of_bytes_enough :
    (mem : List ℕ)
    → header_size ≤ length mem
    → of_bytes mem
      ≡ some (record {
        key_size = le_value (take 8 mem);
        size = le_value (take 8 (drop 8 mem));
        buf = drop header_size mem;
      })
unfolding of_bytes
of_bytes_enough mem h = ground arith

pub eq_of_fields : (m n : Msg) → m.key_size ≡ n.key_size → m.size ≡ n.size → m.buf ≡ n.buf → m ≡ n
eq_of_fields m n p q r = λ i. record { key_size = p i; size = q i; buf = r i }

pub length-to_bytes : (m : Msg) → length (to_bytes m) ≡ header_size + length m.buf
unfolding to_bytes
length-to_bytes m = omega (
  arith,
  length-append (le_bytes 8 m.key_size) (le_bytes 8 m.size ++ m.buf),
  length-append (le_bytes 8 m.size) m.buf,
  length-le_bytes 8 m.key_size,
  length-le_bytes 8 m.size,
)

-- Reading the bytes of a message as a message gives it back, if its sizes fit 64 bits.
pub of_bytes-to_bytes :
    (m : Msg) → m.key_size < 2 ^ 64 → m.size < 2 ^ 64 → of_bytes (to_bytes m) ≡ some m
unfolding to_bytes
of_bytes-to_bytes m hk hs =
    of_bytes_enough (to_bytes m) (omega (arith, length-to_bytes m))
    ∙ ap some (eq_of_fields _ m key size buf)
  where
    a : List ℕ
    a = le_bytes 8 m.key_size

    b : List ℕ
    b = le_bytes 8 m.size

    key : le_value (take 8 (to_bytes m)) ≡ m.key_size
    key =
        ap le_value (take-append_eq a (b ++ m.buf) (length-le_bytes 8 m.key_size))
        ∙ le_value-le_bytes 8 m.key_size hk

    size : le_value (take 8 (drop 8 (to_bytes m))) ≡ m.size
    size =
        ap (λ l. le_value (take 8 l)) (drop-append_eq a (b ++ m.buf) (length-le_bytes 8 m.key_size))
        ∙ ap le_value (take-append_eq b m.buf (length-le_bytes 8 m.size))
        ∙ le_value-le_bytes 8 m.size hs

    buf : drop header_size (to_bytes m) ≡ m.buf
    buf =
        drop-append_add a (b ++ m.buf) 8 (length-le_bytes 8 m.key_size)
        ∙ drop-append_eq b m.buf (length-le_bytes 8 m.size)

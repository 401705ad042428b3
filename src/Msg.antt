-- ===== src/Msg.antt =====
-- Messages: `Msg` and `MsgBuilder` of src/include/protocol/abd/msg.h.
-- A message is the `Encoded_msg` that the code lays over an array of bytes: two 64-bit sizes and
-- the bytes behind them, up to the end of the array. `none` is an access out of the array.
pub mod Build
pub mod Wire
mod Tests
use avocado.Common.{
  ℕ, ◌+◌, ◌-◌, ◌%◌, ◌^◌, Bool, Option, none, some, List, [], ◌++◌, take, drop, length, replicate,
  ltb, leb, if◌then◌else◌, ◌>>=◌,
}
use avocado.Common.Bytes.{le_bytes, le_value, read, write}

pub record Msg : Type 0 where
  pub key_size : ℕ
  pub size : ℕ
  pub buf : List ℕ

-- `sizeof (Encoded_msg)`
abbrev pub header_size : ℕ
header_size = 16

unfoldable pub adjust_size : ℕ → ℕ
adjust_size size = (size + header_size) % 2 ^ 64

-- `get_ptr`: the array read as a message, and the message as the bytes of its array.
unfoldable pub of_bytes : List ℕ → Option Msg
of_bytes mem =
    if leb header_size (length mem)
    then some (record {
      key_size = le_value (take 8 mem);
      size = le_value (take 8 (drop 8 mem));
      buf = drop header_size mem;
    })
    else none

unfoldable pub to_bytes : Msg → List ℕ
to_bytes m = le_bytes 8 m.key_size ++ (le_bytes 8 m.size ++ m.buf)

-- `Msg (size_t size)`: `std::make_unique` fills the array with zeros.
unfoldable pub alloc : ℕ → Option Msg
unfolding of_bytes
alloc size = of_bytes (replicate size 0)

unfoldable pub has_value : Msg → Bool
has_value m = ltb m.key_size m.size

unfoldable pub get_value_size : Msg → ℕ
get_value_size m = if ltb m.key_size m.size then m.size - m.key_size else 0

-- The bytes that a span names. The span `{0, nullptr}` has none.
unfoldable pub get_key : Msg → Option (List ℕ)
get_key m = read 0 m.key_size m.buf

unfoldable pub get_value : Msg → Option (List ℕ)
get_value m = if ltb m.key_size m.size then read m.key_size (m.size - m.key_size) m.buf else some []

-- `MsgBuilder (max_size)`
unfoldable pub builder : ℕ → Option Msg
unfolding alloc adjust_size
builder max_size = do m ← alloc (adjust_size max_size); some (record m { key_size = 0; size = 0 })

-- `add_key` writes behind the key and moves both sizes on; `add_value` writes behind all.
unfoldable pub add_key : List ℕ → Msg → Option Msg
add_key key m = do
  buf ← write m.key_size key m.buf
  some (record {
    key_size = (m.key_size + length key) % 2 ^ 64;
    size = (m.size + length key) % 2 ^ 64;
    buf = buf;
  })

unfoldable pub add_value : List ℕ → Msg → Option Msg
add_value value m = do
  buf ← write m.size value m.buf
  some (record m { size = (m.size + length value) % 2 ^ 64; buf = buf })

-- ===== src/Protocol/Routing.antt =====
-- Which shard a key belongs to: `get_idx` and `send_and_encrypt_msg` of `ABD`.
use avocado.Common.{
  ℕ, ◌-◌, ◌%◌, Option, none, some, List, [], ◌∷◌, length, leb, if◌then◌else◌, ◌>>=◌,
}
use avocado.Common.Bytes.{le_value, read}

-- The last bytes of the key, as many as a machine word of 8, 4, 2 or 1 bytes has.
unfoldable pub word_size : ℕ → ℕ
word_size size = if leb 8 size then 8 else if leb 4 size then 4 else if leb 2 size then 2 else 1

-- A key of less than two bytes is read at its first byte. `% 0` is a division fault.
unfoldable pub get_idx : List (List ℕ) → List ℕ → Option ℕ
unfolding word_size
get_idx [] key = none
get_idx (r ∷ rs) key = do
  word ← read (length key - word_size (length key)) (word_size (length key)) key
  some (le_value word % length (r ∷ rs))

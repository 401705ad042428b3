-- ===== src/KeyAccess.antt =====
-- A clock behind a key: `KeyAccess` of src/include/protocol/abd/key_access.h.
mod Tests
use Prim.Native.Nat.{Ordering}
use avocado.Common.{
  ℕ, ◌+◌, ◌-◌, ◌%◌, ◌^◌, ◌<◌, ◌≡◌, refl, sym, ap, ◌∙◌, Bool, true, false, Option, none, some, List,
  [], ◌++◌, length, length-append, take, drop, arith, ◌>>=◌,
}
use avocado.Common.Bytes.{
  le_bytes, le_value, read, memcmp, length-le_bytes, le_value-le_bytes, take-append_eq,
  drop-append_eq, read-append_end,
}
use avocado.Lamport.{Lamport, IsValid}

-- `sizeof (Lamport)`, and the two 32-bit fields in memory order
abbrev pub meta_size : ℕ
meta_size = 8

unfoldable pub lamport_bytes : Lamport → List ℕ
unfolding le_bytes
lamport_bytes l = le_bytes 4 l.count ++ le_bytes 4 l.m_id

unfoldable pub bytes_lamport : List ℕ → Lamport
unfolding le_value
bytes_lamport bs = record { count = le_value (take 4 bs); m_id = le_value (drop 4 bs) }

-- `size_t` wraps below `meta_size`.
abbrev pub sub_meta_size : ℕ → ℕ
sub_meta_size size = (size + 2 ^ 64 - meta_size) % 2 ^ 64

abbrev pub add_meta_size : ℕ → ℕ
add_meta_size size = (size + meta_size) % 2 ^ 64

is_eq : Ordering → Bool
is_eq Ordering.eq = true
is_eq _ = false

-- The keys agree on all but the clock behind them.
unfoldable pub equal : List ℕ → List ℕ → ℕ → Bool
unfolding is_eq
equal lhs rhs size = is_eq (memcmp (sub_meta_size size) lhs rhs)

-- The null key has the clock `Lamport (0, ~0)`. A fault is a read out of the key's array.
unfoldable pub get_lamport : ℕ → Option (List ℕ) → Option Lamport
get_lamport size none = some (record { count = 0; m_id = 0xffff_ffff })
get_lamport size (some key) = do
  bs ← read (sub_meta_size size) meta_size key
  some (bytes_lamport bs)

pub length-lamport_bytes : (l : Lamport) → length (lamport_bytes l) ≡ meta_size
unfolding lamport_bytes
length-lamport_bytes l = omega (
  arith,
  length-append (le_bytes 4 l.count) (le_bytes 4 l.m_id),
  length-le_bytes 4 l.count,
  length-le_bytes 4 l.m_id,
)

pub bytes_lamport-lamport_bytes : (l : Lamport) → IsValid l → bytes_lamport (lamport_bytes l) ≡ l
unfolding bytes_lamport lamport_bytes
bytes_lamport-lamport_bytes l v = λ i. record { count = p i; m_id = q i }
  where
    p : le_value (take 4 (le_bytes 4 l.count ++ le_bytes 4 l.m_id)) ≡ l.count
    p =
        ap le_value
          (take-append_eq (le_bytes 4 l.count) (le_bytes 4 l.m_id) (length-le_bytes 4 l.count))
        ∙ le_value-le_bytes 4 l.count v.count_fits

    q : le_value (drop 4 (le_bytes 4 l.count ++ le_bytes 4 l.m_id)) ≡ l.m_id
    q =
        ap le_value
          (drop-append_eq (le_bytes 4 l.count) (le_bytes 4 l.m_id) (length-le_bytes 4 l.count))
        ∙ le_value-le_bytes 4 l.m_id v.m_id_fits

-- The clock that was put behind a key is read back from it, and `adjust_size` gives the key's own
-- size again.
pub get_lamport-append :
    (key : List ℕ) (l : Lamport)
    → IsValid l
    → length key < 2 ^ 63
    → (get_lamport (add_meta_size (length key)) (some (key ++ lamport_bytes l)) ≡ some l)
      × (sub_meta_size (add_meta_size (length key)) ≡ length key)
unfolding get_lamport
get_lamport-append key l v small = (
  ap (λ o. o >>= (λ bs. some (bytes_lamport bs))) clock_read
      ∙ ap some (bytes_lamport-lamport_bytes l v),
  omega arith,
)
  where
    clock_read :
        read (sub_meta_size (add_meta_size (length key))) meta_size (key ++ lamport_bytes l)
        ≡ some (lamport_bytes l)
    clock_read = read-append_end key (lamport_bytes l) (omega arith) (length-lamport_bytes l)

-- ===== src/Lamport.antt =====
-- Lamport clocks with a machine id: the class of src/include/protocol/abd/lamport.h.
-- The comparison operators are those of the `LAMPORT_OPERATOR` branch: through `to_int`.
pub mod Order
mod Tests
use Prim.Native.Nat.{bit_and, bit_or}
use avocado.Common.{ℕ, ◌*◌, ◌/◌, ◌%◌, ◌^◌, ◌<◌, Bool, not, ltb, leb, ◌==◌}

-- `Count_t` and `M_id_t` are `uint32_t`.
pub record Lamport : Type 0 where
  pub count : ℕ
  pub m_id : ℕ

-- Both fields fit 32 bits.
pub record IsValid (l : Lamport) : Type 0 where
  pub count_fits : l.count < 2 ^ 32
  pub m_id_fits : l.m_id < 2 ^ 32

-- `(res << 32) | l.m_id` in `uint64_t`
unfoldable pub to_int : Lamport → ℕ
to_int l = bit_or (l.count * 2 ^ 32 % 2 ^ 64) l.m_id

-- The explicit constructor from `Int_t`. The initialiser of `count` narrows to 32 bits.
unfoldable pub of_int : ℕ → Lamport
of_int l = record { count = l / 2 ^ 32 % 2 ^ 32; m_id = bit_and l 0xffff_ffff }

unfoldable pub set_count : Lamport → ℕ → Lamport
set_count l count = record l { count = count }

abbrev pub min : Lamport
min = record { count = 0; m_id = 0 }

abbrev pub max : Lamport
max = record { count = 0xffff_ffff; m_id = 0xffff_ffff }

unfoldable pub lt : Lamport → Lamport → Bool
unfolding to_int
lt a b = ltb (to_int a) (to_int b)

unfoldable pub gt : Lamport → Lamport → Bool
unfolding to_int
gt a b = ltb (to_int b) (to_int a)

unfoldable pub le : Lamport → Lamport → Bool
unfolding to_int
le a b = leb (to_int a) (to_int b)

unfoldable pub ge : Lamport → Lamport → Bool
unfolding to_int
ge a b = leb (to_int b) (to_int a)

unfoldable pub eq : Lamport → Lamport → Bool
unfolding to_int
eq a b = to_int a == to_int b

unfoldable pub ne : Lamport → Lamport → Bool
unfolding to_int
ne a b = not (to_int a == to_int b)

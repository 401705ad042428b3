-- ===== src/Lamport/Tests.antt =====
-- Runs of the clock at concrete values.
use avocado.Common.{◌^◌, ◌*◌, ◌+◌, ◌≡◌, refl, true}
use avocado.Lamport.{Lamport, to_int, set_count, lt}

abbrev early : Lamport
early = record { count = 3; m_id = 9 }

abbrev late : Lamport
late = record { count = 4; m_id = 1 }

packs : to_int early ≡ 3 * 2 ^ 32 + 9
unfolding to_int
packs = refl

ordered_by_count : (lt early late ≡ true) × (lt (set_count late 3) early ≡ true)
unfolding lt set_count
ordered_by_count = (refl, refl)

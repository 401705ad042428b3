-- ===== src/KeyAccess/Tests.antt =====
-- A key with its clock, at concrete bytes.
use avocado.Common.{ℕ, ◌≡◌, refl, List, [], ◌∷◌}
use avocado.Lamport.{Lamport}
use avocado.KeyAccess.{lamport_bytes}

abbrev key : List ℕ
key = 1 ∷ 2 ∷ 3 ∷ []

abbrev clock : Lamport
clock = record { count = 258; m_id = 7 }

bytes_in_order : lamport_bytes clock ≡ 2 ∷ 1 ∷ 0 ∷ 0 ∷ 7 ∷ 0 ∷ 0 ∷ 0 ∷ []
unfolding lamport_bytes
bytes_in_order = refl

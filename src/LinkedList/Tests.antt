-- ===== src/LinkedList/Tests.antt =====
-- A list at work, and the theorems about lists at concrete inputs.
use avocado.Common.{ℕ, ◌≡◌, refl, none, some, List, [], ◌∷◌}
use avocado.LinkedList.Chain.{Chain}
use avocado.LinkedList.{NodeList, empty_list, emplace_front}

-- The values 7 and 8 at the addresses 1 and 0
abbrev two : NodeList ℕ
two = record {
  nodes = record { val = 8; next = none } ∷ record { val = 7; next = some 0 } ∷ [];
  head = some 1;
  count = 0;
}

two_pushed : emplace_front (emplace_front empty_list 8) 7 ≡ two
unfolding emplace_front
two_pushed = refl

abbrev contents : List (ℕ × ℕ)
contents = (1, 7) ∷ (0, 8) ∷ []

two-Chain : Chain two.nodes two.head contents
unfolding Chain
two-Chain = (refl, some 0, refl, (refl, none, refl, refl))

-- ===== src/Msg/Tests.antt =====
-- A message at concrete bytes, and the theorems about messages at concrete inputs.
use avocado.Common.{
  ℕ, ◌+◌, ◌<◌, ◌≡◌, ◌↔◌, none, refl, some, List, [], ◌∷◌, ◌++◌, length, arith, ◌>>=◌,
}
use avocado.Common.Bytes.{write}
use avocado.Msg.Build.{Holds, build_lem, overflow_iff}
use avocado.Msg.{Msg, get_key, get_value, builder, add_key, add_value}

abbrev key : List ℕ
key = 1 ∷ 2 ∷ []

abbrev clock : List ℕ
clock = 9 ∷ []

abbrev value : List ℕ
value = 5 ∷ 6 ∷ 7 ∷ []

-- One byte of room is left.
abbrev message : Msg
message = record { key_size = 2; size = 5; buf = key ++ (value ++ (0 ∷ [])) }

message-Holds : Holds message key value 1
message-Holds = record {
  rest = 0 ∷ [];
  room_left = refl;
  key_size = refl;
  size = refl;
  layout = refl;
  small = omega arith;
}

build_lem_example :
    (m : Msg) × (builder 8 >>= add_key key >>= add_key clock >>= add_value value ≡ some m)
    × (get_key m ≡ some (key ++ clock))
    × (get_value m ≡ some value)
    × (m.key_size ≡ length key + length clock)
    × (m.size ≡ length key + length clock + length value)
build_lem_example = build_lem 8 key clock value (omega arith) (omega arith)

overflow_iff_example :
    ((add_value key message ≡ none) ↔ (1 < length key))
    × ((add_key key message ≡ none) ↔ (length value + 1 < length key))
overflow_iff_example = overflow_iff key message-Holds

-- A key behind a value is written over it.
key_over_value :
    builder 4 >>= add_key key >>= add_value (7 ∷ []) >>= add_key (3 ∷ [])
    ≡ some (record { key_size = 3; size = 4; buf = 1 ∷ 2 ∷ 3 ∷ 0 ∷ [] })
unfolding builder add_key add_value write
key_over_value = refl

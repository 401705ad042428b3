-- ===== src/Server/Tests.antt =====
-- The server's parts at concrete values, and the theorems about them at concrete inputs.
use mathlib.Core.List.Perm
use avocado.Msg.{Msg}
use avocado.Protocol.Context.{default_node, create, last_msg}
use avocado.Protocol.Operations.{send_cmd}
use avocado.Protocol.Padding.{padding}
use avocado.Protocol.Requests.{get_data, handle_cmd}
use avocado.Protocol.{Effect, ReqType, ContType}
use avocado.Server.Commands.{Counts, done, on_cmd, answer, on_cmd_ret, command_answered}
use avocado.Common.{ℕ, ◌≤◌, ◌≡◌, refl, Bool, true, false, some, List, [], ◌∷◌, map, arith}
use avocado.Server.RateLimit.{
  Limit, Pc, Reach, begin, next, load_step, round_step, load, round, release, limit_kept,
}
use avocado.Common.{ltb, if◌then◌else◌, ◌-◌, ◌%◌}
use avocado.Server.Slices.{slices, step_size, holders, slices_cover}
use avocado.Server.Placement.{permutations, replica_ordering}

-- Three threads divide ten commands, and the last one goes to none.
ten_commands : slices 10 3 0 3 ≡ (0, 3) ∷ (3, 6) ∷ (6, 9) ∷ []
unfolding slices
ten_commands = refl

slices_cover_example : holders 9 (slices 10 3 0 3) ≡ (if ltb 9 (10 - 10 % 3) then 1 else 0)
unfolding step_size
slices_cover_example = slices_cover 10 3 3 9 refl

-- The second of four nodes, whose names are one byte; the others are not sorted, and the session of a node is
-- its name's first byte.
abbrev session : List ℕ → ℕ
session [] = 0
session (x ∷ xs) = x

abbrev order : List (Bool × ℕ × ℕ)
order = (true, 0, 1) ∷ (true, 0, 2) ∷ (false, 0, 1) ∷ (true, 1, 2) ∷ []

second_of_four :
    permutations ((9 ∷ []) ∷ (4 ∷ []) ∷ (8 ∷ []) ∷ []) (5 ∷ [])
    ≡ ((4 ∷ []) ∷ (8 ∷ []) ∷ (9 ∷ []) ∷ [], order)
unfolding permutations
second_of_four = refl

two_of_four :
    replica_ordering (7 ∷ 8 ∷ 9 ∷ []) order
    ≡ some ((7 ∷ 8 ∷ []) ∷ (7 ∷ 9 ∷ []) ∷ [] ∷ (8 ∷ 9 ∷ []) ∷ [])
unfolding replica_ordering
two_of_four = refl

-- Two threads and room for one operation: both load, one gets in, the other one fails and loads one.
abbrev crowded : (s : Limit) × Reach 1 s
unfolding load round release
crowded = (
  _,
  next
      (next
        (next (next (next begin (load_step 0 refl)) (load_step 1 refl)) (round_step 0 0 false refl))
        (round_step 1 0 false refl))
      (round_step 1 1 false refl),
)

limit_kept_example : (crowded.0.request ≡ crowded.0.running) × (crowded.0.running ≤ 1)
limit_kept_example = limit_kept 1 (omega arith) crowded.1

crowded_result : (crowded.0.request ≡ 1) × (crowded.0.pc 1 ≡ Pc.outside)
unfolding load round release
crowded_result = (refl, refl)

abbrev mine : Counts
mine = record { other_finished = 0; others_finished_d = 0; others_ack = 1; others_ack_d = 1 }

command_answered_example :
    (bytes : List ℕ) × (received : Msg) × (sent_back : Msg) × (reply : List ℕ) × (back : Msg)
    × (send_cmd padding (7 ∷ 8 ∷ []) 5 done
        ≡ some (
          record (create default_node) { n_msgs = 2 },
          map (λ session. Effect.request session ReqType.cmd ContType.cmd_ret bytes) (7 ∷ 8 ∷ []),
        ))
    × (get_data padding bytes ≡ some received)
    × (on_cmd mine received
        ≡ some (sent_back, record mine { other_finished = 1; others_finished_d = 1 }))
    × (handle_cmd padding (some (answer mine)) 6 bytes ≡ some (Effect.respond reply ∷ []))
    × (last_msg padding (record (create default_node) { cache = (9 ∷ []) ∷ reply ∷ [] })
        ≡ some back)
    × (on_cmd_ret mine 2 back ≡ some (record mine { others_ack = 2; others_ack_d = 2 }, true))
command_answered_example =
    command_answered padding (7 ∷ 8 ∷ []) 5 6 2 done mine mine (create default_node) ((9 ∷ []) ∷ [])
      (omega arith) (omega arith) (omega arith)

-- ===== src/Protocol/Tests.antt =====
-- The protocol at concrete messages, and its theorems at concrete inputs.
use avocado.Common.{
  ◌+◌, ◌-◌, ◌*◌, ◌≡◌, refl, Bool, true, false, not, ◌&&◌, List, [], ◌∷◌, length, replicate, arith,
  inr, if◌then◌else◌,
}
use avocado.Protocol.Context.{Context, default_node, create, too_few, run_conts}
use avocado.Protocol.Quorum.{
  IsCounting, answered, meet, run_conts_once, quorums_meet, disjoint_quorums,
}

-- Four messages are out and one response is back.
abbrev waiting : Context
waiting = record (create default_node) {
  n_resp = 1;
  n_msgs = 4;
  cache = replicate 1 (replicate 52 0);
}

waiting-IsCounting : IsCounting waiting
unfolding too_few
waiting-IsCounting = record { counted = refl; waiting = inr (inr refl) }

run_conts_once_example :
    (run_conts waiting (replicate 3 (replicate 52 0))).1
    ≡ (if true && not (too_few (1 + 3) 4) then 1 else 0)
unfolding create
run_conts_once_example = run_conts_once waiting (replicate 3 (replicate 52 0)) refl

-- Three nodes: the coordinator and one of the two others, both ways
quorums_meet_example : meet (true ∷ true ∷ false ∷ []) (false ∷ true ∷ true ∷ []) ≡ true
unfolding too_few
quorums_meet_example =
    quorums_meet 2 (true ∷ true ∷ false ∷ []) (false ∷ true ∷ true ∷ []) refl refl refl
      (omega arith) (omega arith) refl refl

disjoint_quorums_example :
    (s : List Bool) × (t : List Bool) × (length s ≡ 2 * 1 + 1 + 1)
    × (length t ≡ 2 * 1 + 1 + 1)
    × (too_few (answered s - 1) (2 * 1 + 1) ≡ false)
    × (too_few (answered t - 1) (2 * 1 + 1) ≡ false)
    × (meet s t ≡ false)
disjoint_quorums_example = disjoint_quorums 1 (omega arith)

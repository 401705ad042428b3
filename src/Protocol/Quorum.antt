-- ===== src/Protocol/Quorum.antt =====
-- How many responses a continuation waits for, and that it runs once.
use avocado.Common.{
  ℕ, zero, suc, ◌+◌, ◌-◌, ◌*◌, ◌∙◌, ap₂, ◌/◌, ◌%◌, ◌≤◌, ◌<◌, max, ◌≡◌, ◌≢◌, ◌↔◌, ◌⊎◌, inl, inr,
  Bool-cases, refl, Bool, true, false, not, ◌&&◌, ◌||◌, List, [], ◌∷◌, ◌++◌, length, length-append,
  ltb, replicate, length-replicate, arith, if◌then◌else◌,
}
use avocado.Protocol.Context.{Context, too_few, req_conts, run_conts}

-- A context as the responses leave it: the counter counts the cache, and the body has not run before
-- a quorum.
pub record IsCounting (c : Context) : Type 0 where
  pub counted : length c.cache ≡ c.n_resp
  pub waiting : (c.is_done ≡ true) ⊎ ((c.n_resp ≡ 0) ⊎ (too_few c.n_resp c.n_msgs ≡ true))

pub req_conts-IsCounting :
    (c : Context) (resp : List ℕ) → IsCounting c → IsCounting (req_conts c resp).0
unfolding req_conts
req_conts-IsCounting c resp v = record {
  counted = ground (arith, v.counted, length-append c.cache (resp ∷ []));
  waiting = ground (arith, v.waiting);
}

-- When the body runs, the cache has exactly half of the messages' number, but one response at least.
pub req_conts_quorum :
    (c : Context) (resp : List ℕ)
    → IsCounting c
    → (req_conts c resp).1 ≡ true
    → (length (req_conts c resp).0.cache ≡ max 1 (c.n_msgs / 2))
      × ((req_conts c resp).0.is_done ≡ true)
      × ((req_conts c resp).0.n_msgs ≡ c.n_msgs)
unfolding req_conts
req_conts_quorum c resp v h =
    ground (arith, v.counted, v.waiting, length-append c.cache (resp ∷ []))

run_conts_done :
    (c : Context) (resps : List (List ℕ)) → c.is_done ≡ true → (run_conts c resps).1 ≡ 0
unfolding run_conts
run_conts_done c [] h = refl
run_conts_done c (resp ∷ resps) h = ground (arith, run_conts_done (req_conts c resp).0 resps)

abbrev some_response : List (List ℕ) → Bool
some_response [] = false
some_response (resp ∷ resps) = true

-- However many responses come, the body runs once if there is one and they are no fewer than the test
-- asks for, and not at all otherwise.
pub run_conts_once :
    (c : Context) (resps : List (List ℕ))
    → c.is_done ≡ false
    → (run_conts c resps).1
      ≡ (if some_response resps && not (too_few (c.n_resp + length resps) c.n_msgs) then 1 else 0)
unfolding run_conts
run_conts_once c [] h = refl
run_conts_once c (resp ∷ resps) h = elim (Bool-cases (req_conts c resp).1) [
  | inl ran ↦ ground (arith, run_conts_done (req_conts c resp).0 resps)
  | inr waits ↦ ground (arith, run_conts_once (req_conts c resp).0 resps, some_response resps)
]

-- Which nodes of a cluster answered, the coordinator among them, and whether two such sets meet.
abbrev pub answered : List Bool → ℕ
answered [] = 0
answered (true ∷ s) = suc (answered s)
answered (false ∷ s) = answered s

abbrev pub meet : List Bool → List Bool → Bool
meet [] t = false
meet (a ∷ s) [] = false
meet (a ∷ s) (b ∷ t) = a && b || meet s t

apart-le :
    (s t : List Bool) → length s ≡ length t → meet s t ≡ false → answered s + answered t ≤ length s
apart-le [] [] e h = omega arith
apart-le [] (b ∷ t) e h = absurd (omega arith)
apart-le (a ∷ s) [] e h = absurd (omega arith)
apart-le (a ∷ s) (b ∷ t) e h = ground (arith, apart-le s t)

-- In a cluster with an even number of other nodes any two sets of nodes that pass the test, each
-- with its coordinator, have a node in common.
pub quorums_meet :
    (n_msgs : ℕ) (s t : List Bool)
    → n_msgs % 2 ≡ 0
    → length s ≡ n_msgs + 1
    → length t ≡ n_msgs + 1
    → 0 < answered s
    → 0 < answered t
    → too_few (answered s - 1) n_msgs ≡ false
    → too_few (answered t - 1) n_msgs ≡ false
    → meet s t ≡ true
unfolding too_few
quorums_meet n_msgs s t even ls lt ps pt hs ht = elim (Bool-cases (meet s t)) [
  | inl yes_meet ↦ yes_meet
  | inr apart ↦ absurd (ground (arith, apart-le s t (omega arith) apart))
]

answered-append : (s t : List Bool) → answered (s ++ t) ≡ answered s + answered t
answered-append [] t = omega arith
answered-append (true ∷ s) t = omega (arith, answered-append s t)
answered-append (false ∷ s) t = answered-append s t

answered-replicate : (n : ℕ) (b : Bool) → answered (replicate n b) ≡ (if b then n else 0)
answered-replicate zero true = refl
answered-replicate zero false = refl
answered-replicate (suc n) true = omega (arith, answered-replicate n true)
answered-replicate (suc n) false = answered-replicate n false

halves_apart :
    (n m : ℕ)
    → meet (replicate n true ++ replicate m false) (replicate n false ++ replicate m true) ≡ false
halves_apart zero zero = refl
halves_apart zero (suc m) = halves_apart zero m
halves_apart (suc n) m = halves_apart n m

-- With an odd number of other nodes, three or more, the test lets half of the nodes pass: there are
-- two sets that pass and have no node in common.
pub disjoint_quorums :
    (k : ℕ)
    → 0 < k
    → (s : List Bool) × (t : List Bool) × (length s ≡ 2 * k + 1 + 1)
      × (length t ≡ 2 * k + 1 + 1)
      × (too_few (answered s - 1) (2 * k + 1) ≡ false)
      × (too_few (answered t - 1) (2 * k + 1) ≡ false)
      × (meet s t ≡ false)
unfolding too_few
disjoint_quorums k h = (
  replicate (k + 1) true ++ replicate (k + 1) false,
  replicate (k + 1) false ++ replicate (k + 1) true,
  sizes true false,
  sizes false true,
  ground (arith, votes true false),
  ground (arith, votes false true),
  halves_apart (k + 1) (k + 1),
)
  where
    sizes : (a b : Bool) → length (replicate (k + 1) a ++ replicate (k + 1) b) ≡ 2 * k + 1 + 1
    sizes a b = omega (
      arith,
      length-append (replicate (k + 1) a) (replicate (k + 1) b),
      length-replicate (k + 1) a,
      length-replicate (k + 1) b,
    )

    votes :
        (a b : Bool)
        → answered (replicate (k + 1) a ++ replicate (k + 1) b)
          ≡ (if a then k + 1 else 0) + (if b then k + 1 else 0)
    votes a b =
        answered-append (replicate (k + 1) a) (replicate (k + 1) b)
        ∙ ap₂ ◌+◌ (answered-replicate (k + 1) a) (answered-replicate (k + 1) b)

-- `(n_resp + 1) < (rep_context->n_msgs + 1) / 2`, the test that the comment above the code gives
abbrev pub comment_too_few : ℕ → ℕ → Bool
comment_too_few n_resp n_msgs = ltb (n_resp + 1) ((n_msgs + 1) / 2)

-- The code's test differs from the one in the comment exactly for an even number of messages that is
-- two more than twice the responses: there the code waits for one response more.
too_few-comment :
    (n_resp n_msgs : ℕ)
    → (too_few n_resp n_msgs ≢ comment_too_few n_resp n_msgs) ↔ (n_msgs ≡ 2 * n_resp + 2)
unfolding too_few
too_few-comment n_resp n_msgs = ground arith

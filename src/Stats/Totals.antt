-- ===== src/Stats/Totals.antt =====
-- What the counters hold when all threads are done: the order of the additions does not matter.
use avocado.Common.{
  ℕ, ◌+◌, ◌%◌, ◌^◌, ◌<◌, ◌≡◌, refl, List, [], ◌∷◌, ◌++◌, if◌then◌else◌, map, arith,
}
use avocado.Stats.{
  Counter, Counters, FetchAdd, same, start, fetch_add, run, Interleaved, idle, over, step,
}

module _ (c : Counter) where
  -- What a list of additions adds to the counter
  abbrev pub total : List FetchAdd → ℕ
  total [] = 0
  total (a ∷ adds) = (if same a.counter c then a.amount else 0) + total adds

  abbrev pub total_all : List (List FetchAdd) → ℕ
  total_all [] = 0
  total_all (adds ∷ threads) = total adds + total_all threads

  pub total-append : (adds bs : List FetchAdd) → total (adds ++ bs) ≡ total adds + total bs
  total-append [] bs = omega arith
  total-append (a ∷ adds) bs = omega (arith, total-append adds bs)

  total_all-append :
      (before after : List (List FetchAdd))
      → total_all (before ++ after) ≡ total_all before + total_all after
  total_all-append [] after = omega arith
  total_all-append (adds ∷ before) after = omega (arith, total_all-append before after)

  run-total :
      (adds : List FetchAdd) (s : Counters)
      → s c < 2 ^ 64
      → run adds s c ≡ (s c + total adds) % 2 ^ 64
  unfolding run fetch_add
  run-total [] s small = omega arith
  run-total (a ∷ adds) s small = ground (arith, run-total adds (fetch_add a s))

  Interleaved-total :
      {threads : List (List FetchAdd)} {adds : List FetchAdd}
      → Interleaved threads adds
      → total adds ≡ total_all threads
  Interleaved-total idle = refl
  Interleaved-total (over threads adds h) = omega (arith, Interleaved-total h)
  Interleaved-total (step before a rest after adds h) = omega (
    arith,
    Interleaved-total h,
    total_all-append before (rest ∷ after),
    total_all-append before ((a ∷ rest) ∷ after),
  )

  -- However the threads interleave, a counter holds all that they add to it, by its width.
  pub run-Interleaved :
      {threads : List (List FetchAdd)} {adds : List FetchAdd}
      → Interleaved threads adds
      → run adds start c ≡ total_all threads % 2 ^ 64
  run-Interleaved {threads} {adds} h =
      omega (arith, run-total adds start (omega arith), Interleaved-total h)

-- The sum of what single calls of a thread and of all threads add
module _ {ℓ} {A : Type ℓ} where
  abbrev pub sum : (A → ℕ) → List A → ℕ
  sum f [] = 0
  sum f (x ∷ xs) = f x + sum f xs

  abbrev pub in_order : (A → List FetchAdd) → List A → List FetchAdd
  in_order program [] = []
  in_order program (x ∷ xs) = program x ++ in_order program xs

module _ {ℓ} {A : Type ℓ} where
  module _ (c : Counter) (program : A → List FetchAdd) (amount : A → ℕ)
      (h : (x : A) → total c (program x) ≡ amount x) where
    total-in_order : (calls : List A) → total c (in_order program calls) ≡ sum amount calls
    total-in_order [] = refl
    total-in_order (x ∷ xs) =
        omega (arith, total-append c (program x) (in_order program xs), h x, total-in_order xs)

    total_all-in_order :
        (threads : List (List A))
        → total_all c (map (in_order program) threads) ≡ sum (sum amount) threads
    total_all-in_order [] = refl
    total_all-in_order (calls ∷ threads) =
        omega (arith, total-in_order calls, total_all-in_order threads)

    -- In terms of what each call adds
    pub run-calls :
        (threads : List (List A)) {adds : List FetchAdd}
        → Interleaved (map (in_order program) threads) adds
        → run adds start c ≡ sum (sum amount) threads % 2 ^ 64
    run-calls threads i = omega (arith, run-Interleaved c i, total_all-in_order threads)

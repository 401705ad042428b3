-- ===== src/Memtable/Race.antt =====
-- Threads that put at one key at the same time: their loads and compare-exchanges of the node's meta
-- pointer, in any order. A meta pointer stays at its address while a thread holds it, so that equal
-- addresses are one object.
use avocado.Common.{
  ℕ, ◌≤◌, ◌≡◌, ◌≢◌, ◌⊎◌, subst, sym, ◌∙◌, inl, inr, refl, Bool, true, false, ◌==◌, arith,
  Bool-cases,
}
use avocado.Lamport
use avocado.Lamport.{to_int}
use avocado.Memtable.{MetaData, Round, put_round, update}

-- Where a thread stands in `put`, after its node was found in the list.
pub data Pc : Type 0 where
  start : Pc
  looping : (old : ℕ) → Pc
  finished : (accepted : Bool) → Pc

pub record Racing : Type 0 where
  pub cell : ℕ
  pub pc : ℕ → Pc

-- A round ends the loop by a write over the pointer that was read, or because that is not earlier.
put_round-done :
    (heap : ℕ → MetaData) (spurious : Bool) (meta old new meta' old' : ℕ)
    → put_round heap spurious meta old new ≡ Round.done meta' old'
    → (old' ≡ old)
      × (((Lamport.lt (heap old).clock (heap new).clock ≡ true) × (meta' ≡ new))
          ⊎ ((Lamport.lt (heap old).clock (heap new).clock ≡ false) × (meta' ≡ meta)))
unfolding put_round
put_round-done heap spurious meta old new meta' old' h = ground arith

put_round-again :
    (heap : ℕ → MetaData) (spurious : Bool) (meta old new old' : ℕ)
    → put_round heap spurious meta old new ≡ Round.again old'
    → old' ≡ meta
unfolding put_round
put_round-again heap spurious meta old new old' h = ground arith

module _ (heap : ℕ → MetaData) (new : ℕ → ℕ) where
  -- Thread `i` after a round of its loop.
  unfoldable pub after : Racing → ℕ → Round → Racing
  after s i (Round.done meta old) = record {
    cell = meta;
    pc = update s.pc i (Pc.finished (Lamport.lt (heap old).clock (heap (new i)).clock));
  }
  after s i (Round.again old) = record s { pc = update s.pc i (Pc.looping old) }

  pub data Step (s : Racing) : Racing → Type 0 where
    load :
        (i : ℕ) → s.pc i ≡ Pc.start → Step s (record s { pc = update s.pc i (Pc.looping s.cell) })
    round :
        (i old : ℕ) (spurious : Bool)
        → s.pc i ≡ Pc.looping old
        → Step s (after s i (put_round heap spurious s.cell old (new i)))

  pub data Reach (cell : ℕ) : Racing → Type 0 where
    begin : Reach cell (record { cell = cell; pc = λ i. Pc.start })
    next : {s t : Racing} → Reach cell s → Step s t → Reach cell t

  abbrev stamp : ℕ → ℕ
  stamp a = to_int (heap a).clock

  -- What thread `i` has seen is not later than the cell; a finished thread's clock is not either.
  abbrev Seen : Racing → ℕ → Pc → Type 0
  Seen s i Pc.start = Unit
  Seen s i (Pc.looping old) = stamp old ≤ stamp s.cell
  Seen s i (Pc.finished b) = stamp (new i) ≤ stamp s.cell

  record Inv (cell : ℕ) (s : Racing) : Type 0 where
    seen : (i : ℕ) → Seen s i (s.pc i)
    source : (s.cell ≡ cell) ⊎ ((i : ℕ) × (s.cell ≡ new i) × (s.pc i ≡ Pc.finished true))
    grown : stamp cell ≤ stamp s.cell

  -- No step makes the clock of the stored value earlier.
  pub Step-clock : {s t : Racing} → Step s t → stamp s.cell ≤ stamp t.cell
  unfolding put_round after Lamport.lt
  Step-clock (load i e) = omega arith
  Step-clock {s} (round i old spurious e) = ground arith

  Seen-mono :
      (s t : Racing) (i : ℕ) (p : Pc) → stamp s.cell ≤ stamp t.cell → Seen s i p → Seen t i p
  Seen-mono s t i Pc.start h q = tt
  Seen-mono s t i (Pc.looping old) h q = omega arith
  Seen-mono s t i (Pc.finished b) h q = omega arith

  -- What one step does: it moves one thread that was not finished, and that thread alone writes.
  record Moved (s t : Racing) : Type 0 where
    who : ℕ
    to : Pc
    pcs : (j : ℕ) → t.pc j ≡ update s.pc who to j
    sees : Seen t who to
    unfinished : s.pc who ≢ Pc.finished true
    wrote : (t.cell ≡ s.cell) ⊎ ((t.cell ≡ new who) × (to ≡ Pc.finished true))

  Step-Moved : {s t : Racing} → Step s t → ((i : ℕ) → Seen s i (s.pc i)) → Moved s t
  unfolding after Lamport.lt
  Step-Moved {s} (load i e) seen = record {
    who = i;
    to = Pc.looping s.cell;
    pcs = λ j. refl;
    sees = omega arith;
    unfinished = λ f. cc;
    wrote = inl refl;
  }
  Step-Moved {s} (round i old spurious e) seen =
      go (put_round heap spurious s.cell old (new i)) refl
    where
      saw : stamp old ≤ stamp s.cell
      saw = subst (Seen s i) e (seen i)

      go : (r : Round) → put_round heap spurious s.cell old (new i) ≡ r → Moved s (after s i r)
      go (Round.done meta old') h =
          let d = put_round-done heap spurious s.cell old (new i) meta old' h in
          record {
            who = i;
            to = Pc.finished (Lamport.lt (heap old').clock (heap (new i)).clock);
            pcs = λ j. refl;
            sees = ground (arith, d, saw);
            unfinished = λ f. cc;
            wrote = ground (arith, d);
          }
      go (Round.again old') h = record {
        who = i;
        to = Pc.looping old';
        pcs = λ j. refl;
        sees = ground (arith, put_round-again heap spurious s.cell old (new i) old' h);
        unfinished = λ f. cc;
        wrote = inl refl;
      }

  module _ {cell : ℕ} {s t : Racing} (m : Moved s t) (inv : Inv cell s)
      (h : stamp s.cell ≤ stamp t.cell) where
    Moved-Seen : (j : ℕ) → Seen t j (t.pc j)
    Moved-Seen j = elim (Bool-cases (m.who == j)) [
      | inl same ↦
          let e : j ≡ m.who = ground arith in
          subst (λ k. Seen t k (t.pc k)) (sym e) (subst (Seen t m.who) (sym pc_who) m.sees)
      | inr other ↦
          subst (Seen t j) (sym (m.pcs j ∙ pc_other other))
            (Seen-mono s t j (s.pc j) h (inv.seen j))
    ]
      where
        pc_who : t.pc m.who ≡ m.to
        pc_who = m.pcs m.who ∙ ground arith

        pc_other : (m.who == j) ≡ false → update s.pc m.who m.to j ≡ s.pc j
        pc_other e = rw e

    Moved-source : (t.cell ≡ cell) ⊎ ((i : ℕ) × (t.cell ≡ new i) × (t.pc i ≡ Pc.finished true))
    Moved-source = elim m.wrote [
      | inl keep ↦ elim inv.source [
        | inl e ↦ inl (keep ∙ e)
        | inr (i, c, f) ↦ inr (i, keep ∙ c, m.pcs i ∙ stays i f)
      ]
      | inr (w, fin) ↦ inr (m.who, w, m.pcs m.who ∙ ground arith)
    ]
      where
        stays : (i : ℕ) → s.pc i ≡ Pc.finished true → update s.pc m.who m.to i ≡ Pc.finished true
        stays i f = elim (Bool-cases (m.who == i)) [
          | inl same ↦
              let e : m.who ≡ i = ground arith in
              absurd (m.unfinished (subst (λ k. s.pc k ≡ Pc.finished true) (sym e) f))
          | inr other ↦ rw other f
        ]

  Step-Inv : {cell : ℕ} {s t : Racing} → Step s t → Inv cell s → Inv cell t
  Step-Inv st inv =
      let m = Step-Moved st inv.seen in
      record {
        seen = Moved-Seen m inv (Step-clock st);
        source = Moved-source m inv (Step-clock st);
        grown = omega (arith, inv.grown, Step-clock st);
      }

  Reach-Inv : {cell : ℕ} {s : Racing} → Reach cell s → Inv cell s
  Reach-Inv begin = record { seen = λ i. tt; source = inl refl; grown = omega arith }
  Reach-Inv (next r st) = Step-Inv st (Reach-Inv r)

  -- However the loads and compare-exchanges of racing puts interleave and fail: the stored clock has
  -- not become earlier, it is not earlier than the clock of any put that has returned, and the stored
  -- value is the first one or that of a put that returned true.
  pub puts_keep_latest :
      {cell : ℕ} {s : Racing}
      → Reach cell s
      → (to_int (heap cell).clock ≤ to_int (heap s.cell).clock)
        × ((i : ℕ) (b : Bool)
            → s.pc i ≡ Pc.finished b
            → to_int (heap (new i)).clock ≤ to_int (heap s.cell).clock)
        × ((s.cell ≡ cell) ⊎ ((i : ℕ) × (s.cell ≡ new i) × (s.pc i ≡ Pc.finished true)))
  puts_keep_latest {s = s} r =
      let inv = Reach-Inv r in (inv.grown, λ i b e. subst (Seen s i) e (inv.seen i), inv.source)

-- ===== src/Memtable/Tests.antt =====
-- The store at work over a list of nodes, and the theorems about it at concrete inputs.
use avocado.Common.{
  ℕ, ◌+◌, ◌≤◌, ◌⊎◌, ◌≡◌, refl, Bool, true, false, ◌&&◌, Option, some, List, [], ◌∷◌, arith,
  if◌then◌else◌, ◌>>=◌,
}
use avocado.Common.Bytes.{memcmp}
use avocado.Lamport.{Lamport, to_int}
use avocado.Lamport
use avocado.Memtable.AssocList
use avocado.Memtable.AssocList.{list_table, tag_cipher}
use avocado.Memtable.Interface.{same, lt}
use avocado.Memtable.Put.{IsValid, put-Outcome, node_of}
use avocado.Memtable.Race.{Pc, Racing, Reach, begin, next, load, round, after, puts_keep_latest}
use avocado.Memtable.{MetaData, RetValue, null, nothing, Store, put, get, put_round}

abbrev TestStore : Type 0
TestStore = Store tag_cipher list_table

abbrev empty : TestStore
empty = record {
  table = [];
  heap = λ a. record { mac = []; data_size = 0; clock = Lamport.min; data_bytes = [] };
  next = 1;
  slot = 4;
}

abbrev at : ℕ → Lamport
at n = record { count = n; m_id = 1 }

abbrev k : List ℕ
k = 1 ∷ 2 ∷ []

-- A first put, a later one after one spurious failure, and a stale one that changes nothing.
abbrev session : Option (Bool × Bool × Bool × RetValue × RetValue)
session = do
  (a, s₁) ← put tag_cipher list_table (false ∷ []) empty k (5 ∷ []) (at 3)
  (b, s₂) ← put tag_cipher list_table (true ∷ false ∷ []) s₁ k (6 ∷ 7 ∷ []) (at 4)
  (c, s₃) ← put tag_cipher list_table (false ∷ []) s₂ k (8 ∷ []) (at 4)
  some (a, b, c, get tag_cipher list_table s₃ k, get tag_cipher list_table s₃ (1 ∷ []))

session_reads :
    session
    ≡ some
        (true, true, false, record { lamport = at 4; size = 2; value = some (6 ∷ 7 ∷ []) }, nothing)
unfolding put get AssocList.find AssocList.set_meta AssocList.add_or_get Lamport.lt same lt memcmp
session_reads = refl

empty-IsValid : IsValid tag_cipher list_table empty
unfolding AssocList.find
empty-IsValid = record { created = λ j n h. cc; sealed = λ j n h bad. cc }

put-Outcome_example :
    (s' : TestStore) × (put tag_cipher list_table (true ∷ false ∷ []) empty k (5 ∷ []) (at 3)
      ≡ some (true, s'))
    × IsValid tag_cipher list_table s'
    × ((j : List ℕ)
        → get tag_cipher list_table s' j ≡ (
            if true && same (node_of k 1) (node_of j null)
            then record { lamport = at 3; size = 1; value = some (5 ∷ []) }
            else get tag_cipher list_table empty j))
unfolding AssocList.find
put-Outcome_example =
    put-Outcome tag_cipher list_table empty empty-IsValid k (5 ∷ []) (at 3) (true ∷ false ∷ []) refl
      (omega arith)

abbrev clocks : ℕ → MetaData
clocks a = record { mac = []; data_size = 0; clock = at a; data_bytes = [] }

-- Threads 0 and 1 put the clocks 2 and 3 over 1: both load, 1 wins, and 0 reloads and gives up.
abbrev raced : (s : Racing) × Reach clocks (λ i. i + 2) 1 s
unfolding put_round after Lamport.lt
raced = (
  _,
  next
      (next (next (next (next begin (load 0 refl)) (load 1 refl)) (round 1 1 false refl))
        (round 0 1 false refl))
      (round 0 3 false refl),
)

puts_keep_latest_example :
    (to_int (at 1) ≤ to_int (clocks raced.0.cell).clock)
    × ((i : ℕ) (b : Bool)
        → raced.0.pc i ≡ Pc.finished b
        → to_int (at (i + 2)) ≤ to_int (clocks raced.0.cell).clock)
    × ((raced.0.cell ≡ 1) ⊎ ((i : ℕ) × (raced.0.cell ≡ i + 2) × (raced.0.pc i ≡ Pc.finished true)))
puts_keep_latest_example = puts_keep_latest clocks (λ i. i + 2) raced.1

raced_result :
    (raced.0.cell ≡ 3) × (raced.0.pc 0 ≡ Pc.finished false) × (raced.0.pc 1 ≡ Pc.finished true)
unfolding put_round after Lamport.lt
raced_result = (refl, refl, refl)

-- A first put
abbrev first :
    (s' : TestStore) × (put tag_cipher list_table (false ∷ []) empty k (5 ∷ []) (at 3)
      ≡ some (true, s'))
unfolding put AssocList.add_or_get AssocList.find AssocList.insert
first = (_, refl)

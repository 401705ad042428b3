-- ===== src/Protocol/Sample.antt =====
-- The store, the configuration and the operation that the tests of the protocol share.
use avocado.Common.{
  ℕ, zero, suc, subst, ◌-◌, ◌<◌, ◌≡◌, true, some, List, [], ◌∷◌, length, map, get_elem?, arith,
}
use avocado.Lamport
use avocado.Lamport.{Lamport}
use avocado.Memtable.AssocList
use avocado.Memtable.AssocList.{list_table, tag_cipher}
use avocado.Memtable.Put.{IsValid}
use avocado.Memtable.{Store}
use avocado.Protocol.Clocks.{clock_packet}
use avocado.Protocol.Context.{Context}
use avocado.Protocol.Padding.{padding}
use avocado.Protocol.{Config}

abbrev pub TestStore : Type 0
TestStore = Store tag_cipher list_table

abbrev pub k : List ℕ
k = 1 ∷ 2 ∷ []

abbrev pub at : ℕ → Lamport
at n = record { count = n; m_id = 1 }

-- The store has one entry, at address 1; address 2 has a value that is on its way.
abbrev pub kv : TestStore
kv = record {
  table = record { key_size = 2; key = k; meta = 1 } ∷ [];
  heap = λ a. record { mac = 7 ∷ []; data_size = 1; clock = at (4 - a); data_bytes = a ∷ [] };
  next = 3;
  slot = 4;
}

abbrev pub config : Config
config = record { m_id = 3; max_package_size = 100; replicas = (7 ∷ 8 ∷ []) ∷ [] }

-- A put of the value at address 2, with one reply
abbrev pub putting : Context
putting = record {
  n_resp = 1;
  n_msgs = 2;
  is_done = true;
  cache = map (clock_packet padding) ((5, at 9) ∷ []);
  max_resp_size = 24;
  node = record { key_size = 2; key = k; meta = 2 };
}

pub kv-IsValid : IsValid tag_cipher list_table kv
unfolding AssocList.find
kv-IsValid = record { created = λ j n h. ground arith; sealed = λ j n h bad. cc }

pub shards : (i : ℕ) (reps : List ℕ) → get_elem? config.replicas i ≡ some reps → 0 < length reps
shards zero reps h = ground (arith, h)
shards (suc i) reps h = cc

pub replies : (i : ℕ) (l : Lamport) → get_elem? (at 9 ∷ []) i ≡ some l → Lamport.IsValid l
replies zero l h = let e : at 9 ≡ l = cc in subst Lamport.IsValid e (omega arith)
replies (suc i) l h = cc

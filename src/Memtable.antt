-- ===== src/Memtable.antt =====
-- The store of one node: src/include/memtable/meta_data.h, src/include/memtable/memtable.h and
-- src/memtables/memtable.cpp.
-- A `std::shared_ptr<MetaData>` is an address into a heap. folly's skip list and the cipher are
-- parameters; a put takes the outcomes of its weak compare-exchanges as a list.
pub mod KeyOrder
pub mod Interface
pub mod Put
pub mod Clocks
pub mod Settling
pub mod Pending
pub mod Creation
pub mod Race
pub mod AssocList
mod Tests
use Prim.Native.Nat.{Ordering}
use avocado.Common.{
  ℕ, ◌+◌, ◌^◌, Bool, true, false, not, ◌&&◌, Option, none, some, List, [], ◌∷◌, length, ltb, leb,
  ◌==◌, if◌then◌else◌, ◌>>=◌,
}
use avocado.Common.Bytes.{memcmp}
use avocado.Lamport
use avocado.Lamport.{Lamport}
use Interface.{Node, Cipher, SkipList}

-- `MetaData`; `data` is the part of its slot that is in use.
pub record MetaData : Type 0 where
  pub mac : List ℕ
  pub data_size : ℕ
  pub clock : Lamport
  pub data_bytes : List ℕ

-- `KV_store::Ret_value`
pub record RetValue : Type 0 where
  pub lamport : Lamport
  pub size : ℕ
  pub value : Option (List ℕ)

abbrev pub null : ℕ
null = 0

-- `{Lamport{0}, 0, nullptr}`
unfoldable pub nothing : RetValue
unfolding Lamport.of_int
nothing = record { lamport = Lamport.of_int 0; size = 0; value = none }

abbrev pub update {ℓ} : {A : Type ℓ} → (ℕ → A) → ℕ → A → ℕ → A
update f p v q = if p == q then v else f q

-- One round of the loop in `KV_store::put`: the test, and the weak compare-exchange of the node's
-- meta pointer, which may fail although the pointers agree (`spurious`). `done` ends the loop with
-- the pointer's value and the final `old_meta`; `again` goes round with the reloaded `old_meta`.
pub data Round : Type 0 where
  done : ℕ → ℕ → Round
  again : ℕ → Round

unfoldable pub put_round : (ℕ → MetaData) → Bool → ℕ → ℕ → ℕ → Round
put_round heap spurious meta old new =
    if Lamport.lt (heap old).clock (heap new).clock
    then (if not spurious && (meta == old) then Round.done new old else Round.again meta)
    else Round.done meta old

-- The loop with no other thread; `none` means that the outcomes ran out.
unfoldable pub put_loop : (ℕ → MetaData) → List Bool → ℕ → ℕ → ℕ → Option (ℕ × ℕ)
unfolding put_round
put_loop heap [] meta old new = none
put_loop heap (spurious ∷ rounds) meta old new = elim (put_round heap spurious meta old new) [
  | Round.done meta' old' ↦ some (meta', old')
  | Round.again old' ↦ put_loop heap rounds meta old' new
]

module _ (cipher : Cipher) (skip_list : SkipList) where
  open cipher use {encrypt, decrypt}
  open skip_list use {T, find, add_or_get, set_meta}

  -- `slot` is the element size of the allocator, and `next` the next address.
  pub record Store : Type 0 where
    pub table : T
    pub heap : ℕ → MetaData
    pub next : ℕ
    pub slot : ℕ

  -- `create_node`; a value that is longer than the slot is written past its end. The slab allocator has a
  -- free slot: `alloc` of one that is used up gives a null pointer, which is left out.
  unfoldable pub create_node : Store → List ℕ → List ℕ → Lamport → Option (Node × Store)
  create_node s key value clock =
      if leb (length value) s.slot
      then some (
        record { key_size = length key; key = key; meta = s.next },
        record s {
          heap = update s.heap s.next (record {
            mac = (encrypt value).1;
            data_size = length value;
            clock = clock;
            data_bytes = (encrypt value).0;
          });
          next = s.next + 1;
        },
      )
      else none

  -- `put (Node &)`, with its result and the outcomes of the compare-exchanges
  unfoldable pub put_node : List Bool → Store → Node → Option (Bool × Store)
  unfolding put_loop
  put_node rounds s new_node =
      let (node, added, table) = add_or_get s.table new_node in
      if added then some (true, record s { table = table }) else (do
        (meta, old_meta) ← put_loop s.heap rounds node.meta node.meta new_node.meta
        some (
          Lamport.lt (s.heap old_meta).clock (s.heap new_node.meta).clock,
          record s { table = set_meta table new_node meta },
        ))

  -- `put (key_size, key, value_size, value, clock)`
  unfoldable pub put : List Bool → Store → List ℕ → List ℕ → Lamport → Option (Bool × Store)
  unfolding create_node put_node
  put rounds s key value clock = do
    (node, s') ← create_node s key value clock
    put_node rounds s' node

  unfoldable pub decrypt_node : Store → Node → RetValue
  unfolding nothing
  decrypt_node s node =
      let meta = s.heap node.meta in
      elim (decrypt meta.data_bytes meta.mac) [
        | none ↦ nothing
        | some plain ↦ record { lamport = meta.clock; size = meta.data_size; value = some plain }
      ]

  -- `get (Node const &)`
  unfoldable pub get_node : Store → Node → RetValue
  unfolding decrypt_node nothing
  get_node s node = elim (find s.table node) [ none ↦ nothing | some found ↦ decrypt_node s found ]

  -- `get (key_size, key)`, by a node with no meta data
  unfoldable pub get : Store → List ℕ → RetValue
  unfolding get_node
  get s key = get_node s (record { key_size = length key; key = key; meta = null })

-- ===== src/LinkedList.antt =====
-- The list of src/include/list.h: nodes on a heap that share their tails, and iterators that hold a
-- node. A `std::shared_ptr` is an address or null; a node that nothing holds any more stays in the
-- model's heap, where no one can see it. `none` is an access through null.
pub mod Chain
pub mod Insert
pub mod Split
mod Tests
use avocado.Common.{
  ℕ, suc, Bool, true, false, not, ◌&&◌, ◌||◌, Option, none, some, List, [], ◌∷◌, ◌++◌, length,
  get_elem?, set, ◌==◌, if◌then◌else◌, ◌>>=◌,
}

-- `List_node`
pub record Node {ℓ} (A : Type ℓ) : Type ℓ where
  pub val : A
  pub next : Option ℕ

-- `List`, with its heap; the allocator is left out.
pub record NodeList {ℓ} (A : Type ℓ) : Type ℓ where
  pub nodes : List (Node A)
  pub head : Option ℕ
  pub count : ℕ

-- `ConstIterator`
pub record Iterator : Type 0 where
  pub ptr : Option ℕ
  pub before_head : Bool

abbrev pub ptr_eq : Option ℕ → Option ℕ → Bool
ptr_eq none none = true
ptr_eq (some a) (some b) = a == b
ptr_eq _ _ = false

-- `operator==`: all positions before the head are equal.
abbrev pub iterator_eq : Iterator → Iterator → Bool
iterator_eq i j =
    i.before_head && j.before_head || (not i.before_head && not j.before_head && ptr_eq i.ptr j.ptr)

-- `get_ptr`
abbrev pub get_ptr : Iterator → Option ℕ
get_ptr i = if i.before_head then none else i.ptr

abbrev pub end_of_list : Iterator
end_of_list = record { ptr = none; before_head = false }

module _ {ℓ} {A : Type ℓ} where
  abbrev pub empty_list : NodeList A
  empty_list = record { nodes = []; head = none; count = 0 }

  abbrev pub node_at : List (Node A) → Option ℕ → Option (Node A)
  node_at nodes none = none
  node_at nodes (some a) = get_elem? nodes a

  -- `operator++`: past the end it stays.
  next_ptr : Option ℕ → Option (Node A) → Option ℕ
  next_ptr p none = p
  next_ptr p (some n) = n.next

  unfoldable pub increment : List (Node A) → Iterator → Iterator
  unfolding next_ptr
  increment nodes i =
      if i.before_head
      then record i { before_head = false }
      else record i { ptr = next_ptr i.ptr (node_at nodes i.ptr) }

  -- `operator*` of `ConstIterator`, which does not look at `before_head`
  unfoldable pub deref : List (Node A) → Iterator → Option A
  deref nodes i = do n ← node_at nodes i.ptr; some n.val

  abbrev pub begin_of : NodeList A → Iterator
  begin_of l = record { ptr = l.head; before_head = false }

  abbrev pub before_begin : NodeList A → Iterator
  before_begin l = record { ptr = l.head; before_head = true }

  unfoldable pub is_empty : NodeList A → Bool
  is_empty l = ptr_eq l.head none

  unfoldable pub clear : NodeList A → NodeList A
  clear l = record l { head = none; count = 0 }

  -- `emplace_after` and `insert_after`. Before the head the new node becomes the whole list.
  unfoldable pub emplace_after : NodeList A → Iterator → A → Option (NodeList A × Iterator)
  unfolding increment
  emplace_after l pos v =
      let new = length l.nodes in
      let alone = record l {
        nodes = l.nodes ++ (record { val = v; next = none } ∷ []);
        head = some new;
      } in
      let linked : Option (NodeList A × Iterator) = (do
        a ← get_ptr pos
        n ← get_elem? l.nodes a
        let nodes =
            set l.nodes a (record n { next = some new }) ++ (record { val = v; next = n.next } ∷ [])
        some (record l { nodes = nodes }, increment nodes pos)) in
      if iterator_eq pos (before_begin l) then some (alone, begin_of alone) else linked

  -- `erase_after`; the link of the erased node is moved out of it.
  unfoldable pub erase_after : NodeList A → Iterator → Option (NodeList A × Iterator)
  erase_after l pos =
      let behind : Option (NodeList A × Iterator) = (do
        a ← get_ptr pos
        n ← get_elem? l.nodes a
        b ← n.next
        m ← get_elem? l.nodes b
        some (
          record l {
            nodes = set (set l.nodes b (record m { next = none })) a (record n { next = m.next });
          },
          pos,
        )) in
      let first : Option (NodeList A × Iterator) = (do
        a ← l.head
        n ← get_elem? l.nodes a
        let l' = record l { nodes = set l.nodes a (record n { next = none }); head = n.next }
        some (l', before_begin l')) in
      if iterator_eq pos (before_begin l) then first else behind

  -- `emplace_front` and `push_front`
  unfoldable pub emplace_front : NodeList A → A → NodeList A
  emplace_front l v = record l {
    nodes = l.nodes ++ (record { val = v; next = l.head } ∷ []);
    head = some (length l.nodes);
  }

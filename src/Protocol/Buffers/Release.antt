-- ===== src/Protocol/Buffers/Release.antt =====
-- Every message buffer of a round of requests is freed once.
use avocado.Common.{
  ℕ, zero, suc, ◌+◌, ◌*◌, ◌≤◌, ◌<◌, ◌≡◌, refl, sym, ◌∙◌, true, false, Option, none, some, List, [],
  ◌∷◌, ◌++◌, get_elem?, set, ltb, ◌==◌, if◌then◌else◌, arith, Option-cases, inl, inr, ◌>>=◌,
}
use avocado.Protocol.Buffers.{
  NodeBuffers, Buffers, create_nodes, create_buffers, free, add_to_cache, remove, respond,
  respond_all, free_node, free_nodes, destroy,
}

-- How often a buffer is in a list
abbrev pub count : ℕ → List ℕ → ℕ
count b [] = 0
count b (x ∷ xs) = (if x == b then 1 else 0) + count b xs

abbrev held : ℕ → Option ℕ → ℕ
held b none = 0
held b (some x) = if x == b then 1 else 0

-- The buffers that a node has to free
abbrev node_held : ℕ → NodeBuffers → ℕ
node_held b node = if node.has_parent then held b node.req + held b node.resp else 0

abbrev nodes_held : ℕ → List NodeBuffers → ℕ
nodes_held b [] = 0
nodes_held b (node ∷ nodes) = node_held b node + nodes_held b nodes

abbrev pub parents : List NodeBuffers → ℕ
parents [] = 0
parents (node ∷ nodes) = (if node.has_parent then 1 else 0) + parents nodes

count-append : (b : ℕ) (xs ys : List ℕ) → count b (xs ++ ys) ≡ count b xs + count b ys
count-append b [] ys = omega arith
count-append b (x ∷ xs) ys = omega (arith, count-append b xs ys)

count-free :
    (b : ℕ) (o : Option ℕ) (freed : List ℕ) → count b (free o freed) ≡ count b freed + held b o
count-free b none freed = omega arith
count-free b (some x) freed = omega (arith, count-append b freed (x ∷ []))

nodes_held-set :
    (b : ℕ) (nodes : List NodeBuffers) (i : ℕ) (node node' : NodeBuffers)
    → get_elem? nodes i ≡ some node
    → nodes_held b (set nodes i node') + node_held b node ≡ nodes_held b nodes + node_held b node'
nodes_held-set b [] i node node' h = cc
nodes_held-set b (n ∷ nodes) zero node node' h = ground (arith, h)
nodes_held-set b (n ∷ nodes) (suc i) node node' h =
    omega (arith, nodes_held-set b nodes i node node' h)

set-set :
    (nodes : List NodeBuffers) (i : ℕ) (a b : NodeBuffers) → set (set nodes i a) i b ≡ set nodes i b
set-set [] i a b = refl
set-set (n ∷ nodes) zero a b = refl
set-set (n ∷ nodes) (suc i) a b = λ k. n ∷ set-set nodes i a b k

-- Each buffer is with one node, or cached, or freed, once.
Owned : Buffers → ℕ → Type 0
Owned s b =
    nodes_held b s.nodes + count b s.cache + count b s.freed ≡ (if ltb b s.next then 1 else 0)

create_nodes-held :
    (b next n : ℕ)
    → nodes_held b (create_nodes next n)
      ≡ (if ltb b next then 0 else if ltb b (next + 2 * n) then 1 else 0)
unfolding create_nodes
create_nodes-held b next zero = ground arith
create_nodes-held b next (suc n) = ground (arith, create_nodes-held b (next + 2) n)

-- One response: the owners are still right, and one node less has a parent.
respond_lem : (s s' : Buffers) (i b : ℕ) → respond s i ≡ some s' → Owned s b → Owned s' b
unfolding respond Owned
respond_lem s s' i b run owned = elim (Option-cases (get_elem? s.nodes i)) [
  | inl out ↦ absurd (ground (arith, run, out))
  | inr (node, found) ↦
      let at_end : NodeBuffers = record { req = none; resp = none; has_parent = false } in
      ground (
        arith,
        run,
        found,
        set-set s.nodes i (record node { resp = none }) at_end,
        nodes_held-set b s.nodes i node at_end found,
        count-free b node.resp s.cache,
        count-free b node.req s.freed,
      )
]

respond-next : (s s' : Buffers) (i : ℕ) → respond s i ≡ some s' → s'.next ≡ s.next
unfolding respond
respond-next s s' i run = elim (Option-cases (get_elem? s.nodes i)) [
  | inl out ↦ absurd (ground (arith, run, out))
  | inr (node, found) ↦ ground (arith, run, found)
]

-- Whether a node has a parent, as a number
abbrev parent_at : List NodeBuffers → ℕ → ℕ
parent_at [] j = 0
parent_at (node ∷ nodes) zero = if node.has_parent then 1 else 0
parent_at (node ∷ nodes) (suc j) = parent_at nodes j

parent_at_le : (nodes : List NodeBuffers) (i : ℕ) → parent_at nodes i ≤ 1
parent_at_le [] i = omega arith
parent_at_le (node ∷ nodes) zero = ground arith
parent_at_le (node ∷ nodes) (suc i) = parent_at_le nodes i

parent_at-found :
    (nodes : List NodeBuffers) (i : ℕ)
    → 0 < parent_at nodes i
    → (node : NodeBuffers) × (get_elem? nodes i ≡ some node) × (node.has_parent ≡ true)
parent_at-found [] i h = absurd (omega arith)
parent_at-found (node ∷ nodes) zero h = (node, refl, ground (arith, h))
parent_at-found (node ∷ nodes) (suc i) h = parent_at-found nodes i h

parent_at-set :
    (nodes : List NodeBuffers) (i j : ℕ) (node : NodeBuffers)
    → node.has_parent ≡ false
    → parent_at (set nodes i node) j ≡ (if i == j then 0 else parent_at nodes j)
parent_at-set [] i j node h = ground arith
parent_at-set (n ∷ nodes) zero zero node h = ground (arith, h)
parent_at-set (n ∷ nodes) zero (suc j) node h = ground arith
parent_at-set (n ∷ nodes) (suc i) zero node h = ground arith
parent_at-set (n ∷ nodes) (suc i) (suc j) node h = ground (arith, parent_at-set nodes i j node h)

respond_runs :
    (s : Buffers) (i : ℕ)
    → 0 < parent_at s.nodes i
    → (s' : Buffers) × (respond s i ≡ some s')
      × ((j : ℕ) → parent_at s'.nodes j ≡ (if i == j then 0 else parent_at s.nodes j))
unfolding respond
respond_runs s i h =
    let (node, found, has) = parent_at-found s.nodes i h in
    (
      remove (add_to_cache s i node) i (record node { resp = none }),
      rw (found, ◌>>=◌, has) refl,
      λ j.
          let at_end : NodeBuffers = record { req = none; resp = none; has_parent = false } in
          ground (
            arith,
            has,
            set-set s.nodes i (record node { resp = none }) at_end,
            parent_at-set s.nodes i j at_end,
          ),
    )

-- If each node with a parent gets one response, and no other does, then all responses are taken, and no node
-- has a parent in the end.
respond_all_lem :
    (s : Buffers) (order : List ℕ)
    → ((i : ℕ) → count i order ≡ parent_at s.nodes i)
    → (s' : Buffers) × (respond_all s order ≡ some s')
      × ((i : ℕ) → parent_at s'.nodes i ≡ 0)
      × ((b : ℕ) → Owned s b → Owned s' b)
      × (s'.next ≡ s.next)
unfolding respond_all
respond_all_lem s [] h = (s, refl, λ i. sym (h i), λ b owned. owned, refl)
respond_all_lem s (i ∷ order) h =
    let (t, e, at) = respond_runs s i (ground (arith, h i)) in
    let (s', run, none_left, owned, next) =
      respond_all_lem t order (λ j. ground (arith, h j, at j, h i, parent_at_le s.nodes i)) in
    (
      s',
      rw (e, ◌>>=◌) run,
      none_left,
      λ b o. owned b (respond_lem s t i b e o),
      next ∙ respond-next s t i e,
    )

no_parents :
    (b : ℕ) (nodes : List NodeBuffers) (freed : List ℕ)
    → parents nodes ≡ 0
    → (nodes_held b nodes ≡ 0) × (free_nodes nodes freed ≡ freed)
unfolding free_nodes free_node
no_parents b [] freed h = (refl, refl)
no_parents b (node ∷ nodes) freed h = ground (arith, no_parents b nodes freed)

no_parent_at : (nodes : List NodeBuffers) → ((i : ℕ) → parent_at nodes i ≡ 0) → parents nodes ≡ 0
no_parent_at [] h = refl
no_parent_at (node ∷ nodes) h = omega (arith, h 0, no_parent_at nodes (λ i. h (suc i)))

create_nodes-parent_at :
    (next n i : ℕ) → parent_at (create_nodes next n) i ≡ (if ltb i n then 1 else 0)
unfolding create_nodes
create_nodes-parent_at next zero i = ground arith
create_nodes-parent_at next (suc n) zero = ground arith
create_nodes-parent_at next (suc n) (suc i) = ground (arith, create_nodes-parent_at (next + 2) n i)

-- If each of the `n` requests is answered once, in whatever order, then every response finds its context,
-- and when the context is destroyed after them each of the buffers that were allocated has been freed
-- exactly once, and no other.
pub buffers_freed :
    (n : ℕ) (order : List ℕ)
    → ((i : ℕ) → count i order ≡ (if ltb i n then 1 else 0))
    → (s : Buffers) × (respond_all (create_buffers n) order ≡ some s)
      × ((b : ℕ) → count b (destroy s).freed ≡ (if ltb b (2 * n) then 1 else 0))
unfolding create_buffers destroy Owned
buffers_freed n order once =
    let (s, run, none_left, owned, next) =
      respond_all_lem (create_buffers n) order (λ i. once i ∙ sym (create_nodes-parent_at 0 n i)) in
    (
      s,
      run,
      λ b.
          let whole = owned b (ground (arith, create_nodes-held b 0 n)) in
          let (nothing_held, nothing_freed) =
            no_parents b s.nodes (s.freed ++ s.cache) (no_parent_at s.nodes none_left) in
          rw nothing_freed
            (ground (arith, whole, nothing_held, next, count-append b s.freed s.cache)),
    )

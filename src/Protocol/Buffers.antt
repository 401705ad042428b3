-- ===== src/Protocol/Buffers.antt =====
-- The message buffers of a round of requests: NodeReplicaContext, and the buffers of ReplicaContext, in
-- src/include/protocol/abd/replica_context.h.
-- A buffer is a number that the allocator hands out. The context lives as long as one of its nodes has a
-- reference to it.
pub mod Release
use avocado.Common.{
  ℕ, zero, suc, ◌+◌, ◌*◌, ◌≤◌, ◌<◌, ◌≡◌, refl, sym, ◌∙◌, Bool, true, false, Option, none, some,
  List, [], ◌∷◌, ◌++◌, length, get_elem?, set, ltb, leb, ◌==◌, if◌then◌else◌, arith, Option-cases,
  inl, inr, >>=-eq-some, ◌>>=◌,
}

-- `NodeReplicaContext`: the pointers in `req` and `resp`, and whether `parent` is set
pub record NodeBuffers : Type 0 where
  pub req : Option ℕ
  pub resp : Option ℕ
  pub has_parent : Bool

-- `freed` has every buffer that was given to `free_msg_buffer`, in order.
pub record Buffers : Type 0 where
  pub nodes : List NodeBuffers
  pub cache : List ℕ
  pub freed : List ℕ
  pub next : ℕ

pub create_nodes : ℕ → ℕ → List NodeBuffers
create_nodes next zero = []
create_nodes next (suc n) =
    record { req = some next; resp = some (next + 1); has_parent = true }
    ∷ create_nodes (next + 2) n

-- `create_buffers`
unfoldable pub create_buffers : ℕ → Buffers
unfolding create_nodes
create_buffers n = record { nodes = create_nodes 0 n; cache = []; freed = []; next = 2 * n }

abbrev pub free : Option ℕ → List ℕ → List ℕ
free none freed = freed
free (some b) freed = freed ++ (b ∷ [])

-- `add_to_cache`, where the response has its buffer
unfoldable pub add_to_cache : Buffers → ℕ → NodeBuffers → Buffers
add_to_cache s i node = record s {
  nodes = set s.nodes i (record node { resp = none });
  cache = free node.resp s.cache;
}

-- `remove`: `free_msg_buffer` frees both buffers and clears the pointers to them.
unfoldable pub remove : Buffers → ℕ → NodeBuffers → Buffers
remove s i node =
    if node.has_parent
    then record s {
      nodes = set s.nodes i (record { req = none; resp = none; has_parent = false });
      freed = free node.resp (free node.req s.freed);
    }
    else s

-- The buffers in `req_conts`: the node's response is kept, and the node is removed on the way out. `none`
-- is a null pointer for the parent.
unfoldable pub respond : Buffers → ℕ → Option Buffers
unfolding add_to_cache remove
respond s i = do
  node ← get_elem? s.nodes i
  (if node.has_parent
      then some (remove (add_to_cache s i node) i (record node { resp = none }))
      else none)

unfoldable pub respond_all : Buffers → List ℕ → Option Buffers
unfolding respond
respond_all s [] = some s
respond_all s (i ∷ order) = do s' ← respond s i; respond_all s' order

pub free_node : NodeBuffers → List ℕ → List ℕ
free_node node freed = if node.has_parent then free node.resp (free node.req freed) else freed

pub free_nodes : List NodeBuffers → List ℕ → List ℕ
unfolding free_node
free_nodes [] freed = freed
free_nodes (node ∷ nodes) freed = free_nodes nodes (free_node node freed)

-- `~ReplicaContext`, and then `~NodeReplicaContext` of every node
unfoldable pub destroy : Buffers → Buffers
unfolding free_nodes
destroy s = record s { freed = free_nodes s.nodes (s.freed ++ s.cache); cache = [] }

-- ===== src/Memtable/Interface.antt =====
-- Nodes with their order, and what the store uses of folly's skip list and of the cipher.
use Prim.Native.Nat.{Ordering}
use avocado.Common.{
  ℕ, ◌≡◌, Bool, true, false, not, ◌&&◌, Option, none, some, List, ltb, if◌then◌else◌,
}
use avocado.Common.Bytes.{memcmp}

-- `VarKeySizeNode`; `meta` is an address.
pub record Node : Type 0 where
  pub key_size : ℕ
  pub key : List ℕ
  pub meta : ℕ

is_lt : Ordering → Bool
is_lt Ordering.lt = true
is_lt _ = false

-- `operator<`: shorter keys first, then byte order
unfoldable pub lt : Node → Node → Bool
unfolding is_lt
lt a b =
    if ltb a.key_size b.key_size
    then true
    else if ltb b.key_size a.key_size
    then false
    else is_lt (memcmp a.key_size a.key b.key)

-- What a container that is ordered by `operator<` takes for the same key.
unfoldable pub same : Node → Node → Bool
unfolding lt
same a b = not (lt a b) && not (lt b a)

-- `CipherSsl` at one key: authenticated encryption to a text of the same length and a tag.
pub record Cipher : Type 0 where
  pub encrypt : List ℕ → List ℕ × List ℕ
  pub decrypt : List ℕ → List ℕ → Option (List ℕ)
  pub decrypt-encrypt : (p : List ℕ) → decrypt (encrypt p).0 (encrypt p).1 ≡ some p

-- `folly::ConcurrentSkipList<VarKeySizeNode>`: `find`, `addOrGetData`, and the write to the field
-- `meta` of the node that the returned pointer names.
pub record SkipList : Type 1 where
  pub T : Type 0
  pub find : T → Node → Option Node
  pub add_or_get : T → Node → Node × Bool × T
  pub set_meta : T → Node → ℕ → T
  pub find_congr : (t : T) (a b : Node) → same a b ≡ true → find t a ≡ find t b
  pub find-same : (t : T) (j n : Node) → find t j ≡ some n → same n j ≡ true
  pub add-found : (t : T) (n m : Node) → find t n ≡ some m → add_or_get t n ≡ (m, false, t)
  pub add-absent :
      (t : T) (n : Node) → find t n ≡ none → ((add_or_get t n).0 ≡ n) × ((add_or_get t n).1 ≡ true)
  pub find-add :
      (t : T) (n j : Node)
      → find t n ≡ none
      → find (add_or_get t n).2 j ≡ (if same n j then some n else find t j)
  pub find-set_meta :
      (t : T) (n m j : Node) (a : ℕ)
      → find t n ≡ some m
      → find (set_meta t n a) j ≡ (if same n j then some (record m { meta = a }) else find t j)

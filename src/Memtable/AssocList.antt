-- ===== src/Memtable/AssocList.antt =====
-- A list of nodes has the laws that are asked of the skip list, and a cipher that only adds a tag
-- has those asked of the cipher.
use avocado.Common.{
  ℕ, ◌≡◌, refl, Bool, true, false, Option, none, some, List, [], ◌∷◌, if◌then◌else◌, arith,
}
use avocado.Memtable.Interface.{Node, Cipher, SkipList, same}
use avocado.Memtable.KeyOrder.{same_congr, same_symm}

unfoldable pub find : List Node → Node → Option Node
unfolding same
find [] j = none
find (n ∷ t) j = if same n j then some n else find t j

unfoldable pub set_meta : List Node → Node → ℕ → List Node
unfolding same
set_meta [] j a = []
set_meta (n ∷ t) j a = if same n j then record n { meta = a } ∷ t else n ∷ set_meta t j a

unfoldable pub insert : List Node → Node → Option Node → Node × Bool × List Node
insert t n none = (n, true, n ∷ t)
insert t n (some m) = (m, false, t)

unfoldable pub add_or_get : List Node → Node → Node × Bool × List Node
unfolding insert find
add_or_get t n = insert t n (find t n)

pub find_congr : (t : List Node) (a b : Node) → same a b ≡ true → find t a ≡ find t b
unfolding find
find_congr [] a b h = refl
find_congr (n ∷ t) a b h = ground (arith, same_congr a b n h, find_congr t a b h)

pub find-same : (t : List Node) (j n : Node) → find t j ≡ some n → same n j ≡ true
unfolding find
find-same [] j n h = cc
find-same (m ∷ t) j n h = ground (arith, find-same t j n)

pub add-found : (t : List Node) (n m : Node) → find t n ≡ some m → add_or_get t n ≡ (m, false, t)
unfolding add_or_get insert
add-found t n m h = rw h

pub add-absent :
    (t : List Node) (n : Node)
    → find t n ≡ none
    → ((add_or_get t n).0 ≡ n) × ((add_or_get t n).1 ≡ true)
unfolding add_or_get insert
add-absent t n h = rw h (refl, refl)

pub find-add :
    (t : List Node) (n j : Node)
    → find t n ≡ none
    → find (add_or_get t n).2 j ≡ (if same n j then some n else find t j)
unfolding add_or_get insert find
find-add t n j h = rw h

pub find-set_meta :
    (t : List Node) (n m j : Node) (a : ℕ)
    → find t n ≡ some m
    → find (set_meta t n a) j ≡ (if same n j then some (record m { meta = a }) else find t j)
unfolding find set_meta
find-set_meta [] n m j a h = cc
find-set_meta (k ∷ t) n m j a h = ground (
  arith,
  find-set_meta t n m j a,
  same_congr k n j,
  same_symm k j,
  same_symm n j,
  same_congr n j k,
)

abbrev pub list_table : SkipList
list_table = record {
  T = List Node;
  find = find;
  add_or_get = add_or_get;
  set_meta = set_meta;
  find_congr = find_congr;
  find-same = find-same;
  add-found = add-found;
  add-absent = add-absent;
  find-add = find-add;
  find-set_meta = find-set_meta;
}

abbrev pub tag_cipher : Cipher
tag_cipher = record {
  encrypt = λ p. (p, 7 ∷ []);
  decrypt = λ c mac. some c;
  decrypt-encrypt = λ p. refl;
}

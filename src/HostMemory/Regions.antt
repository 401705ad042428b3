-- ===== src/HostMemory/Regions.antt =====
-- What is mapped is unmapped, the rounding of the region's size, and its room for the values.
use avocado.Common.{
  ℕ, ◌+◌, ◌-◌, ◌*◌, ◌/◌, ◌%◌, ◌^◌, ◌≤◌, ◌<◌, ◌≡◌, ◌⊎◌, refl, ap, ◌∙◌, Bool, Option, none, some,
  arith, Bool-cases, inl, inr, ◌==◌,
}
use native.Mathlib.Nat.{add-mul-mod_self_left, div-add-mod, mul-le-mul_right}
use avocado.HostMemory.{host_memory, region_size, Memory, Slab, create_allocator, delete}

-- Where the region cannot be mapped, nothing is, and there is a null pointer. Where only the page for the
-- allocator cannot be mapped, the code writes to it all the same. Otherwise the region is all between the
-- allocator's bounds, and deleting the allocator leaves the mapped regions as they were, wherever the two were.
pub create-delete :
    (pagesize : ℕ) (first second : Option ℕ) (size element_size : ℕ) (warmup : Bool)
    (memory : Memory)
    → ((first ≡ none)
        × (create_allocator pagesize first second size element_size warmup memory
            ≡ some (none, memory)))
      ⊎ ((second ≡ none)
          × (create_allocator pagesize first second size element_size warmup memory ≡ none))
      ⊎ ((slab : Slab) × (mapped : Memory) × (create_allocator pagesize first second size
              element_size warmup memory
            ≡ some (some slab, mapped))
          × (slab.region_end ≡ slab.region_start + region_size pagesize size)
          × ((delete pagesize slab mapped).regions ≡ memory.regions))
unfolding create_allocator delete
create-delete pagesize none second size element_size warmup memory = inl (refl, refl)
create-delete pagesize (some ptr) none size element_size warmup memory = inr (inl (refl, refl))
create-delete pagesize (some ptr) (some wrap) size element_size warmup memory =
    inr (inr (_, _, refl, refl, ground arith))

-- The rounding keeps the remainder: only a size that is a multiple of the page already becomes one. The
-- region is at least as large as it was asked for.
region_size_lem :
    (pagesize size : ℕ)
    → 0 < pagesize
    → size < 2 ^ 63
    → (region_size pagesize size % pagesize ≡ size % pagesize) × (size ≤ region_size pagesize size)
unfolding region_size
region_size_lem pagesize size h small = elim (Bool-cases (size % pagesize == 0)) [
  | inl zero_left ↦ (ground (arith, zero_left), ground (arith, zero_left))
  | inr some_left ↦ (ground (arith, some_left, rounded), ground (arith, some_left, twice))
]
  where
    twice : (size + (size - size % pagesize)) % 2 ^ 64 ≡ size + pagesize * (size / pagesize)
    twice = omega (arith, small, div-add-mod size pagesize)

    rounded : (size + (size - size % pagesize)) % 2 ^ 64 % pagesize ≡ size % pagesize
    rounded = ap (λ n. n % pagesize) twice ∙ add-mul-mod_self_left size pagesize (size / pagesize)

-- The memory for a number of keys has room for their values.
pub room_for_keys :
    (pagesize n value_size store_size : ℕ)
    → 0 < pagesize
    → 0 < n
    → n * (value_size + store_size) < 2 ^ 62
    → n * value_size ≤ region_size pagesize (host_memory 0 n value_size store_size)
unfolding host_memory
room_for_keys pagesize n value_size store_size h pos small = omega (
  arith,
  size,
  small,
  (region_size_lem pagesize (host_memory 0 n value_size store_size) h
      (omega (arith, size, small))).1,
)
  where
    one_key : value_size + store_size ≤ n * (value_size + store_size)
    one_key = omega (arith, mul-le-mul_right {m = 1} {n = n} (value_size + store_size) pos)

    size : host_memory 0 n value_size store_size ≡ 2 * (n * (value_size + store_size))
    size = rw the_sum (omega (arith, small))
      where
        the_sum : (value_size + store_size) % 2 ^ 64 ≡ value_size + store_size
        the_sum = omega (arith, one_key, small)

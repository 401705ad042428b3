-- ===== src/HostMemory.antt =====
-- The memory that the slots of the store stand in: src/memtables/create_allocator.cpp, and the size that
-- `Args` of src/server.cpp asks of it. What `mmap` returns is an argument, `none` where it fails; the slab
-- allocator, which is a submodule, keeps the bounds of its region.
pub mod Regions
mod Tests
use avocado.Common.{
  ℕ, ◌+◌, ◌-◌, ◌*◌, ◌%◌, ◌^◌, Bool, true, false, not, ◌&&◌, Option, none, some, List, [], ◌∷◌, ◌++◌,
  replicate, ◌==◌, if◌then◌else◌,
}

-- `host_memory` of `Args`: what the options say, or twice what so many keys need.
unfoldable pub host_memory : (option n_distinct_keys max_value_size store_size : ℕ) → ℕ
host_memory option n_distinct_keys max_value_size store_size =
    if option == 0
    then n_distinct_keys * ((max_value_size + store_size) % 2 ^ 64) % 2 ^ 64 * 2 % 2 ^ 64
    else option

-- The size of the region, in `create_allocator`
unfoldable pub region_size : (pagesize size : ℕ) → ℕ
region_size pagesize size =
    let remainder = size % pagesize in
    if not (remainder == 0) then (size + (size - remainder)) % 2 ^ 64 else size

-- A mapped region, from its start
pub record Region : Type 0 where
  pub start : ℕ
  pub size : ℕ

-- The regions that are mapped, and the bytes that were written into the last one to warm it up
pub record Memory : Type 0 where
  pub regions : List Region
  pub zeros : List ℕ

-- `UniquePtrWrap<DynamicLockLessAllocator>`, and where it stands
pub record Slab : Type 0 where
  pub at : ℕ
  pub region_start : ℕ
  pub region_end : ℕ
  pub element_size : ℕ

-- `create_allocator`, where the calls of `mmap` return `first` and `second`. In the result `none` is a null
-- pointer; the placement of the slab at `MAP_FAILED` is a fault.
unfoldable pub create_allocator :
    (pagesize : ℕ)
    → (first second : Option ℕ) → (size element_size : ℕ) → (warmup : Bool) → Memory
    → Option (Option Slab × Memory)
unfolding region_size
create_allocator pagesize none second size element_size warmup memory = some (none, memory)
create_allocator pagesize (some ptr) none size element_size warmup memory = none
create_allocator pagesize (some ptr) (some wrap) size element_size warmup memory = some (
  some (record {
    at = wrap;
    region_start = ptr;
    region_end = ptr + region_size pagesize size;
    element_size = element_size;
  }),
  record {
    regions =
        record { start = wrap; size = pagesize }
        ∷ record { start = ptr; size = region_size pagesize size }
        ∷ memory.regions;
    zeros = if warmup then replicate (region_size pagesize size) 0 else memory.zeros;
  },
)

-- `munmap` of a region as it was mapped
unfoldable pub munmap : ℕ → ℕ → List Region → List Region
munmap start size [] = []
munmap start size (r ∷ regions) =
    let rest = munmap start size regions in
    if (r.start == start) && (r.size == size) then regions else r ∷ rest

-- `AllocatorDeleter`: the region, and then the page that the allocator stands in
unfoldable pub delete : (pagesize : ℕ) → Slab → Memory → Memory
unfolding munmap
delete pagesize slab memory = record memory {
  regions =
      munmap slab.at pagesize
        (munmap slab.region_start (slab.region_end - slab.region_start) memory.regions);
}

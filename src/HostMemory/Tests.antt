-- ===== src/HostMemory/Tests.antt =====
-- An allocator at concrete sizes, and the theorems about it at concrete inputs.
use avocado.Common.{ℕ, ◌+◌, ◌≡◌, ◌⊎◌, refl, true, Option, none, some, [], ◌∷◌}
use avocado.HostMemory.{region_size, Memory, Slab, create_allocator, delete}
use avocado.HostMemory.Regions.{create-delete}

abbrev before : Memory
before = record { regions = record { start = 8; size = 100 } ∷ []; zeros = [] }

-- What `mmap` returns
abbrev first : Option ℕ
first = some 4096

abbrev second : Option ℕ
second = some 40960

create-delete_example :
    ((first ≡ none) × (create_allocator 4096 first second 10 64 true before ≡ some (none, before)))
    ⊎ ((second ≡ none) × (create_allocator 4096 first second 10 64 true before ≡ none))
    ⊎ ((slab : Slab) × (mapped : Memory) × (create_allocator 4096 first second 10 64 true before
          ≡ some (some slab, mapped))
        × (slab.region_end ≡ slab.region_start + region_size 4096 10)
        × ((delete 4096 slab mapped).regions ≡ record { start = 8; size = 100 } ∷ []))
create-delete_example = create-delete 4096 first second 10 64 true before

-- 5000 bytes are rounded to 5000 + 4096, and not to two pages.
one_page_more : region_size 4096 5000 ≡ 9096
unfolding region_size
one_page_more = refl

-- ===== src/Alloc/Tests.antt =====
-- Witnesses for the heap of alloc.c, on small heaps.
use mazuki_os.Base.{
  ℕ, ◌≡◌, refl, ◌≤◌, ◌+◌, ◌/◌, ◌%◌, ◌*◌, ◌^◌, not, ◌&&◌, ◌||◌, ◌==◌, true, false, none, some, inl,
  [], ◌∷◌, ◌↔◌, ◌⊎◌,
}
use mazuki_os.Alloc.{
  Heap, heap_size, header_size, zeroed, initialize, align4, carve, first_fit, alloc, mark_free,
  merge_from, merge, alloc_free,
}
use mazuki_os.Alloc.Tiling.{IsTiled, alloc-IsTiled, alloc_free-IsTiled}
use mazuki_os.Alloc.Usage.{
  used_at, in_use, room_at, AllSmall, alloc-some, alloc-none, alloc_free-some,
}
use mazuki_os.Alloc.Apart.{alloc-apart}
use mazuki_os.Alloc.Reuse.{IsMerged, alloc_free-IsMerged, alloc-alloc_free}

-- The heap as the first call finds it.
abbrev empty_heap : Heap
empty_heap = record {
  free_list = record { offset = 0; size = 65524; is_free = true } ∷ [];
  is_initialized = true;
}

abbrev two_blocks : Heap
two_blocks = record {
  free_list =
      record { offset = 0; size = 100; is_free = false }
      ∷ record { offset = 112; size = 8; is_free = false }
      ∷ record { offset = 132; size = 65392; is_free = true }
      ∷ [];
  is_initialized = true;
}

abbrev full_heap : Heap
full_heap = record {
  free_list = record { offset = 0; size = 65524; is_free = false } ∷ [];
  is_initialized = true;
}

empty_heap-IsTiled : IsTiled empty_heap
empty_heap-IsTiled = (refl, (refl, refl, refl))

two_blocks-IsTiled : IsTiled two_blocks
two_blocks-IsTiled = (refl, (refl, refl, (refl, refl, (refl, refl, refl))))

full_heap-IsTiled : IsTiled full_heap
full_heap-IsTiled = (refl, (refl, refl, refl))

alloc-IsTiled_example : IsTiled (alloc 100 zeroed).1
alloc-IsTiled_example = alloc-IsTiled 100 zeroed (inl refl)

alloc_free-IsTiled_example : IsTiled (record two_blocks {
  free_list =
      record { offset = 0; size = 100; is_free = false }
      ∷ record { offset = 112; size = 65412; is_free = true }
      ∷ [];
})
unfolding alloc_free mark_free merge merge_from
alloc_free-IsTiled_example = alloc_free-IsTiled 124 two_blocks refl two_blocks-IsTiled

alloc-some_example :
    let h = (alloc 5 two_blocks).1 in
    (in_use 144 two_blocks ≡ false)
    × ((q : ℕ) → in_use q h ≡ ((144 == q) || in_use q two_blocks))
    × (align4 5 ≤ room_at 144 h.free_list)
    × (header_size ≤ 144)
    × (144 + align4 5 ≤ heap_size)
unfolding alloc first_fit initialize align4 carve
alloc-some_example = alloc-some 5 144 two_blocks two_blocks-IsTiled refl

alloc-apart_example :
    (room_at 124 (alloc 5 two_blocks).1.free_list ≡ room_at 124 two_blocks.free_list)
    × ((144 + (5 + 3) % 2 ^ 32 / 4 * 4 + header_size ≤ 124)
        ⊎ (124 + room_at 124 two_blocks.free_list + header_size ≤ 144))
unfolding alloc first_fit initialize align4 carve used_at
alloc-apart_example = alloc-apart 5 144 124 two_blocks two_blocks-IsTiled refl refl

alloc-none_example :
    (((alloc 5 full_heap).0 ≡ none) ↔ AllSmall ((5 + 3) % 2 ^ 32 / 4 * 4) full_heap.free_list)
    × ((alloc 5 full_heap).0 ≡ none → (alloc 5 full_heap).1 ≡ full_heap)
alloc-none_example = alloc-none 5 full_heap full_heap-IsTiled

alloc_free-some_example :
    in_use 12 (record two_blocks {
      free_list =
          record { offset = 0; size = 100; is_free = false }
          ∷ record { offset = 112; size = 65412; is_free = true }
          ∷ [];
    })
    ≡ (not (12 == 124) && in_use 12 two_blocks)
unfolding alloc_free mark_free merge merge_from
alloc_free-some_example = alloc_free-some 124 12 two_blocks two_blocks-IsTiled refl

alloc_free-IsMerged_example : IsMerged (record two_blocks {
  free_list =
      record { offset = 0; size = 100; is_free = false }
      ∷ record { offset = 112; size = 65412; is_free = true }
      ∷ [];
})
unfolding alloc_free mark_free merge merge_from
alloc_free-IsMerged_example = alloc_free-IsMerged 124 two_blocks refl

alloc-alloc_free_example : alloc_free 12 (alloc 20 empty_heap).1 ≡ some empty_heap
unfolding alloc first_fit initialize align4 carve
alloc-alloc_free_example = alloc-alloc_free 20 12 empty_heap empty_heap-IsTiled (refl, tt) refl

-- ===== src/Alloc/Apart.antt =====
-- Where the block that `alloc` returns lies among the blocks in use.
use mazuki_os.Base.{
  ℕ, ◌+◌, ◌/◌, ◌%◌, ◌*◌, ◌^◌, ◌≤◌, ◌<◌, ◌≡◌, ◌≢◌, ◌⊎◌, inl, inr, true, some, List, [], ◌∷◌, arith,
  dec_lt,
}
use mazuki_os.Alloc.{Block, Heap, heap_size, header_size, align4, carve, first_fit, alloc}
use mazuki_os.Alloc.Tiling.{Tiles, IsTiled, alloc-IsTiled}
use mazuki_os.Alloc.Usage.{used_at, in_use, room_at, used_at_below, initialize_ready, alloc-some}

-- A block in use ends before the next block's payload begins.
used_apart :
    (p q o end : ℕ) (bs : List Block)
    → Tiles o end bs
    → used_at p bs ≡ true
    → used_at q bs ≡ true
    → p < q
    → p + room_at p bs + header_size ≤ q
unfolding used_at room_at
used_apart p q o end [] t hp hq lt = absurd (ground arith)
used_apart p q o end (b ∷ bs) t hp hq lt = ground (
  arith,
  used_apart p q (o + header_size + b.size) end bs t.2,
  used_at_below q (o + header_size + b.size) end bs t.2,
  used_at_below p (o + header_size + b.size) end bs t.2,
)

-- The search changes the size of no block in use.
first_fit-room_at :
    (q size o end : ℕ) (bs : List Block)
    → Tiles o end bs
    → used_at q bs ≡ true
    → room_at q (first_fit size bs).1 ≡ room_at q bs
unfolding first_fit used_at room_at carve
first_fit-room_at q size o end [] t u = absurd (ground arith)
first_fit-room_at q size o end (b ∷ bs) t u = ground (
  arith,
  first_fit-room_at q size (o + header_size + b.size) end bs t.2,
  used_at_below q (o + header_size + b.size) end bs t.2,
)

alloc-room_at :
    (q size : ℕ) (h : Heap)
    → IsTiled h
    → in_use q h ≡ true
    → room_at q (alloc size h).1.free_list ≡ room_at q h.free_list
unfolding alloc
alloc-room_at q size h (on, t) u =
    rw (initialize_ready h on) (first_fit-room_at q (align4 size) 0 heap_size h.free_list t u)

-- On a heap that is set up, the bytes that `alloc` returns lie apart from those of every block in
-- use, with room for a header between them; no block in use changes its size.
pub alloc-apart :
    (size p q : ℕ) (h : Heap)
    → IsTiled h
    → (alloc size h).0 ≡ some p
    → in_use q h ≡ true
    → (room_at q (alloc size h).1.free_list ≡ room_at q h.free_list)
      × ((p + (size + 3) % 2 ^ 32 / 4 * 4 + header_size ≤ q)
          ⊎ (q + room_at q h.free_list + header_size ≤ p))
unfolding align4
alloc-apart size p q h tiled e u =
    let h' = (alloc size h).1 in
    let (fresh, uses, room, low, high) = alloc-some size p h tiled e in
    let tiles : Tiles 0 heap_size h'.free_list = (alloc-IsTiled size h (inr tiled)).1 in
    let same = alloc-room_at q size h tiled u in
    let used_p : in_use p h' ≡ true = ground (arith, uses p) in
    let used_q : in_use q h' ≡ true = ground (arith, uses q, u) in
    let ne : p ≢ q = λ eq. ground (arith, eq, fresh, u) in
    (
      same,
      elim (dec_lt p q) [
        | yes lt ↦
            inl
              (omega (arith, used_apart p q 0 heap_size h'.free_list tiles used_p used_q lt, room))
        | no ge ↦ inr (
            omega (
              arith,
              used_apart q p 0 heap_size h'.free_list tiles used_q used_p (omega arith),
              same,
            ))
      ],
    )

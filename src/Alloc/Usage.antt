-- ===== src/Alloc/Usage.antt =====
-- Which pointers are in use: what `alloc` and `alloc_free` change of it.
use mazuki_os.Base.{
  ℕ, ◌+◌, ◌/◌, ◌%◌, ◌*◌, ◌^◌, ◌≤◌, ◌<◌, ◌≡◌, ◌↔◌, inl, inr, refl, Bool, true, false, not, ◌&&◌,
  ◌||◌, none, some, List, [], ◌∷◌, arith, Bool-cases, Option-cases, ◌==◌, if◌then◌else◌,
}
use mazuki_os.Alloc.{
  Block, Heap, heap_size, header_size, initialize, align4, payload, fits, carve, first_fit, alloc,
  mark_free, merge_from, merge, alloc_free,
}
use mazuki_os.Alloc.Tiling.{Tiles, IsTiled, Tiles-le, mark_free_cases}

-- Does a block that is not free have its payload at `q`?
unfoldable pub used_at : ℕ → List Block → Bool
used_at q [] = false
used_at q (b ∷ bs) = (not b.is_free && (payload b == q)) || used_at q bs

abbrev pub in_use : ℕ → Heap → Bool
in_use q h = used_at q h.free_list

used_at-carve :
    (q : ℕ) (b : Block) (size : ℕ) (bs : List Block)
    → used_at q (carve b size bs) ≡ ((payload b == q) || used_at q bs)
unfolding used_at carve
used_at-carve q b size bs = ground arith

-- Every free block has fewer than `size` bytes.
abbrev pub AllSmall : ℕ → List Block → Type 0
AllSmall size [] = Unit {0}
AllSmall size (b ∷ bs) = (b.is_free ≡ true → b.size < size) × AllSmall size bs

fits_small : (b : Block) (size : ℕ) → (fits b size ≡ false) ↔ (b.is_free ≡ true → b.size < size)
fits_small b size = (λ e f. ground arith, λ h. ground arith)

-- A search that fails leaves the chain as it was, and each free block of it is too small.

pub first_fit-none :
    (size : ℕ) (bs : List Block)
    → (first_fit size bs).0 ≡ none
    → ((first_fit size bs).1 ≡ bs) × AllSmall size bs
unfolding first_fit
first_fit-none size [] e = (refl, tt)
first_fit-none size (b ∷ bs) e = ground (arith, first_fit-none size bs, fits_small b size)

first_fit_small : (size : ℕ) (bs : List Block) → AllSmall size bs → (first_fit size bs).0 ≡ none
unfolding first_fit
first_fit_small size [] h = refl
first_fit_small size (b ∷ bs) (h, hs) = rw ((fits_small b size).1 h) (first_fit_small size bs hs)

first_fit-used_at :
    (q size p : ℕ) (bs : List Block)
    → (first_fit size bs).0 ≡ some p
    → used_at q (first_fit size bs).1 ≡ ((p == q) || used_at q bs)
unfolding first_fit used_at
first_fit-used_at q size p [] e = absurd (ground arith)
first_fit-used_at q size p (b ∷ bs) e =
    ground (arith, first_fit-used_at q size p bs, used_at-carve q b size bs)

-- The size of the block in use at `q`, 0 if there is none.
unfoldable pub room_at : ℕ → List Block → ℕ
room_at q [] = 0
room_at q (b ∷ bs) = if not b.is_free && (payload b == q) then b.size else room_at q bs

-- No pointer in use lies before the tiling's first payload.
pub used_at_below :
    (q o end : ℕ) (bs : List Block) → Tiles o end bs → q < o + header_size → used_at q bs ≡ false
unfolding used_at
used_at_below q o end [] t h = refl
used_at_below q o end (b ∷ bs) t h =
    ground (arith, used_at_below q (o + header_size + b.size) end bs t.2)

-- The pointer found is that of a free block inside the tiling, and that block gets the room.
pub first_fit_place :
    (size p o end : ℕ) (bs : List Block)
    → end ≤ heap_size
    → Tiles o end bs
    → (first_fit size bs).0 ≡ some p
    → (o + header_size ≤ p)
      × (p + size ≤ end)
      × (used_at p bs ≡ false)
      × (size ≤ room_at p (first_fit size bs).1)
unfolding first_fit used_at room_at carve
first_fit_place size p o end [] small t e = absurd (ground arith)
first_fit_place size p o end (b ∷ bs) small t e = ground (
  arith,
  first_fit_place size p (o + header_size + b.size) end bs small t.2,
  used_at_below p (o + header_size + b.size) end bs t.2,
  Tiles-le (o + header_size + b.size) end bs t.2,
)

merge_from-used_at :
    (q : ℕ) (b : Block) (bs : List Block) → used_at q (merge_from b bs) ≡ used_at q (b ∷ bs)
unfolding merge_from used_at
merge_from-used_at q b [] = refl
merge_from-used_at q b (c ∷ bs) = ground (
  arith,
  merge_from-used_at q (record b { size = b.size + (header_size + c.size) }) bs,
  merge_from-used_at q c bs,
)

mark_free_total :
    (p : ℕ) (bs : List Block)
    → used_at p bs ≡ true
    → (bs' : List Block) × (mark_free p bs ≡ some bs')
unfolding used_at mark_free
mark_free_total p [] u = absurd (ground arith)
mark_free_total p (b ∷ bs) u = elim (Bool-cases (payload b == p)) [
  | inl hit ↦ (record b { is_free = true } ∷ bs, rw hit refl)
  | inr miss ↦ let (bs', e) = mark_free_total p bs (ground arith) in (b ∷ bs', rw (miss, e) refl)
]

mark_free-used_at :
    (q p o end : ℕ) (bs : List Block) {bs' : List Block}
    → Tiles o end bs
    → mark_free p bs ≡ some bs'
    → used_at q bs' ≡ (not (q == p) && used_at q bs)
unfolding used_at mark_free
mark_free-used_at q p o end [] t e = absurd (ground arith)
mark_free-used_at q p o end (b ∷ bs) t e =
    mark_free_cases (λ cs. used_at q cs ≡ (not (q == p) && used_at q (b ∷ bs))) p b bs e
      (λ hit. ground (arith, used_at_below q (o + header_size + b.size) end bs t.2))
      λ cs miss found.
        ground (arith, mark_free-used_at q p (o + header_size + b.size) end bs t.2 found)

pub initialize_ready : (h : Heap) → h.is_initialized ≡ true → initialize h ≡ h
unfolding initialize
initialize_ready h on = ground arith

merge-used_at : (q : ℕ) (bs : List Block) → used_at q (merge bs) ≡ used_at q bs
unfolding merge
merge-used_at q [] = refl
merge-used_at q (b ∷ bs) = merge_from-used_at q b bs

-- On a heap that is set up, `alloc` returns a pointer that was not in use, to at least the aligned
-- size inside the array; it is in use afterwards, and no other pointer changes.
pub alloc-some :
    (size p : ℕ) (h : Heap)
    → IsTiled h
    → (alloc size h).0 ≡ some p
    → let h' = (alloc size h).1 in
      (in_use p h ≡ false)
      × ((q : ℕ) → in_use q h' ≡ ((p == q) || in_use q h))
      × (align4 size ≤ room_at p h'.free_list)
      × (header_size ≤ p)
      × (p + align4 size ≤ heap_size)
unfolding alloc
alloc-some size p h (on, t) e =
    let found : (first_fit (align4 size) h.free_list).0 ≡ some p =
      rw (initialize_ready h on) at e in
    let place = first_fit_place (align4 size) p 0 heap_size h.free_list (omega arith) t found in
    rw (initialize_ready h on) (
      place.2,
      λ q. first_fit-used_at q (align4 size) p h.free_list found,
      place.3,
      omega arith,
      place.1,
    )

-- `alloc` returns NULL on a heap that is set up exactly when every free block has fewer bytes than
-- the size rounded up to a multiple of four, where the sum with three wraps at 2^32; it then
-- changes nothing.
pub alloc-none :
    (size : ℕ) (h : Heap)
    → IsTiled h
    → (((alloc size h).0 ≡ none) ↔ AllSmall ((size + 3) % 2 ^ 32 / 4 * 4) h.free_list)
      × ((alloc size h).0 ≡ none → (alloc size h).1 ≡ h)
unfolding alloc align4
alloc-none size h (on, t) = rw (initialize_ready h on) (
  (λ e. (first_fit-none (align4 size) h.free_list e).1, first_fit_small (align4 size) h.free_list),
  λ e. ground (arith, first_fit-none (align4 size) h.free_list e),
)

-- `alloc_free` of a pointer that heads a block makes exactly that pointer unused.
pub alloc_free-some :
    (p q : ℕ) (h : Heap) {h' : Heap}
    → IsTiled h
    → alloc_free p h ≡ some h'
    → in_use q h' ≡ (not (q == p) && in_use q h)
unfolding alloc_free
alloc_free-some p q h {h'} (on, t) e = elim (Option-cases (mark_free p h.free_list)) [
  | inl lost ↦ absurd (ground arith)
  | inr (bs, found) ↦
      ground (arith, merge-used_at q bs, mark_free-used_at q p 0 heap_size h.free_list t found)
]

-- A pointer in use is one that `alloc_free` takes.
pub alloc_free_total :
    (p : ℕ) (h : Heap) → in_use p h ≡ true → (h' : Heap) × (alloc_free p h ≡ some h')
unfolding alloc_free
alloc_free_total p h u =
    let (bs, e) = mark_free_total p h.free_list u in (record h { free_list = merge bs }, rw e refl)

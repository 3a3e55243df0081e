-- ===== src/Alloc/Reuse.antt =====
-- Free space: after `alloc_free` no two free blocks are neighbours, and on such a heap `alloc`
-- followed by `alloc_free` gives the heap back as it was.
use mazuki_os.Base.{
  ℕ, ◌+◌, ◌-◌, ◌≤◌, ◌<◌, ◌≡◌, ◌≢◌, refl, ap, ◌∙◌, Bool, true, false, ◌&&◌, some, List, [], ◌∷◌,
  arith, Bool-cases, Option-cases, inl, inr, subst, ==_refl, ==_ne,
}
use mazuki_os.Alloc.{
  Block, Heap, heap_size, header_size, align4, payload, splits, fits, carve, first_fit, alloc,
  mark_free, merge_from, merge, alloc_free,
}
use mazuki_os.Alloc.Tiling.{Tiles, IsTiled, splits-lt}
use mazuki_os.Alloc.Usage.{first_fit_place, initialize_ready}

-- No free block directly follows a free one; `prev` says whether the block before is free.
abbrev pub NoneAdjacent : Bool → List Block → Type 0
NoneAdjacent prev [] = Unit {0}
NoneAdjacent prev (b ∷ bs) = (prev && b.is_free ≡ false) × NoneAdjacent b.is_free bs

abbrev pub IsMerged : Heap → Type 0
IsMerged h = NoneAdjacent false h.free_list

merge_from-NoneAdjacent :
    (prev : Bool) (b : Block) (bs : List Block)
    → prev && b.is_free ≡ false
    → NoneAdjacent prev (merge_from b bs)
unfolding merge_from
merge_from-NoneAdjacent prev b [] h = (h, tt)
merge_from-NoneAdjacent prev b (c ∷ bs) h = elim (Bool-cases (b.is_free && c.is_free)) [
  | inl both ↦
      rw both
        (merge_from-NoneAdjacent prev (record b { size = b.size + (header_size + c.size) }) bs h)
  | inr apart ↦ rw apart (h, merge_from-NoneAdjacent b.is_free c bs apart)
]

-- A merged chain is merged already.
merge_from_same :
    (b : Block) (bs : List Block) → NoneAdjacent b.is_free bs → merge_from b bs ≡ b ∷ bs
unfolding merge_from
merge_from_same b [] h = refl
merge_from_same b (c ∷ bs) (h, hs) = rw h (ap (λ t. b ∷ t) (merge_from_same c bs hs))

merge-NoneAdjacent : (bs : List Block) → NoneAdjacent false (merge bs)
unfolding merge
merge-NoneAdjacent [] = tt
merge-NoneAdjacent (b ∷ bs) = merge_from-NoneAdjacent false b bs refl

-- Whatever `alloc_free` is given and takes, no two free blocks are neighbours afterwards.
pub alloc_free-IsMerged : (p : ℕ) (h : Heap) {h' : Heap} → alloc_free p h ≡ some h' → IsMerged h'
unfolding alloc_free
alloc_free-IsMerged p h {h'} e = elim (Option-cases (mark_free p h.free_list)) [
  | inl lost ↦ absurd (ground arith)
  | inr (bs, found) ↦
      let next : Heap = record h { free_list = merge bs } in
      let same : next ≡ h' = ground arith in subst IsMerged same (merge-NoneAdjacent bs)
]

first_free : List Block → Bool
first_free [] = false
first_free (b ∷ bs) = b.is_free

merge_from_cons :
    (b : Block) (cs : List Block)
    → b.is_free && first_free cs ≡ false
    → merge_from b cs ≡ b ∷ merge cs
unfolding merge_from merge first_free
merge_from_cons b [] h = refl
merge_from_cons b (c ∷ cs) h = rw h

-- What freeing the block that a search took does to the chain.
record GivesBack (p : ℕ) (bs taken : List Block) : Type 0 where
  freed : List Block
  marks : mark_free p taken ≡ some freed
  merges : merge freed ≡ bs
  starts : first_free freed ≡ first_free bs

module _ (size p o end : ℕ) (b : Block) (bs : List Block) (small : end ≤ heap_size)
    (t : Tiles o end (b ∷ bs)) where
  carve-GivesBack :
      fits b size ≡ true
      → NoneAdjacent b.is_free bs
      → GivesBack (payload b) (b ∷ bs) (carve b size bs)
  unfolding carve mark_free merge merge_from first_free
  carve-GivesBack fit apart = elim (Bool-cases (splits b size)) [
    | inl cut ↦
        let room : size + header_size + 4 < b.size =
          splits-lt b size o end bs (ground arith) small t cut in
        rw cut (record {
          freed =
              record b { size = size; is_free = true }
              ∷ record {
                offset = b.offset + header_size + size;
                size = b.size - size - header_size;
                is_free = true;
              }
              ∷ bs;
          marks = ground (arith, ==_refl (payload b));
          merges = rw (rejoined room) (merge_from_same b bs apart);
          starts = ground arith;
        })
    | inr whole ↦ rw whole (record {
      freed = b ∷ bs;
      marks = ground (arith, ==_refl (payload b));
      merges = merge_from_same b bs apart;
      starts = refl;
    })
  ]
    where
      rejoined :
          size + header_size + 4 < b.size
          → record b { size = size + (header_size + (b.size - size - header_size)); is_free = true }
            ≡ b
      rejoined room = ground arith

NoneAdjacent-first_free :
    (prev : Bool) (bs : List Block) → NoneAdjacent prev bs → prev && first_free bs ≡ false
unfolding first_free
NoneAdjacent-first_free prev [] n = ground arith
NoneAdjacent-first_free prev (b ∷ bs) n = n.0

keep-GivesBack :
    {p : ℕ} {bs taken : List Block} (b : Block)
    → GivesBack p bs taken
    → payload b ≢ p
    → NoneAdjacent b.is_free bs
    → GivesBack p (b ∷ bs) (b ∷ taken)
unfolding mark_free merge first_free
keep-GivesBack {p} {bs} b g ne n = record {
  freed = b ∷ g.freed;
  marks = rw (==_ne (payload b) p ne, g.marks) refl;
  merges =
      merge_from_cons b g.freed (rw g.starts (NoneAdjacent-first_free b.is_free bs n))
      ∙ ap (λ t. b ∷ t) g.merges;
  starts = refl;
}

first_fit-GivesBack :
    (size p o end : ℕ) (bs : List Block) (prev : Bool)
    → end ≤ heap_size
    → Tiles o end bs
    → NoneAdjacent prev bs
    → (first_fit size bs).0 ≡ some p
    → GivesBack p bs (first_fit size bs).1
unfolding first_fit
first_fit-GivesBack size p o end [] prev small t n e = absurd (ground arith)
first_fit-GivesBack size p o end (b ∷ bs) prev small t n e = elim (Bool-cases (fits b size)) [
  | inl fit ↦
      let here : payload b ≡ p = ground arith in
      rw (fit, ← here) (carve-GivesBack size p o end b bs small t fit n.1)
  | inr other ↦
      let found : (first_fit size bs).0 ≡ some p = ground arith in
      let place = first_fit_place size p (o + header_size + b.size) end bs small t.2 found in
      let later : GivesBack p bs (first_fit size bs).1 =
        first_fit-GivesBack size p (o + header_size + b.size) end bs b.is_free small t.2 n.1
          found in
      rw other (keep-GivesBack b later (omega (arith, place.0)) n.1)
]

-- On a heap with no two free blocks side by side, freeing what `alloc` has just returned gives
-- back that very heap.
pub alloc-alloc_free :
    (size p : ℕ) (h : Heap)
    → IsTiled h
    → IsMerged h
    → (alloc size h).0 ≡ some p
    → alloc_free p (alloc size h).1 ≡ some h
unfolding alloc alloc_free
alloc-alloc_free size p h (on, t) m e =
    let found : (first_fit (align4 size) h.free_list).0 ≡ some p =
      rw (initialize_ready h on) at e in
    let g =
      first_fit-GivesBack (align4 size) p 0 heap_size h.free_list false (omega arith) t m found in
    rw (initialize_ready h on) (rw g.marks (ground (arith, g.merges)))

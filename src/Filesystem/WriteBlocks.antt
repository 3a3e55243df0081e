-- ===== src/Filesystem/WriteBlocks.antt =====
-- The loop of `fs_write` on the slots of one file: which blocks it takes, where it writes, and what
-- a read of the same slots returns afterwards.
use mazuki_os.Base.{
  ℕ, suc, ◌+◌, ◌-◌, ◌*◌, ◌/◌, ◌≤◌, ◌<◌, ◌≡◌, ◌≢◌, ◌⊎◌, inl, inr, refl, ap, ap₂, sym, ◌∙◌, min, Bool,
  true, false, not, ◌&&◌, ◌||◌, Option, none, some, List, [], ◌∷◌, ◌++◌, arith, ◌==◌, ==_ne,
  ==_refl, length, take, drop, length-take, length-drop, ℕ_discrete, Bool-cases, dec_lt,
}
use mazuki_os.Filesystem.{
  block_size, total_blocks, is_block_free, block_for, store, load, read_blocks, write_blocks,
  Written,
}
use mazuki_os.Filesystem.Bitmap.{IsBitmap, allocate_block_lem}
use mazuki_os.Filesystem.Blocks.{
  held, Distinct, store_outside, load-store, load-ext, take-split, take-take,
}

-- The slots of one file against the bitmap: their blocks exist, are marked, and are all different.
pub record IsMarked (bs : List (Option ℕ)) (bitmap : List ℕ) : Type 0 where
  pub sound : IsBitmap bitmap
  pub distinct : Distinct bs
  pub taken : (k : ℕ) → held k bs ≡ true → (k < total_blocks) × (is_block_free k bitmap ≡ false)

-- A slot's block `k` after `block_for`, with the bitmap then.
record Got (b : Option ℕ) (bitmap : List ℕ) (k : ℕ) (after : List ℕ) : Type 0 where
  sound : IsBitmap after
  within : k < total_blocks
  marked : is_block_free k after ≡ false
  others : (j : ℕ) → is_block_free j after ≡ (not (k == j) && is_block_free j bitmap)
  origin : (b ≡ some k) ⊎ ((b ≡ none) × (is_block_free k bitmap ≡ true))

abbrev IsFull : List ℕ → Type 0
IsFull bitmap = (k : ℕ) → k < total_blocks → is_block_free k bitmap ≡ false

block_for_lem :
    (b : Option ℕ) (bs : List (Option ℕ)) (bitmap : List ℕ)
    → IsMarked (b ∷ bs) bitmap
    → ((block_for b bitmap ≡ none) × (b ≡ none) × IsFull bitmap)
      ⊎ ((k : ℕ) × (after : List ℕ) × (block_for b bitmap ≡ some (k, after)) × Got b bitmap k after)
unfolding block_for
block_for_lem (some k) bs bitmap v =
    let t = v.taken k (ground arith) in
    inr (
      k,
      bitmap,
      refl,
      record {
        sound = v.sound;
        within = t.0;
        marked = t.1;
        others = λ j. elim (ℕ_discrete k j) [
          | yes e ↦ rw (← e) (ground (arith, t.1))
          | no ne ↦ rw (==_ne k j ne)
        ];
        origin = inl refl;
      },
    )
block_for_lem none bs bitmap v = elim (allocate_block_lem bitmap v.sound) [
  | inl (e, full) ↦ inl (e, refl, full)
  | inr (i, after, e, lt, free, first, bits, ok) ↦ inr (
    i,
    after,
    e,
    record {
      sound = ok;
      within = lt;
      marked = bits i ∙ rw (==_refl i);
      others = bits;
      origin = inr (refl, free);
    },
  )
]

-- The slots that are left stay marked.
rest-IsMarked :
    (b : Option ℕ) (bs : List (Option ℕ)) (bitmap : List ℕ) (k : ℕ) (after : List ℕ)
    → IsMarked (b ∷ bs) bitmap
    → Got b bitmap k after
    → IsMarked bs after
rest-IsMarked none bs bitmap k after v g = record {
  sound = g.sound;
  distinct = v.distinct;
  taken = λ j h. let t = v.taken j h in (t.0, ground (arith, g.others j, t.1));
}
rest-IsMarked (some b) bs bitmap k after v g = record {
  sound = g.sound;
  distinct = v.distinct.1;
  taken = λ j h. let t = v.taken j (ground (arith, h)) in (t.0, ground (arith, g.others j, t.1));
}

-- The block of the first slot is in no later one.
first_alone :
    (b : Option ℕ) (bs : List (Option ℕ)) (bitmap : List ℕ) (k : ℕ) (after : List ℕ)
    → IsMarked (b ∷ bs) bitmap
    → Got b bitmap k after
    → held k bs ≡ false
first_alone b bs bitmap k after v g = elim (Bool-cases (held k bs)) [
  | inr no_more ↦ no_more
  | inl again ↦ absurd (go b v g.origin again)
]
  where
    go :
        (b : Option ℕ)
        → IsMarked (b ∷ bs) bitmap
        → (b ≡ some k) ⊎ ((b ≡ none) × (is_block_free k bitmap ≡ true))
        → held k bs ≡ true
        → ⊥
    go (some c) w (inl e) h =
        let same : c ≡ k = ground arith in
        let alone : held k bs ≡ false = rw (← same) w.distinct.0 in cc
    go none w (inl e) h = cc
    go (some c) w (inr (e, free)) h = cc
    go none w (inr (e, free)) h = let t = w.taken k h in cc

-- What the loop leaves, over the slots `bs` and the bytes `xs` it was given.
pub record Wrote (bs : List (Option ℕ)) (xs : List ℕ) (disk : ℕ → ℕ) (bitmap : List ℕ) (w : Written)
    : Type 0 where
  pub marked : IsMarked w.blocks w.block_bitmap
  pub slots : length w.blocks ≡ length bs
  -- A block that is marked afterwards was marked before or is now the file's.
  pub bits :
      (k : ℕ) → is_block_free k w.block_bitmap ≡ (not (held k w.blocks) && is_block_free k bitmap)
  -- The file keeps its blocks, and those that it gains were free.
  pub gained :
      (k : ℕ) → held k w.blocks ≡ (held k bs || (held k w.blocks && is_block_free k bitmap))
  -- No byte outside the file's blocks changes.
  pub frame : (p : ℕ) → held (p / block_size) w.blocks ≡ false → w.disk p ≡ disk p
  pub count : w.written ≤ length xs
  pub done : w.complete ≡ true → w.written ≡ min (length xs) (block_size * length bs)
  pub full : w.complete ≡ false → IsFull w.block_bitmap
  pub content : (n : ℕ) → n ≤ w.written → read_blocks w.blocks n w.disk ≡ take n xs

abbrev stopped : Bool → List (Option ℕ) → (ℕ → ℕ) → List ℕ → Written
stopped c bs disk bitmap = record {
  blocks = bs;
  disk = disk;
  block_bitmap = bitmap;
  written = 0;
  complete = c;
}

none_read : (bs : List (Option ℕ)) (disk : ℕ → ℕ) → read_blocks bs 0 disk ≡ []
unfolding read_blocks
none_read [] disk = refl
none_read (none ∷ bs) disk = refl
none_read (some k ∷ bs) disk = refl

-- The loop stops without writing.
stopped-Wrote :
    (c : Bool) (bs : List (Option ℕ)) (xs : List ℕ) (disk : ℕ → ℕ) (bitmap : List ℕ)
    → IsMarked bs bitmap
    → (c ≡ true → 0 ≡ min (length xs) (block_size * length bs))
    → (c ≡ false → IsFull bitmap)
    → Wrote bs xs disk bitmap (stopped c bs disk bitmap)
stopped-Wrote c bs xs disk bitmap v nothing full = record {
  marked = v;
  slots = refl;
  bits = λ k. elim (Bool-cases (held k bs)) [ inl h ↦ rw h (v.taken k h).1 | inr h ↦ rw h refl ];
  gained = λ k. ground arith;
  frame = λ p h. refl;
  count = omega arith;
  done = nothing;
  full = full;
  content = λ n h. let e : n ≡ 0 = omega arith in rw e (none_read bs disk);
}

-- The first slot's block is `k` or none, so that it tells nothing of another block.
held_other :
    (b : Option ℕ) (bs : List (Option ℕ)) (bitmap : List ℕ) (k : ℕ) (after : List ℕ) (j : ℕ)
    → Got b bitmap k after
    → k ≢ j
    → held j (b ∷ bs) ≡ held j bs
held_other b bs bitmap k after j g ne = elim g.origin [
  | inl e ↦ rw (e, ==_ne k j ne)
  | inr (e, free) ↦ rw e
]

-- A position in another block than `k` is not among the bytes stored there.
outside_block :
    (xs : List ℕ) (k p : ℕ)
    → (k == p / block_size) ≡ false
    → (p < k * block_size) ⊎ (k * block_size + length (take block_size xs) ≤ p)
outside_block xs k p h =
    let ne : k ≢ p / block_size = ground arith in
    elim (dec_lt p (k * block_size)) [
      | yes lt ↦ inl lt
      | no nlt ↦ inr (omega (arith, length-take block_size xs))
    ]

-- One block is written, and the loop goes on with the other slots.
module _ (b : Option ℕ) (bs : List (Option ℕ)) (xs : List ℕ) (disk : ℕ → ℕ) (bitmap : List ℕ)
    (k : ℕ) (after : List ℕ) (v : IsMarked (b ∷ bs) bitmap) (g : Got b bitmap k after)
    (rest : Written)
    (r : Wrote bs
      (drop block_size xs)
      (store (take block_size xs) (k * block_size) disk)
      after
      rest) where
  abbrev step : Written
  step = record rest {
    blocks = some k ∷ rest.blocks;
    written = length (take block_size xs) + rest.written;
  }

  alone_after : held k rest.blocks ≡ false
  alone_after = r.gained k ∙ rw (first_alone b bs bitmap k after v g) (ground (arith, g.marked))

  step-IsMarked : IsMarked step.blocks step.block_bitmap
  step-IsMarked = record {
    sound = r.marked.sound;
    distinct = (alone_after, r.marked.distinct);
    taken = λ j h. elim (ℕ_discrete k j) [
      | yes e ↦ (rw (← e) g.within, r.bits j ∙ rw (← e) (rw g.marked (ground (arith, alone_after))))
      | no ne ↦ r.marked.taken j (rw (==_ne k j ne) at h)
    ];
  }

  step_bits :
      (j : ℕ)
      → is_block_free j step.block_bitmap ≡ (not (held j step.blocks) && is_block_free j bitmap)
  step_bits j = ground (arith, r.bits j, g.others j)

  step_gained :
      (j : ℕ)
      → held j step.blocks ≡ (held j (b ∷ bs) || (held j step.blocks && is_block_free j bitmap))
  step_gained j = elim (ℕ_discrete k j) [
    | yes e ↦ elim g.origin [
      | inl old ↦ rw (old, ← e) (ground arith)
      | inr (old, free) ↦ rw (old, ← e, free) (ground arith)
    ]
    | no ne ↦
        ground (arith, r.gained j, g.others j, held_other b bs bitmap k after j g ne, ==_ne k j ne)
  ]

  step_frame : (p : ℕ) → held (p / block_size) step.blocks ≡ false → step.disk p ≡ disk p
  step_frame p h =
      r.frame p (ground (arith, h))
      ∙ store_outside (take block_size xs) (k * block_size) disk p
          (outside_block xs k p (ground (arith, h)))

  -- The part of a read behind it begins a block further on, or is empty.
  later :
      (n : ℕ)
      → take (n - min n block_size) (drop block_size xs)
        ≡ take (n - min n block_size) (drop (min n block_size) xs)
  later n = elim (dec_lt block_size n) [
    | yes gt ↦
        let e : block_size ≡ min n block_size = omega arith in
        ap (λ i. take (n - min n block_size) (drop i xs)) e
    | no le ↦ let e : n - min n block_size ≡ 0 = omega arith in rw e refl
  ]

  -- The part of a read that lies in the block just written.
  first_block :
      (m : ℕ) → m ≤ length (take block_size xs) → load m (k * block_size) rest.disk ≡ take m xs
  first_block m h =
      load-ext m (k * block_size) rest.disk (store (take block_size xs) (k * block_size) disk)
        (λ p lo hi.
          let at : k ≡ p / block_size = omega (arith, length-take block_size xs) in
          r.frame p (rw (← at) alone_after))
      ∙ load-store m (take block_size xs) (k * block_size) disk h
      ∙ take-take m block_size xs (omega (arith, length-take block_size xs))

  step_content : (n : ℕ) → n ≤ step.written → read_blocks step.blocks n step.disk ≡ take n xs
  unfolding read_blocks
  step_content n h = elim (ℕ_discrete n 0) [
    | yes e ↦ rw e refl
    | no ne ↦ rw (==_ne n 0 ne) (
        ap₂ ◌++◌
          (first_block (min n block_size)
            (omega (arith, length-take block_size xs, length-drop block_size xs, r.count)))
          (r.content (n - min n block_size) (omega (arith, length-take block_size xs)) ∙ later n)
        ∙ sym (take-split (min n block_size) (n - min n block_size) xs)
        ∙ ap (λ i. take i xs) (omega arith))
  ]

  step-Wrote : 0 < length xs → Wrote (b ∷ bs) xs disk bitmap step
  step-Wrote pos = record {
    marked = step-IsMarked;
    slots = ap suc r.slots;
    bits = step_bits;
    gained = step_gained;
    frame = step_frame;
    count = omega (arith, r.count, length-take block_size xs, length-drop block_size xs);
    done = λ c. omega (arith, r.done c, length-take block_size xs, length-drop block_size xs);
    full = r.full;
    content = step_content;
  }

pub write_blocks-Wrote :
    (bs : List (Option ℕ)) (xs : List ℕ) (disk : ℕ → ℕ) (bitmap : List ℕ)
    → IsMarked bs bitmap
    → Wrote bs xs disk bitmap (write_blocks bs xs disk bitmap)
unfolding write_blocks
write_blocks-Wrote [] [] disk bitmap v =
    stopped-Wrote true [] [] disk bitmap v (λ c. omega arith) (λ c. absurd (cc))
write_blocks-Wrote (b ∷ bs) [] disk bitmap v =
    stopped-Wrote true (b ∷ bs) [] disk bitmap v (λ c. omega arith) (λ c. absurd (cc))
write_blocks-Wrote [] (x ∷ xs) disk bitmap v =
    stopped-Wrote true [] (x ∷ xs) disk bitmap v (λ c. omega arith) (λ c. absurd (cc))
write_blocks-Wrote (b ∷ bs) (x ∷ xs) disk bitmap v = elim (block_for_lem b bs bitmap v) [
  | inl (e, empty, full) ↦
      rw (e, write_blocks)
        (stopped-Wrote false (b ∷ bs) (x ∷ xs) disk bitmap v (λ c. absurd (cc)) (λ c. full))
  | inr (k, after, e, g) ↦
      rw (e, write_blocks)
        (step-Wrote b bs (x ∷ xs) disk bitmap k after v g
          (write_blocks bs (drop block_size (x ∷ xs))
            (store (take block_size (x ∷ xs)) (k * block_size) disk) after)
          (write_blocks-Wrote bs (drop block_size (x ∷ xs))
            (store (take block_size (x ∷ xs)) (k * block_size) disk) after
            (rest-IsMarked b bs bitmap k after v g))
          (omega arith))
]

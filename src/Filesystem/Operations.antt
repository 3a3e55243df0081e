-- ===== src/Filesystem/Operations.antt =====
-- `fs_create`, `fs_delete` and `fs_write` keep the invariant.
use mazuki_os.Base.{
  ℕ, ◌<◌, ◌≡◌, ◌≢◌, inl, inr, refl, ◌∙◌, true, false, not, ◌||◌, Option, none, some, List, [], ◌∷◌,
  arith, ==_refl, if◌then◌else◌, get_elem?, modify, first_where, first_where-some, Bool-cases,
  Option-cases, lt-get_elem?, get_elem?-lt,
}
use mazuki_os.Filesystem.{
  max_files, total_blocks, is_block_free, set_block_free, FileEntry, Filesystem, fresh_entry,
  fs_create, free_blocks, fs_delete, write_blocks, fs_write, Written,
}
use mazuki_os.Filesystem.Bitmap.{IsBitmap, set_block_free-IsBitmap, is_block_free-set_block_free}
use mazuki_os.Filesystem.Blocks.{held}
use mazuki_os.Filesystem.WriteBlocks.{Wrote, write_blocks-Wrote}
use mazuki_os.Filesystem.Invariant.{
  IsFile, IsSound, file-IsMarked, changed-IsSound, same_entry, held_apart,
}

-- The first entry that is not in use becomes an empty file.
fresh-IsSound :
    (name : List ℕ) (fs : Filesystem) (i : ℕ) (f : FileEntry)
    → IsSound fs
    → get_elem? fs.file_table i ≡ some f
    → f.used ≡ false
    → IsSound (record fs { file_table = modify fs.file_table i (fresh_entry name) })
unfolding fresh_entry
fresh-IsSound name fs i f v at unused =
    changed-IsSound fs i f (fresh_entry name) fs.block_bitmap fs.disk v at v.bits refl
      (λ used. record { sound = v.bits; distinct = tt; taken = λ k h. absurd (cc) })
      (λ j h k ne file has. ((v.taken j h k file has).1, λ used. refl))
      (λ k lt marked.
        let (j, h, file, has) = v.owner k lt marked in
        inr (j, h, (λ e. unused_ne (same_entry fs.file_table i j at file.0 e) file.1), file, has))
  where
    unused_ne : {h : FileEntry} → f ≡ h → h.used ≡ true → ⊥
    unused_ne e used = cc

pub fs_create-IsSound :
    (name : List ℕ) (fs : Filesystem) → IsSound fs → IsSound (fs_create name fs).0
unfolding fs_create
fs_create-IsSound name fs v = elim (Option-cases (first_where (λ f. not f.used) fs.file_table 0)) [
  | inl full ↦ rw (full, fs_create) v
  | inr (i, found) ↦
      let (m, at, ((f, here, unused), before)) =
        first_where-some (λ f. not f.used) fs.file_table 0 found in
      let same : m ≡ i = omega arith in
      rw (found, fs_create) (fresh-IsSound name fs i f v (rw same at here) (ground arith))
]

-- Freeing a file's blocks marks these and no others.
free_blocks_lem :
    (bs : List (Option ℕ)) (bitmap : List ℕ)
    → IsBitmap bitmap
    → ((k : ℕ) → held k bs ≡ true → k < total_blocks)
    → IsBitmap (free_blocks bs bitmap)
      × ((k : ℕ) → is_block_free k (free_blocks bs bitmap) ≡ (held k bs || is_block_free k bitmap))
unfolding free_blocks
free_blocks_lem [] bitmap v within = (v, λ k. refl)
free_blocks_lem (none ∷ bs) bitmap v within = free_blocks_lem bs bitmap v within
free_blocks_lem (some b ∷ bs) bitmap v within =
    let lt : b < total_blocks = within b (rw (==_refl b) refl) in
    let (ok, bits) =
      free_blocks_lem bs (set_block_free b bitmap) (set_block_free-IsBitmap b bitmap lt v)
        (λ k h. within k (ground (arith, h))) in
    (ok, λ k. ground (arith, bits k, is_block_free-set_block_free k b bitmap lt v))

delete-IsSound :
    (fs : Filesystem) (i : ℕ) (f : FileEntry)
    → IsSound fs
    → IsFile fs.file_table i f
    → IsSound (record fs {
      block_bitmap = free_blocks f.blocks fs.block_bitmap;
      file_table = modify fs.file_table i (λ f. record f { used = false });
    })
delete-IsSound fs i f v at =
    let (ok, bits) =
      free_blocks_lem f.blocks fs.block_bitmap v.bits (λ k h. (v.taken i f k at h).0) in
    changed-IsSound fs i f (λ f. record f { used = false }) (free_blocks f.blocks fs.block_bitmap)
      fs.disk v at.0 ok (v.slots i f at.0) (λ used. absurd (cc))
      (λ j h k ne file has. (
        bits k ∙ rw (held_apart fs i j f h k v at file ne has) (v.taken j h k file has).1,
        λ used. absurd (cc),
      ))
      (λ k lt marked.
        let gone : held k f.blocks ≡ false = ground (arith, bits k, marked) in
        let was : is_block_free k fs.block_bitmap ≡ false = ground (arith, bits k, marked) in
        let (j, h, file, has) = v.owner k lt was in
        inr (
          j,
          h,
          (λ e. not_held (same_entry fs.file_table i j at.0 file.0 e) k has gone),
          file,
          has,
        ))
  where
    not_held :
        {h : FileEntry} → f ≡ h → (k : ℕ) → held k h.blocks ≡ true → held k f.blocks ≡ false → ⊥
    not_held e k has gone = let again : held k f.blocks ≡ true = rw e has in cc

-- A deletion keeps the invariant, whatever the entry.
pub fs_delete-IsSound :
    (i : ℕ) (fs : Filesystem)
    → i < max_files
    → IsSound fs
    → (fs' : Filesystem) × (fs_delete i fs ≡ some fs') × IsSound fs'
unfolding fs_delete
fs_delete-IsSound i fs lt v =
    let (f, at) = get_elem?-lt fs.file_table i (omega (arith, v.files)) in
    elim (Bool-cases f.used) [
      | inl used ↦ (_, rw (at, fs_delete) (rw used refl), delete-IsSound fs i f v (at, used))
      | inr unused ↦ (fs, rw (at, fs_delete) (rw unused refl), v)
    ]

pub fs_delete-lt :
    (i : ℕ) (fs fs' : Filesystem) → IsSound fs → fs_delete i fs ≡ some fs' → i < max_files
unfolding fs_delete
fs_delete-lt i fs fs' v e = elim (Option-cases (get_elem? fs.file_table i)) [
  | inl out ↦ absurd (ground arith)
  | inr (f, at) ↦ omega (arith, lt-get_elem? fs.file_table i at, v.files)
]

write-IsSound :
    (fs : Filesystem) (i : ℕ) (f : FileEntry) (bytes : List ℕ) (size : ℕ) (w : Written)
    → IsSound fs
    → IsFile fs.file_table i f
    → Wrote f.blocks bytes fs.disk fs.block_bitmap w
    → IsSound (record {
      disk = w.disk;
      block_bitmap = w.block_bitmap;
      file_table = modify fs.file_table i (λ f. record f { blocks = w.blocks; size = size });
    })
write-IsSound fs i f bytes size w v at r =
    changed-IsSound fs i f (λ f. record f { blocks = w.blocks; size = size }) w.block_bitmap w.disk
      v at.0 r.marked.sound (r.slots ∙ v.slots i f at.0) (λ used. r.marked)
      (λ j h k ne file has.
        let old : held k f.blocks ≡ false = held_apart fs i j f h k v at file ne has in
        let was : is_block_free k fs.block_bitmap ≡ false = (v.taken j h k file has).1 in
        (ground (arith, r.bits k, was), λ used. ground (arith, r.gained k, old, was)))
      (λ k lt marked. elim (Bool-cases (held k w.blocks)) [
        | inl has ↦ inl (at.1, has)
        | inr has_not ↦
            let was : is_block_free k fs.block_bitmap ≡ false =
              ground (arith, r.bits k, marked, has_not) in
            let gone : held k f.blocks ≡ false = ground (arith, r.gained k, has_not) in
            let (j, h, file, has) = v.owner k lt was in
            inr (j, h, not_same k gone h j file has, file, has)
      ])
  where
    not_same :
        (k : ℕ)
        → held k f.blocks ≡ false
        → (h : FileEntry) (j : ℕ) → IsFile fs.file_table j h
        → held k h.blocks ≡ true
        → i ≢ j
    not_same k gone h j file has e =
        let same : f ≡ h = same_entry fs.file_table i j at.0 file.0 e in
        let again : held k f.blocks ≡ true = rw same has in cc

-- A write to a file in use returns, and keeps the invariant.
pub fs_write-IsSound :
    (i : ℕ) (bytes : List ℕ) (fs : Filesystem) (f : FileEntry)
    → IsSound fs
    → IsFile fs.file_table i f
    → (fs' : Filesystem) × (n : ℕ) × (fs_write i bytes fs ≡ some (fs', n)) × IsSound fs'
unfolding fs_write
fs_write-IsSound i bytes fs f v at =
    let w = write_blocks f.blocks bytes fs.disk fs.block_bitmap in
    (
      _,
      w.written,
      rw (at.0, fs_write) refl,
      write-IsSound fs i f bytes (if w.complete then w.written else f.size) w v at
          (write_blocks-Wrote f.blocks bytes fs.disk fs.block_bitmap (file-IsMarked fs i f v at)),
    )

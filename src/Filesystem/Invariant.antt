-- ===== src/Filesystem/Invariant.antt =====
-- The invariant that ties the file table to the bitmap, and what a change of one
-- entry must respect to keep it.
use mazuki_os.Base.{
  ℕ, ◌<◌, ◌≡◌, ◌≢◌, ◌⊎◌, inl, inr, refl, sym, ◌∙◌, true, false, some, ==_ne, ==_refl, length,
  get_elem?, modify, length-modify, get_elem?-modify, modify_cases, Bool-cases, List,
}
use mazuki_os.Filesystem.{
  max_files, max_blocks_per_file, total_blocks, is_block_free, FileEntry, Filesystem,
}
use mazuki_os.Filesystem.Bitmap.{IsBitmap}
use mazuki_os.Filesystem.Blocks.{held, Distinct}
use mazuki_os.Filesystem.WriteBlocks.{IsMarked}

-- The file at index `i`, if it is in use.
abbrev pub IsFile : List FileEntry → ℕ → FileEntry → Type 0
IsFile table i f = (get_elem? table i ≡ some f) × (f.used ≡ true)

-- A file in use that has block `k`.
abbrev pub Owner : List FileEntry → ℕ → Type 0
Owner table k = (i : ℕ) × (f : FileEntry) × IsFile table i f × (held k f.blocks ≡ true)

pub record IsSound (fs : Filesystem) : Type 0 where
  pub bits : IsBitmap fs.block_bitmap
  pub files : length fs.file_table ≡ max_files
  pub slots :
      (i : ℕ) (f : FileEntry)
      → get_elem? fs.file_table i ≡ some f
      → length f.blocks ≡ max_blocks_per_file
  -- A file has no block twice.
  pub distinct : (i : ℕ) (f : FileEntry) → IsFile fs.file_table i f → Distinct f.blocks
  -- The blocks of a file exist and are marked as used.
  pub taken :
      (i : ℕ) (f : FileEntry) (k : ℕ)
      → IsFile fs.file_table i f
      → held k f.blocks ≡ true
      → (k < total_blocks) × (is_block_free k fs.block_bitmap ≡ false)
  -- No block belongs to two files.
  pub alone :
      (i j : ℕ) (f g : FileEntry) (k : ℕ)
      → IsFile fs.file_table i f
      → IsFile fs.file_table j g
      → held k f.blocks ≡ true
      → held k g.blocks ≡ true
      → i ≡ j
  -- No block is lost: one that is marked as used belongs to a file.
  pub owner :
      (k : ℕ) → k < total_blocks → is_block_free k fs.block_bitmap ≡ false → Owner fs.file_table k

pub file-IsMarked :
    (fs : Filesystem) (i : ℕ) (f : FileEntry)
    → IsSound fs
    → IsFile fs.file_table i f
    → IsMarked f.blocks fs.block_bitmap
file-IsMarked fs i f v at = record {
  sound = v.bits;
  distinct = v.distinct i f at;
  taken = λ k h. v.taken i f k at h;
}

pub same_entry :
    (table : List FileEntry) (i j : ℕ) {f h : FileEntry}
    → get_elem? table i ≡ some f
    → get_elem? table j ≡ some h
    → i ≡ j
    → f ≡ h
same_entry table i j e e' same = cc

-- Another file's block is none of the file's.
pub held_apart :
    (fs : Filesystem) (i j : ℕ) (f h : FileEntry) (k : ℕ)
    → IsSound fs
    → IsFile fs.file_table i f
    → IsFile fs.file_table j h
    → i ≢ j
    → held k h.blocks ≡ true
    → held k f.blocks ≡ false
held_apart fs i j f h k v at file ne has = elim (Bool-cases (held k f.blocks)) [
  | inl both ↦ absurd (ne (v.alone i j f h k at file both has))
  | inr no_more ↦ no_more
]

pub get-modify_self {ℓ} :
    {A : Type ℓ} (xs : List A) (i : ℕ) (f : A → A) {x : A}
    → get_elem? xs i ≡ some x
    → get_elem? (modify xs i f) i ≡ some (f x)
get-modify_self xs i f e = get_elem?-modify xs i i f ∙ rw (==_refl i, e) refl

pub get-modify_ne {ℓ} :
    {A : Type ℓ} (xs : List A) (i j : ℕ) (f : A → A)
    → i ≢ j
    → get_elem? (modify xs i f) j ≡ get_elem? xs j
get-modify_ne xs i j f ne = get_elem?-modify xs i j f ∙ rw (==_ne i j ne) refl

-- One entry is changed to `g f`, and the bitmap to `bitmap`. What the three operations have in
-- common: the other files keep their blocks, and the new entry has its own.
module _ (fs : Filesystem) (i : ℕ) (f : FileEntry) (g : FileEntry → FileEntry) (bitmap : List ℕ)
    (disk : ℕ → ℕ) (v : IsSound fs) (at : get_elem? fs.file_table i ≡ some f)
    (bits : IsBitmap bitmap) (size : length (g f).blocks ≡ max_blocks_per_file)
    (own : (g f).used ≡ true → IsMarked (g f).blocks bitmap)
    (others : (j : ℕ) (h : FileEntry) (k : ℕ)
      → i ≢ j
      → IsFile fs.file_table j h
      → held k h.blocks ≡ true
      → (is_block_free k bitmap ≡ false) × ((g f).used ≡ true → held k (g f).blocks ≡ false))
    (kept : (k : ℕ)
      → k < total_blocks
      → is_block_free k bitmap ≡ false
      → ((g f).used ≡ true) × (held k (g f).blocks ≡ true)
        ⊎ ((j : ℕ) × (h : FileEntry) × (i ≢ j)
            × IsFile fs.file_table j h
            × (held k h.blocks ≡ true))) where
  abbrev pub table' : List FileEntry
  table' = modify fs.file_table i g

  -- A file of the new table is the changed one or an old one.
  file_cases :
      (j : ℕ) (h : FileEntry)
      → IsFile table' j h
      → ((i ≡ j) × (h ≡ g f)) ⊎ ((i ≢ j) × IsFile fs.file_table j h)
  file_cases j h (e, used) = elim (modify_cases fs.file_table i j g e) [
    | inl (same, x, was, is) ↦ inl (same, let same_entry : x ≡ f = cc in rw (← same_entry) is)
    | inr (ne, was) ↦ inr (ne, (was, used))
  ]

  changed_slots :
      (j : ℕ) (h : FileEntry) → get_elem? table' j ≡ some h → length h.blocks ≡ max_blocks_per_file
  changed_slots j h e = elim (modify_cases fs.file_table i j g e) [
    | inl (same, x, was, is) ↦ let same_entry : x ≡ f = cc in rw (is, same_entry) size
    | inr (ne, was) ↦ v.slots j h was
  ]

  changed-Distinct : (j : ℕ) (h : FileEntry) → IsFile table' j h → Distinct h.blocks
  changed-Distinct j h file = elim (file_cases j h file) [
    | inl (same, is) ↦ rw is (own (rw is at file.1)).distinct
    | inr (ne, was) ↦ v.distinct j h was
  ]

  changed_taken :
      (j : ℕ) (h : FileEntry) (k : ℕ)
      → IsFile table' j h
      → held k h.blocks ≡ true
      → (k < total_blocks) × (is_block_free k bitmap ≡ false)
  changed_taken j h k file has = elim (file_cases j h file) [
    | inl (same, is) ↦ (own (rw is at file.1)).taken k (rw is at has)
    | inr (ne, was) ↦ ((v.taken j h k was has).0, (others j h k ne was has).0)
  ]

  changed_alone :
      (j j' : ℕ) (h h' : FileEntry) (k : ℕ)
      → IsFile table' j h
      → IsFile table' j' h'
      → held k h.blocks ≡ true
      → held k h'.blocks ≡ true
      → j ≡ j'
  changed_alone j j' h h' k file file' has has' = elim (file_cases j h file) [
    | inl (same, is) ↦ elim (file_cases j' h' file') [
      | inl (same', is') ↦ sym same ∙ same'
      | inr (ne', was') ↦
          let no_such : held k (g f).blocks ≡ false =
            (others j' h' k ne' was' has').1 (rw is at file.1) in
          let such : held k (g f).blocks ≡ true = rw is at has in absurd (cc)
    ]
    | inr (ne, was) ↦ elim (file_cases j' h' file') [
      | inl (same', is') ↦
          let no_such : held k (g f).blocks ≡ false =
            (others j h k ne was has).1 (rw is' at file'.1) in
          let such : held k (g f).blocks ≡ true = rw is' at has' in absurd (cc)
      | inr (ne', was') ↦ v.alone j j' h h' k was was' has has'
    ]
  ]

  changed-Owner : (k : ℕ) → k < total_blocks → is_block_free k bitmap ≡ false → Owner table' k
  changed-Owner k lt marked = elim (kept k lt marked) [
    | inl (used, has) ↦ (i, g f, (get-modify_self fs.file_table i g at, used), has)
    | inr (j, h, ne, (was, used), has) ↦
        (j, h, (get-modify_ne fs.file_table i j g ne ∙ was, used), has)
  ]

  pub changed-IsSound : IsSound (record { disk = disk; block_bitmap = bitmap; file_table = table' })
  changed-IsSound = record {
    bits = bits;
    files = length-modify fs.file_table i g ∙ v.files;
    slots = changed_slots;
    distinct = changed-Distinct;
    taken = changed_taken;
    alone = changed_alone;
    owner = changed-Owner;
  }

-- ===== src/Filesystem/Files.antt =====
-- What a program sees of its files: a read after a write, and what one file's calls do to others.
use mazuki_os.Base.{
  ℕ, ◌*◌, ◌/◌, ◌≤◌, ◌<◌, ◌≡◌, ◌≢◌, ◌⊎◌, inl, inr, refl, ap, ◌∙◌, min, true, false, not, none, some,
  List, [], arith, if◌then◌else◌, length, get_elem?, modify, take, first_where, first_where-some,
  first_where-none, Bool-cases, Option-cases,
}
use mazuki_os.Filesystem.{
  max_blocks_per_file, block_size, total_blocks, is_block_free, FileEntry, Filesystem, fresh_entry,
  fs_create, write_blocks, fs_write, fs_read, Written,
}
use mazuki_os.Klibc.Text.{Spells}
use mazuki_os.Filesystem.Names.{HasNames, IsNew, fresh_entry-IsNew}
use mazuki_os.Filesystem.Blocks.{held, read_blocks-ext}
use mazuki_os.Filesystem.WriteBlocks.{Wrote, write_blocks-Wrote}
use mazuki_os.Filesystem.Invariant.{
  IsFile, IsSound, file-IsMarked, held_apart, get-modify_self, get-modify_ne,
}

-- The most bytes that a file holds.
abbrev pub max_size : ℕ
max_size = block_size * max_blocks_per_file

abbrev pub IsFull : Filesystem → Type 0
IsFull fs = (k : ℕ) → k < total_blocks → is_block_free k fs.block_bitmap ≡ false

module _ (i : ℕ) (bytes : List ℕ) (fs : Filesystem) (f : FileEntry) (v : IsSound fs)
    (at : IsFile fs.file_table i f) where
  abbrev loop : Written
  loop = write_blocks f.blocks bytes fs.disk fs.block_bitmap

  abbrev new_size : ℕ
  new_size = if loop.complete then loop.written else f.size

  abbrev entry_after : FileEntry → FileEntry
  entry_after g = record g { blocks = loop.blocks; size = new_size }

  abbrev after : Filesystem
  after = record {
    disk = loop.disk;
    block_bitmap = loop.block_bitmap;
    file_table = modify fs.file_table i entry_after;
  }

  wrote : Wrote f.blocks bytes fs.disk fs.block_bitmap loop
  wrote = write_blocks-Wrote f.blocks bytes fs.disk fs.block_bitmap (file-IsMarked fs i f v at)

  fs_write-after : fs_write i bytes fs ≡ some (after, loop.written)
  unfolding fs_write
  fs_write-after = rw (at.0, fs_write) refl

  entry-after : get_elem? after.file_table i ≡ some (entry_after f)
  entry-after = get-modify_self fs.file_table i entry_after at.0

  size_or_full :
      ((loop.written ≡ min (length bytes) max_size) × ((entry_after f).size ≡ loop.written))
      ⊎ (IsFull after × ((entry_after f).size ≡ f.size))
  size_or_full = elim (Bool-cases loop.complete) [
    | inl c ↦ inl (omega (arith, wrote.done c, v.slots i f at.0), rw c refl)
    | inr c ↦ inr (wrote.full c, rw c refl)
  ]

  -- A write to a file in use returns the number `n` of bytes that it stored. Reading `m ≤ n` bytes
  -- then gives the first `m` bytes written. Either all bytes up to the largest size of a file are
  -- stored and the size says so, or no block of the disk is free and the size stays.
  pub fs_read-fs_write :
      (fs' : Filesystem) × (f' : FileEntry) × (n : ℕ) × (fs_write i bytes fs ≡ some (fs', n))
      × (n ≤ length bytes)
      × ((m : ℕ) → m ≤ n → fs_read i m fs' ≡ some (take m bytes))
      × IsFile fs'.file_table i f'
      × ((n ≡ min (length bytes) max_size) × (f'.size ≡ n) ⊎ IsFull fs' × (f'.size ≡ f.size))
  unfolding fs_read
  fs_read-fs_write = (
    after,
    entry_after f,
    loop.written,
    fs_write-after,
    wrote.count,
    λ m le. rw (entry-after, fs_read) (ap some (wrote.content m le)),
    (entry-after, at.1),
    size_or_full,
  )

  -- A write to one file leaves what is read from every other file in use.
  pub fs_read-fs_write_ne :
      (j : ℕ) (g : FileEntry)
      → i ≢ j
      → IsFile fs.file_table j g
      → (fs' : Filesystem) × (n : ℕ) × (fs_write i bytes fs ≡ some (fs', n))
        × ((m : ℕ) → fs_read j m fs' ≡ fs_read j m fs)
  unfolding fs_read
  fs_read-fs_write_ne j g ne file = (
    after,
    loop.written,
    fs_write-after,
    λ m.
        let there : get_elem? after.file_table j ≡ some g =
          get-modify_ne fs.file_table i j entry_after ne ∙ file.0 in
        rw (there, fs_read)
          (rw (file.0, fs_read)
            (ap some (
              read_blocks-ext g.blocks m loop.disk fs.disk
                (λ p has. wrote.frame p (not_ours (p / block_size) has))))),
  )
    where
      not_ours : (k : ℕ) → held k g.blocks ≡ true → held k loop.blocks ≡ false
      not_ours k has =
          let old : held k f.blocks ≡ false = held_apart fs i j f g k v at file ne has in
          let was : is_block_free k fs.block_bitmap ≡ false = (v.taken j g k file has).1 in
          ground (arith, wrote.gained k, old, was)

-- What `fs_create` does with a name that spells `t`, the names of the table having 32 bytes each: it
-- takes the first entry not in use, or gives -1 exactly when all are in use. That entry is then in
-- use, of size 0 and read as empty; its name has up to 31 bytes of `t`, then the bytes that stood
-- there, and 0 as the last. No other entry and no block changes.
pub fs_create_lem :
    (t name : List ℕ) (fs : Filesystem)
    → Spells t name
    → HasNames fs.file_table
    → ((fs_create name fs ≡ (fs, none))
        × ((j : ℕ) (g : FileEntry) → get_elem? fs.file_table j ≡ some g → g.used ≡ true))
      ⊎ ((i : ℕ) × (f g : FileEntry) × (fs' : Filesystem) × (fs_create name fs ≡ (fs', some i))
          × (get_elem? fs.file_table i ≡ some f)
          × (f.used ≡ false)
          × ((j : ℕ) (g : FileEntry) → j < i → get_elem? fs.file_table j ≡ some g → g.used ≡ true)
          × (get_elem? fs'.file_table i ≡ some g)
          × IsNew t f g
          × ((m : ℕ) → fs_read i m fs' ≡ some [])
          × ((j : ℕ) → i ≢ j → get_elem? fs'.file_table j ≡ get_elem? fs.file_table j)
          × (fs'.disk ≡ fs.disk)
          × (fs'.block_bitmap ≡ fs.block_bitmap))
unfolding fs_create fresh_entry fs_read
fs_create_lem t name fs spells names =
    elim (Option-cases (first_where (λ f. not f.used) fs.file_table 0)) [
      | inl full ↦ inl (
        rw (full, fs_create) refl,
        λ j g e. ground (arith, first_where-none (λ f. not f.used) fs.file_table 0 full j g e),
      )
      | inr (i, found) ↦
          let (m, same, ((f, here, unused), before)) =
            first_where-some (λ f. not f.used) fs.file_table 0 found in
          let e : m ≡ i = omega arith in
          inr (
            i,
            f,
            fresh_entry name f,
            record fs { file_table = modify fs.file_table i (fresh_entry name) },
            rw (found, fs_create) refl,
            rw e at here,
            ground arith,
            λ j g lt at. ground (arith, before j g (omega arith) at),
            get-modify_self fs.file_table i (fresh_entry name) (rw e at here),
            fresh_entry-IsNew t name f spells (names m f here),
            λ m.
                rw (get-modify_self fs.file_table i (fresh_entry name) (rw e at here), fs_read)
                  refl,
            λ j ne. get-modify_ne fs.file_table i j (fresh_entry name) ne,
            refl,
            refl,
          )
    ]

-- ===== src/Io/Kept.antt =====
-- `fs_create` and `fs_write` keep the shape of the table of files.
use mazuki_os.Base.{
  ℕ, zero, suc, ◌<◌, ◌≡◌, inl, inr, refl, ap, ◌∙◌, not, Option, some, List, [], ◌∷◌, arith, ==_ne,
  if◌then◌else◌, length, get_elem?, drop, modify, ℕ_discrete, Option-cases, get_elem?-lt,
  modify_cases, length-modify, first_where, first_where-some, lt-get_elem?,
}
use mazuki_os.Filesystem.{
  FileEntry, max_files, copy_name, fresh_entry, Filesystem, write_blocks, block_for, block_size,
  fs_create, fs_write,
}
use mazuki_os.Io.Entries.{IsEntry, AllEntries}

abbrev pub TableFits : List FileEntry → Type 0
TableFits fs = AllEntries fs × (length fs ≡ max_files)

copy_name_ends :
    (n : ℕ) (name old : List ℕ)
    → length old ≡ suc n
    → (length (copy_name n name old) ≡ suc n) × (get_elem? (copy_name n name old) n ≡ some 0)
unfolding copy_name
copy_name_ends zero name old e = (refl, refl)
copy_name_ends (suc n) name [] e = absurd (omega arith)
copy_name_ends (suc n) [] (o ∷ old) e =
    let (size, ends) = copy_name_ends n [] old (omega arith) in (ap suc size, ends)
copy_name_ends (suc n) (c ∷ name) (o ∷ old) e =
    let (size, ends) = copy_name_ends n name old (omega arith) in
    let (size', ends') = copy_name_ends n [] old (omega arith) in
    elim (ℕ_discrete c 0) [
      | yes z ↦ rw z (ap suc size', ends')
      | no ne ↦ rw (==_ne c 0 ne) (ap suc size, ends)
    ]

-- What `fs_create` puts into an entry.
pub fresh_entry-IsEntry : (name : List ℕ) (f : FileEntry) → IsEntry f → IsEntry (fresh_entry name f)
unfolding fresh_entry
fresh_entry-IsEntry name f v =
    let (size, ends) = copy_name_ends 31 name f.name v.name_size in
    record { name_size = size; ends = ends; slots = refl }

-- A change of one entry that keeps its shape.
pub AllEntries-modify :
    (fs : List FileEntry) (i : ℕ) (g : FileEntry → FileEntry)
    → ((f : FileEntry) → get_elem? fs i ≡ some f → IsEntry f → IsEntry (g f))
    → AllEntries fs
    → AllEntries (modify fs i g)
AllEntries-modify fs i g keeps all j y e = elim (modify_cases fs i j g e) [
  | inl (at, f, was, is) ↦ rw is (keeps f was (all i f was))
  | inr (ne, was) ↦ all j y was
]

-- Any number of bytes written leaves as many slots as there were.
length-write_blocks :
    (bs : List (Option ℕ)) (bytes : List ℕ) (disk : ℕ → ℕ) (bitmap : List ℕ)
    → length (write_blocks bs bytes disk bitmap).blocks ≡ length bs
unfolding write_blocks
length-write_blocks bs [] disk bitmap = refl
length-write_blocks [] (x ∷ xs) disk bitmap = refl
length-write_blocks (b ∷ bs) (x ∷ xs) disk bitmap = elim (Option-cases (block_for b bitmap)) [
  | inl full ↦ rw (write_blocks, full) refl
  | inr ((k, bitmap'), e) ↦
      rw (write_blocks, e) (ap suc (length-write_blocks bs (drop block_size (x ∷ xs)) _ bitmap'))
]

pub fs_create-TableFits :
    (name : List ℕ) (fs : Filesystem)
    → TableFits fs.file_table
    → TableFits (fs_create name fs).0.file_table
      × ((i : ℕ) → (fs_create name fs).1 ≡ some i → i < max_files)
unfolding fs_create
fs_create-TableFits name fs (all, size) =
    elim (Option-cases (first_where (λ f. not f.used) fs.file_table 0)) [
      | inl full ↦ rw (full, fs_create) ((all, size), λ i e. absurd (cc))
      | inr (i, found) ↦
          let (m, same, ((f, here, unused), before)) =
            first_where-some (λ f. not f.used) fs.file_table 0 found in
          rw (found, fs_create)
            (
              (
                AllEntries-modify fs.file_table i (fresh_entry name)
                    (λ g _ v. fresh_entry-IsEntry name g v) all,
                length-modify fs.file_table i (fresh_entry name) ∙ size,
              ),
              λ j e.
                  let is : i ≡ j = ground arith in
                  omega (arith, is, same, lt-get_elem? fs.file_table m here, size),
            )
    ]

pub fs_write-TableFits :
    (i : ℕ) (bytes : List ℕ) (fs : Filesystem)
    → i < max_files
    → TableFits fs.file_table
    → (fs' : Filesystem) × (w : ℕ) × (fs_write i bytes fs ≡ some (fs', w))
      × TableFits fs'.file_table
unfolding fs_write
fs_write-TableFits i bytes fs h (all, size) =
    let (f, at) = get_elem?-lt fs.file_table i (omega arith) in
    let w = write_blocks f.blocks bytes fs.disk fs.block_bitmap in
    let put = λ (g : FileEntry). record g {
      blocks = w.blocks;
      size = if w.complete then w.written else f.size;
    } in
    (
      record {
        disk = w.disk;
        block_bitmap = w.block_bitmap;
        file_table = modify fs.file_table i put;
      },
      w.written,
      rw (at, fs_write) refl,
      (
        AllEntries-modify fs.file_table i put
            (λ g here v. record {
              name_size = v.name_size;
              ends = v.ends;
              slots =
                  length-write_blocks f.blocks bytes fs.disk fs.block_bitmap ∙ (all i f at).slots;
            })
            all,
        length-modify fs.file_table i put ∙ size,
      ),
    )

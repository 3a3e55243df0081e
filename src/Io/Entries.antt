-- ===== src/Io/Entries.antt =====
-- The bytes of the file table: what stands in an entry, and where a zero is.
use mazuki_os.Base.{
  ℕ, zero, suc, ◌+◌, ◌*◌, ◌/◌, ◌%◌, ◌<◌, ◌≡◌, refl, ap, ◌∙◌, Bool, true, false, Option, some, List,
  [], ◌∷◌, ◌++◌, arith, if◌then◌else◌, length, get_elem?, ℕ_discrete, length-append, get_elem?-drop,
  get_elem?-lt,
}
use mazuki_os.Filesystem.{FileEntry, max_files, max_blocks_per_file}
use mazuki_os.Io.Ramfs.{word_bytes, block_words, entry_bytes, table_bytes, name_at}

-- An entry as `fs_create` and the zeroed table make it: a name of 32 bytes with a zero at its end.
pub record IsEntry (f : FileEntry) : Type 0 where
  pub name_size : length f.name ≡ 32
  pub ends : get_elem? f.name 31 ≡ some 0
  pub slots : length f.blocks ≡ max_blocks_per_file

get_elem?-append_left :
    (xs ys : List ℕ) (i : ℕ) → i < length xs → get_elem? (xs ++ ys) i ≡ get_elem? xs i
get_elem?-append_left [] ys i h = absurd (omega arith)
get_elem?-append_left (x ∷ xs) ys zero h = refl
get_elem?-append_left (x ∷ xs) ys (suc i) h = get_elem?-append_left xs ys i (omega arith)

get_elem?-append_right :
    (xs ys : List ℕ) (n i : ℕ) → length xs ≡ n → get_elem? (xs ++ ys) (n + i) ≡ get_elem? ys i
get_elem?-append_right [] ys n i h = ap (get_elem? ys) (omega arith)
get_elem?-append_right (x ∷ xs) ys zero i h = absurd (omega arith)
get_elem?-append_right (x ∷ xs) ys (suc n) i h =
    ap (get_elem? (x ∷ (xs ++ ys))) {x = suc n + i} {y = suc (n + i)} (omega arith)
    ∙ get_elem?-append_right xs ys n i (omega arith)

length-block_words : (bs : List (Option ℕ)) → length (block_words bs) ≡ 4 * length bs
unfolding block_words
length-block_words [] = omega arith
length-block_words (b ∷ bs) = omega (arith, length-block_words bs)

tail_of : FileEntry → List ℕ
tail_of f = word_bytes f.size ++ (block_words f.blocks ++ word_bytes (if f.used then 1 else 0))

length-entry_bytes : (f : FileEntry) → IsEntry f → length (entry_bytes f) ≡ 80
unfolding entry_bytes tail_of
length-entry_bytes f v =
    let back = word_bytes (if f.used then 1 else 0) in
    omega (
      arith,
      length-append f.name (tail_of f),
      length-append (block_words f.blocks) back,
      length-block_words f.blocks,
      v.name_size,
      v.slots,
    )

-- The zero in the name, and one in the word `used`.
name_zero : (f : FileEntry) → IsEntry f → get_elem? (entry_bytes f) 31 ≡ some 0
unfolding entry_bytes
name_zero f v = get_elem?-append_left f.name _ 31 (omega (arith, v.name_size)) ∙ v.ends

used_zero : (f : FileEntry) → IsEntry f → get_elem? (entry_bytes f) 77 ≡ some 0
unfolding entry_bytes
used_zero f v =
    get_elem?-append_right f.name _ 32 45 v.name_size
    ∙ get_elem?-append_right (block_words f.blocks) _ 40 1
        (omega (arith, length-block_words f.blocks, v.slots))
    ∙ byte f.used
  where
    byte : (b : Bool) → get_elem? (word_bytes (if b then 1 else 0)) 1 ≡ some 0
    byte true = refl
    byte false = refl

abbrev pub AllEntries : List FileEntry → Type 0
AllEntries fs = (i : ℕ) (f : FileEntry) → get_elem? fs i ≡ some f → IsEntry f

-- The bytes of an entry stand 80 apart.
table_at :
    (fs : List FileEntry) (k r : ℕ) (f : FileEntry)
    → AllEntries fs
    → get_elem? fs k ≡ some f
    → r < 80
    → get_elem? (table_bytes fs) (80 * k + r) ≡ get_elem? (entry_bytes f) r
unfolding table_bytes
table_at [] k r f all e h = absurd (cc)
table_at (g ∷ fs) zero r f all e h =
    let same : g ≡ f = ground arith in
    ap (get_elem? (entry_bytes g ++ table_bytes fs)) {x = 80 * 0 + r} {y = r} (omega arith)
    ∙ get_elem?-append_left (entry_bytes g) (table_bytes fs) r
        (omega (arith, length-entry_bytes g (all 0 g refl), h))
    ∙ ap (λ x. get_elem? (entry_bytes x) r) same
table_at (g ∷ fs) (suc k) r f all e h =
    ap (get_elem? (entry_bytes g ++ table_bytes fs)) {x = 80 * suc k + r} {y = 80 + (80 * k + r)}
      (omega arith)
    ∙ get_elem?-append_right (entry_bytes g) (table_bytes fs) 80 (80 * k + r)
        (length-entry_bytes g (all 0 g refl))
    ∙ table_at fs k r f (λ i x. all (suc i) x) e h

-- At most 37 bytes behind the start of each of the 64 entries of vfs.c stands a zero.
pub zero_near :
    (fs : List FileEntry) (i : ℕ)
    → AllEntries fs
    → length fs ≡ max_files
    → i < max_files
    → (d : ℕ) × (d < 38) × (get_elem? (name_at i (table_bytes fs)) d ≡ some 0)
zero_near fs i all size h =
    let (f, at) = get_elem?-lt fs (i / 2) (omega arith) in
    let v = all (i / 2) f at in
    elim (ℕ_discrete (i % 2) 0) [
      | yes even ↦ (
        31,
        omega arith,
        get_elem?-drop (i * 40) (table_bytes fs) 31
            ∙ ap (get_elem? (table_bytes fs)) (omega arith)
            ∙ table_at fs (i / 2) 31 f all at (omega arith)
            ∙ name_zero f v,
      )
      | no odd ↦ (
        37,
        omega arith,
        get_elem?-drop (i * 40) (table_bytes fs) 37
            ∙ ap (get_elem? (table_bytes fs)) (omega arith)
            ∙ table_at fs (i / 2) 77 f all at (omega arith)
            ∙ used_zero f v,
      )
    ]

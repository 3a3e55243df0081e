-- ===== src/Io/Table.antt =====
-- The table of files as vfs.c reads it: no string of it runs over its end.
use mazuki_os.Base.{
  ℕ, zero, suc, ◌+◌, ◌≤◌, ◌<◌, ◌≡◌, inl, inr, refl, false, not, ◌&&◌, Option, none, some, List, [],
  ◌∷◌, arith, ◌==◌, ==_ne, length, get_elem?, take, ℤ, pos, is_zero, ℕ_discrete, lt→ltb, Bool-cases,
}
use mazuki_os.Klibc.Memory.{strcmp, byte_diff}
use mazuki_os.Klibc.Text.{Spells}
use mazuki_os.Filesystem.{FileEntry, max_files}
use mazuki_os.Io.State.{VfsNode, same_string, node_bytes, vfs_file_flag, ramfs_read, ramfs_write}
use mazuki_os.Io.Ramfs.{table_bytes, string_at, find_file, file_node, name_at, is_used, size_at}
use mazuki_os.Io.Entries.{AllEntries, zero_near}

-- `strcmp` returns if one text has a zero somewhere and the other is a string.
strcmp_total :
    (a b t : List ℕ) (d : ℕ) → get_elem? a d ≡ some 0 → Spells t b → (r : ℤ) × (strcmp a b ≡ some r)
unfolding strcmp
strcmp_total [] b t d e v = absurd (cc)
strcmp_total (c ∷ a) [] t d e v = elim v [ ]
strcmp_total (c ∷ a) (x ∷ b) t zero e v = let z : c ≡ 0 = ground arith in (byte_diff c x, rw z refl)
strcmp_total (c ∷ a) (x ∷ b) [] (suc d) e v =
    let stop : (not (c == 0) && not (x == 0) && c == x) ≡ false = ground arith in
    (byte_diff c x, rw stop refl)
strcmp_total (c ∷ a) (x ∷ b) (y ∷ t) (suc d) e v =
    let (r, is) = strcmp_total a b t d e v.2 in
    elim (Bool-cases (not (c == 0) && not (x == 0) && c == x)) [
      | inr stop ↦ (byte_diff c x, rw stop refl)
      | inl more ↦ (r, rw (more, is) refl)
    ]

pub find_file_total :
    (n i : ℕ) (path t : List ℕ) (fs : List FileEntry)
    → AllEntries fs
    → length fs ≡ max_files
    → Spells t path
    → n + i ≡ max_files
    → (found : Option ℕ) × (find_file n i path (table_bytes fs) ≡ some found)
      × ((k : ℕ) → found ≡ some k → k < max_files)
unfolding find_file same_string
find_file_total zero i path t fs all size v e = (none, refl, λ k z. absurd (cc))
find_file_total (suc n) i path t fs all size v e =
    let (found, is, inside) = find_file_total n (i + 1) path t fs all size v (omega arith) in
    let (d, near, zero_at) = zero_near fs i all size (omega arith) in
    let (r, order) = strcmp_total (name_at i (table_bytes fs)) path t d zero_at v in
    elim (Bool-cases (is_used i (table_bytes fs))) [
      | inr free ↦ (found, rw (free, is) refl, inside)
      | inl used ↦ elim (Bool-cases (is_zero r)) [
        | inl same ↦ (some i, rw (used, order, same) refl, λ k z. ground arith)
        | inr other ↦ (found, rw (used, order, other, is) refl, inside)
      ]
    ]

string_at_total :
    (s : List ℕ) (d : ℕ)
    → get_elem? s d ≡ some 0
    → (t : List ℕ) × (string_at s ≡ some t) × (length t ≤ d)
unfolding string_at
string_at_total [] d e = absurd (cc)
string_at_total (c ∷ s) zero e = let is : c ≡ 0 = ground arith in ([], rw is refl, omega arith)
string_at_total (c ∷ s) (suc d) e =
    let (t, is, le) = string_at_total s d e in
    elim (ℕ_discrete c 0) [
      | yes z ↦ ([], rw z refl, omega arith)
      | no ne ↦ (c ∷ t, rw (==_ne c 0 ne, is) refl, omega (arith, le))
    ]

-- The node of an entry is made, and its fields are those of a file of the block file system.
pub file_node_total :
    (i : ℕ) (fs : List FileEntry)
    → AllEntries fs
    → length fs ≡ max_files
    → i < max_files
    → (n : VfsNode) × (file_node i (table_bytes fs) ≡ some n)
      × (n.internal_id ≡ pos i)
      × (n.read ≡ ramfs_read)
      × (n.write ≡ ramfs_write)
unfolding file_node
file_node_total i fs all size h =
    let (d, near, zero_at) = zero_near fs i all size h in
    let (t, is, le) = string_at_total (name_at i (table_bytes fs)) d zero_at in
    (
      record {
        name = take 32 t;
        flags = vfs_file_flag;
        size = size_at i (table_bytes fs);
        internal_id = pos i;
        read = ramfs_read;
        write = ramfs_write;
      },
      rw (is, lt→ltb (length t) node_bytes (omega arith)) refl,
      refl,
      refl,
      refl,
    )

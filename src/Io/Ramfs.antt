-- ===== src/Io/Ramfs.antt =====
-- The nodes of vfs.c on the block file system. vfs.c declares `FileEntry` itself, as 40 bytes: a
-- name, a size and `used`, where an entry of filesystem.c has 80, with ten block numbers in between.
-- `file_table[i]` of vfs.c is what stands 40 * i bytes behind the start of the table.
use mathlib.Core.Option
use mazuki_os.Base.{
  ℕ, zero, suc, ◌+◌, ◌*◌, ◌/◌, ◌%◌, Bool, not, Option, none, some, List, [], ◌∷◌, ◌++◌, ltb, ◌==◌,
  if◌then◌else◌, length, get_or, take, drop, ℤ, pos, negsuc,
}
use mazuki_os.Filesystem.{FileEntry, Filesystem, fs_read, fs_write}
use mazuki_os.Io.State.{
  VfsNode, Reading, vfs_file_flag, node_bytes, same_string, ◌>>=◌, ramfs_read, ramfs_write,
}

-- The four bytes of a word, the lowest first.
abbrev pub word_bytes : ℕ → List ℕ
word_bytes w = w % 256 ∷ w / 256 % 256 ∷ w / 65536 % 256 ∷ w / 16777216 % 256 ∷ []

-- A block number, -1 for none.
abbrev pub block_word : Option ℕ → ℕ
block_word none = 0xFFFF_FFFF
block_word (some k) = k

unfoldable pub block_words : List (Option ℕ) → List ℕ
block_words [] = []
block_words (b ∷ bs) = word_bytes (block_word b) ++ block_words bs

-- The 80 bytes of an entry.
unfoldable pub entry_bytes : FileEntry → List ℕ
entry_bytes f =
    f.name ++ (word_bytes f.size ++ (block_words f.blocks ++ word_bytes (if f.used then 1 else 0)))

unfoldable pub table_bytes : List FileEntry → List ℕ
table_bytes [] = []
table_bytes (f ∷ fs) = entry_bytes f ++ table_bytes fs

-- `sizeof(FileEntry)` of vfs.c, and where its fields `size` and `used` stand.
abbrev pub entry_stride : ℕ
entry_stride = 40

abbrev pub word_at : ℕ → List ℕ → ℕ
word_at i bytes =
    get_or bytes i 0
    + 256 * get_or bytes (i + 1) 0
    + 65536 * get_or bytes (i + 2) 0
    + 16777216 * get_or bytes (i + 3) 0

-- The fields of `file_table[i]`; the name goes on to the end of the table, as a string does.
abbrev pub name_at : ℕ → List ℕ → List ℕ
name_at i table = drop (i * entry_stride) table

abbrev pub size_at : ℕ → List ℕ → ℕ
size_at i table = word_at (i * entry_stride + 32) table

abbrev pub is_used : ℕ → List ℕ → Bool
is_used i table = not (word_at (i * entry_stride + 36) table == 0)

-- The loop over the 64 entries, with `n` of them left from `i` on; `some none` if there is none.
unfoldable pub find_file : ℕ → ℕ → List ℕ → List ℕ → Option (Option ℕ)
find_file zero i path table = some none
find_file (suc n) i path table =
    let rest = find_file n (i + 1) path table in
    if is_used i table
    then (same_string (name_at i table) path >>= λ same. if same then some (some i) else rest)
    else rest

-- The bytes before the first zero; a string that does not end in the table is a fault.
unfoldable pub string_at : List ℕ → Option (List ℕ)
string_at [] = none
string_at (c ∷ s) =
    let rest = Option.map (λ t. c ∷ t) (string_at s) in if c == 0 then some [] else rest

-- The end of `vfs_open`: the node of an entry. `strcpy` may write past the name, into fields that
-- the next lines set; past the node it would be a fault.
unfoldable pub file_node : ℕ → List ℕ → Option VfsNode
file_node file_idx table = string_at (name_at file_idx table) >>= λ text.
    if ltb (length text) node_bytes
    then some (record {
      name = take 32 text;
      flags = vfs_file_flag;
      size = size_at file_idx table;
      internal_id = pos file_idx;
      read = ramfs_read;
      write = ramfs_write;
    })
    else none

-- `fs_read(node->internal_id, …)`; an index below 0 is a fault.
unfoldable pub file_read : ℤ → ℕ → Filesystem → Option Reading
file_read (negsuc n) size fs = none
file_read (pos i) size fs = Option.map (λ bytes. (pos (length bytes), bytes)) (fs_read i size fs)

-- The file system, the result and the new size of the node.
unfoldable pub file_write : ℤ → List ℕ → Filesystem → Option (Filesystem × ℕ × ℕ)
file_write (negsuc n) bytes fs = none
file_write (pos i) bytes fs =
    Option.map (λ r. (r.0, r.1, size_at i (table_bytes r.0.file_table))) (fs_write i bytes fs)

-- ===== src/Filesystem.antt =====
-- sys/kernel/fs/filesystem.c: files of up to ten blocks on a disk of 2048 blocks, with a bitmap of
-- the blocks in use. A block number of -1 is `none`; the disk is a function from positions to
-- bytes, and an index outside the file table makes an operation return `none`.
pub mod Bitmap
pub mod Blocks
pub mod WriteBlocks
pub mod Invariant
pub mod Operations
pub mod History
pub mod Files
pub mod Names
mod Tests
use mathlib.Core.Option
use Prim.Native.Nat.{bit_and, bit_or}
use mazuki_os.Base.{
  ℕ, zero, suc, ◌+◌, ◌-◌, ◌*◌, ◌/◌, ◌%◌, ◌^◌, min, Bool, true, false, not, Option, none, some, List,
  [], ◌∷◌, ◌++◌, ltb, ◌==◌, if◌then◌else◌, length, get_elem?, get_or, modify, first_where, take,
  drop, replicate,
}

abbrev pub block_size : ℕ
block_size = 512

abbrev pub max_files : ℕ
max_files = 64

abbrev pub max_blocks_per_file : ℕ
max_blocks_per_file = 10

-- `DISK_SIZE / BLOCK_SIZE`
abbrev pub total_blocks : ℕ
total_blocks = 2048

unfoldable pub is_block_free : ℕ → List ℕ → Bool
is_block_free index bitmap = bit_and (get_or bitmap (index / 8) 0) (2 ^ (index % 8)) == 0

unfoldable pub set_block_used : ℕ → List ℕ → List ℕ
set_block_used index bitmap = modify bitmap (index / 8) (λ b. bit_or b (2 ^ (index % 8)))

-- `~` is taken on 32 bits.
unfoldable pub set_block_free : ℕ → List ℕ → List ℕ
set_block_free index bitmap =
    modify bitmap (index / 8) (λ b. bit_and b (2 ^ 32 - 1 - 2 ^ (index % 8)))

-- The loop of `allocate_block`, at block `i` with `n` blocks left.
unfoldable pub free_block : ℕ → ℕ → List ℕ → Option ℕ
free_block zero i bitmap = none
free_block (suc n) i bitmap =
    let rest = free_block n (i + 1) bitmap in if is_block_free i bitmap then some i else rest

unfoldable pub allocate_block : List ℕ → Option (ℕ × List ℕ)
unfolding free_block set_block_used
allocate_block bitmap =
    Option.map (λ i. (i, set_block_used i bitmap)) (free_block total_blocks 0 bitmap)

-- `FileEntry`
pub record FileEntry : Type 0 where
  pub name : List ℕ
  pub size : ℕ
  pub blocks : List (Option ℕ)
  pub used : Bool

pub record Filesystem : Type 0 where
  pub disk : ℕ → ℕ
  pub block_bitmap : List ℕ
  pub file_table : List FileEntry

-- The static arrays at power on: all bytes 0.
abbrev pub zeroed_entry : FileEntry
zeroed_entry = record {
  name = replicate 32 0;
  size = 0;
  blocks = replicate max_blocks_per_file (some 0);
  used = false;
}

unfoldable pub zeroed_filesystem : Filesystem
zeroed_filesystem = record {
  disk = λ p. 0;
  block_bitmap = replicate 256 0;
  file_table = replicate max_files zeroed_entry;
}

-- `for (k = 0; k < 31 && name[k]; k++)`: the bytes of the old name beyond the new one stay. The
-- argument `n` is the room left.
unfoldable pub copy_name : ℕ → List ℕ → List ℕ → List ℕ
copy_name zero name old = 0 ∷ []
copy_name (suc n) name [] = []
copy_name (suc n) [] (o ∷ old) = o ∷ copy_name n [] old
copy_name (suc n) (c ∷ name) (o ∷ old) =
    let copied = copy_name n name old in
    let kept = copy_name n [] old in if c == 0 then o ∷ kept else c ∷ copied

-- The entry that `fs_create` leaves.
unfoldable pub fresh_entry : List ℕ → FileEntry → FileEntry
unfolding copy_name
fresh_entry name f = record {
  name = copy_name 31 name f.name;
  size = 0;
  blocks = replicate max_blocks_per_file none;
  used = true;
}

unfoldable pub fs_create : List ℕ → Filesystem → Filesystem × Option ℕ
unfolding fresh_entry
fs_create name fs = elim (first_where (λ f. not f.used) fs.file_table 0) [
  | none ↦ (fs, none)
  | some i ↦ (record fs { file_table = modify fs.file_table i (fresh_entry name) }, some i)
]

-- The loop of `fs_delete`.
unfoldable pub free_blocks : List (Option ℕ) → List ℕ → List ℕ
unfolding set_block_free
free_blocks [] bitmap = bitmap
free_blocks (none ∷ bs) bitmap = free_blocks bs bitmap
free_blocks (some k ∷ bs) bitmap = free_blocks bs (set_block_free k bitmap)

unfoldable pub fs_delete : ℕ → Filesystem → Option Filesystem
unfolding free_blocks
fs_delete index fs = elim (get_elem? fs.file_table index) [
  | none ↦ none
  | some f ↦
      if f.used
      then some (record fs {
        block_bitmap = free_blocks f.blocks fs.block_bitmap;
        file_table = modify fs.file_table index (λ f. record f { used = false });
      })
      else some fs
]

-- `disk[at + j] = data[j]`, in the order of the loop.
unfoldable pub store : List ℕ → ℕ → (ℕ → ℕ) → ℕ → ℕ
store [] at disk = disk
store (x ∷ bytes) at disk = store bytes (at + 1) (λ p. if p == at then x else disk p)

-- What the loop of `fs_write` leaves: `complete` if it ran to its end.
pub record Written : Type 0 where
  pub blocks : List (Option ℕ)
  pub disk : ℕ → ℕ
  pub block_bitmap : List ℕ
  pub written : ℕ
  pub complete : Bool

-- The block of a slot, allocated if there is none.
unfoldable pub block_for : Option ℕ → List ℕ → Option (ℕ × List ℕ)
unfolding allocate_block
block_for (some k) bitmap = some (k, bitmap)
block_for none bitmap = allocate_block bitmap

-- The loop of `fs_write`, over the slots from `i` on and the bytes not yet written.
unfoldable pub write_blocks : List (Option ℕ) → List ℕ → (ℕ → ℕ) → List ℕ → Written
unfolding block_for store
write_blocks bs [] disk bitmap = record {
  blocks = bs;
  disk = disk;
  block_bitmap = bitmap;
  written = 0;
  complete = true;
}
write_blocks [] (x ∷ xs) disk bitmap = record {
  blocks = [];
  disk = disk;
  block_bitmap = bitmap;
  written = 0;
  complete = true;
}
write_blocks (b ∷ bs) (x ∷ xs) disk bitmap = elim (block_for b bitmap) [
  | none ↦ record {
    blocks = b ∷ bs;
    disk = disk;
    block_bitmap = bitmap;
    written = 0;
    complete = false;
  }
  | some (k, bitmap') ↦
      let here = take block_size (x ∷ xs) in
      let rest =
        write_blocks bs (drop block_size (x ∷ xs)) (store here (k * block_size) disk) bitmap' in
      record rest { blocks = some k ∷ rest.blocks; written = length here + rest.written }
]

unfoldable pub fs_write : ℕ → List ℕ → Filesystem → Option (Filesystem × ℕ)
unfolding write_blocks
fs_write index bytes fs = elim (get_elem? fs.file_table index) [
  | none ↦ none
  | some f ↦
      let w = write_blocks f.blocks bytes fs.disk fs.block_bitmap in
      let size = if w.complete then w.written else f.size in
      some (
        record {
          disk = w.disk;
          block_bitmap = w.block_bitmap;
          file_table =
              modify fs.file_table index (λ f. record f { blocks = w.blocks; size = size });
        },
        w.written,
      )
]

-- `buffer[j] = disk[at + j]` for `n` bytes.
unfoldable pub load : ℕ → ℕ → (ℕ → ℕ) → List ℕ
load zero at disk = []
load (suc n) at disk = disk at ∷ load n (at + 1) disk

-- The loop of `fs_read`, over the slots from `i` on and the bytes still wanted.
unfoldable pub read_blocks : List (Option ℕ) → ℕ → (ℕ → ℕ) → List ℕ
unfolding load
read_blocks [] size disk = []
read_blocks (none ∷ bs) size disk = []
read_blocks (some k ∷ bs) size disk =
    let here = min size block_size in
    let rest = read_blocks bs (size - here) disk in
    if size == 0 then [] else load here (k * block_size) disk ++ rest

unfoldable pub fs_read : ℕ → ℕ → Filesystem → Option (List ℕ)
unfolding read_blocks
fs_read index size fs =
    Option.map (λ f. read_blocks f.blocks size fs.disk) (get_elem? fs.file_table index)

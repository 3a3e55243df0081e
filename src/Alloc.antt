-- ===== src/Alloc.antt =====
-- sys/kernel/alloc.c: the kernel heap, a chain of blocks inside one array of `HEAP_SIZE` bytes.
-- The chain of `next` pointers from `free_list` is the list of blocks; a header keeps its offset
-- in the array, and a pointer that `alloc` returns is such an offset too, `none` for NULL.
pub mod Tiling
pub mod Usage
pub mod Apart
pub mod Reuse
mod Tests
use mathlib.Core.Option
use mazuki_os.Base.{
  ℕ, ◌+◌, ◌-◌, ◌*◌, ◌/◌, ◌%◌, ◌^◌, Bool, true, false, not, ◌&&◌, Option, none, some, List, [], ◌∷◌,
  ltb, leb, ◌==◌, if◌then◌else◌,
}

abbrev pub heap_size : ℕ
heap_size = 0x10000

-- `sizeof(block_header_t)`
abbrev pub header_size : ℕ
header_size = 12

-- `block_header_t`: the offset of the header, `size` and `is_free`.
pub record Block : Type 0 where
  pub offset : ℕ
  pub size : ℕ
  pub is_free : Bool

pub record Heap : Type 0 where
  pub free_list : List Block
  pub is_initialized : Bool

-- The zeroed array before the first call: one header of zeros at its start.
abbrev pub zeroed : Heap
zeroed = record {
  free_list = record { offset = 0; size = 0; is_free = false } ∷ [];
  is_initialized = false;
}

-- The first call marks the whole array as one free block.
unfoldable pub initialize : Heap → Heap
initialize h = if h.is_initialized then h else record {
  free_list = record { offset = 0; size = heap_size - header_size; is_free = true } ∷ [];
  is_initialized = true;
}

-- `(size + 3) & ~3` on 32 bits
unfoldable pub align4 : ℕ → ℕ
align4 size = (size + 3) % 2 ^ 32 / 4 * 4

-- The address that a block's payload starts at.
abbrev pub payload : Block → ℕ
payload b = b.offset + header_size

-- The sum on the right of the test for a split is taken on 32 bits.
abbrev pub splits : Block → ℕ → Bool
splits b size = ltb ((size + header_size + 4) % 2 ^ 32) b.size

abbrev pub fits : Block → ℕ → Bool
fits b size = b.is_free && leb size b.size

-- A fitting block becomes the taken one and, if it is much larger, a free rest.
unfoldable pub carve : Block → ℕ → List Block → List Block
carve b size bs =
    if splits b size
    then record b { size = size; is_free = false }
      ∷ record {
        offset = b.offset + header_size + size;
        size = b.size - size - header_size;
        is_free = true;
      }
      ∷ bs
    else record b { is_free = false } ∷ bs

-- The walk of `alloc` along the chain: the pointer returned, and the chain after it.
unfoldable pub first_fit : ℕ → List Block → Option ℕ × List Block
first_fit size [] = (none, [])
first_fit size (b ∷ bs) =
    let (p, bs') = first_fit size bs in
    if fits b size then (some (payload b), carve b size bs) else (p, b ∷ bs')

unfoldable pub alloc : ℕ → Heap → Option ℕ × Heap
alloc size h =
    let h' = initialize h in
    let (p, bs) = first_fit (align4 size) h'.free_list in (p, record h' { free_list = bs })

-- `header->is_free = 1`; `none` where no header stands before the pointer, so that the write
-- would hit other memory.
unfoldable pub mark_free : ℕ → List Block → Option (List Block)
mark_free p [] = none
mark_free p (b ∷ bs) =
    if payload b == p
    then some (record b { is_free = true } ∷ bs)
    else Option.map (λ bs'. b ∷ bs') (mark_free p bs)

-- The merging walk, at `curr` with the blocks after it.
unfoldable pub merge_from : Block → List Block → List Block
merge_from curr [] = curr ∷ []
merge_from curr (b ∷ bs) =
    let merged = merge_from (record curr { size = curr.size + (header_size + b.size) }) bs in
    let kept = merge_from b bs in if curr.is_free && b.is_free then merged else curr ∷ kept

unfoldable pub merge : List Block → List Block
merge [] = []
merge (b ∷ bs) = merge_from b bs

-- `alloc_free` of a pointer that is not NULL.
unfoldable pub alloc_free : ℕ → Heap → Option Heap
alloc_free p h = Option.map (λ bs. record h { free_list = merge bs }) (mark_free p h.free_list)

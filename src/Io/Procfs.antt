-- ===== src/Io/Procfs.antt =====
-- sys/kernel/fs/procfs.c: /proc/version and /proc/meminfo.
use mazuki_os.Base.{
  ℕ, Bool, ◌+◌, ◌-◌, ◌%◌, ◌^◌, Option, none, some, List, [], ◌∷◌, ◌++◌, ltb, leb, ◌==◌,
  if◌then◌else◌, length, take, drop, replicate, codes, ℤ, pos, neg, signed32,
}
use mazuki_os.Klibc.Memory.{strcpy, strcat}
use mazuki_os.Klibc.Number.{itoa}
use mazuki_os.Io.State.{
  VfsNode, Reading, vfs_file_flag, same_string, c_string, ◌>>=◌, procfs_version_read,
  procfs_meminfo_read, null,
}

-- `version_data` of src/include/version.h, with the zero at its end.
abbrev pub version_data : List ℕ
version_data = codes "Masix version 0.2.5_48 on MazukiOS 0.2.5" ++ 0 ∷ []

-- The end of both functions, on a text of `len` bytes: `offset + size` is taken on 32 bits, and a
-- copy that would leave the text is a fault.
unfoldable pub read_text : List ℕ → ℕ → ℕ → Option Reading
read_text text offset size =
    let len = length text in
    let count = if ltb len ((offset + size) % 2 ^ 32) then len - offset else size in
    if leb len offset
    then some (pos 0, [])
    else if leb (offset + count) len
    then some (signed32 count, take count (drop offset text))
    else none

abbrev pub version_read : ℕ → ℕ → Option Reading
version_read offset size = read_text version_data offset size

-- A number and a text behind what the buffer holds; `itoa` gives the number with its zero.
unfoldable pub append_number : ℕ → List ℕ → Option (List ℕ) → Option (List ℕ)
append_number n unit buffer = buffer >>= λ b. strcat b (itoa (pos n) 10) >>= λ c. strcat c unit

-- `mem_data`, 128 bytes, with the two numbers in the source.
unfoldable pub mem_data : Option (List ℕ)
mem_data = append_number 12543104 (codes " kB\n" ++ 0 ∷ []) (
    append_number 16384232 (codes " kB\nMemFree:        " ++ 0 ∷ [])
      (strcpy (replicate 128 0) (codes "MemTotal:       " ++ 0 ∷ [])))

-- The bytes before the first zero.
unfoldable pub text_of : List ℕ → List ℕ
text_of [] = []
text_of (c ∷ s) = let rest = text_of s in if c == 0 then [] else c ∷ rest

unfoldable pub meminfo_read : ℕ → ℕ → Option Reading
meminfo_read offset size = mem_data >>= λ buffer. read_text (text_of buffer) offset size

-- The result, and the node as it was filled; -2 for a name that is not known.
unfoldable pub procfs_node : Bool → Bool → VfsNode → ℤ × VfsNode
procfs_node version meminfo node =
    if version
    then (
      pos 0,
      record {
        name = codes "version";
        flags = vfs_file_flag;
        size = length version_data;
        internal_id = neg 1;
        read = procfs_version_read;
        write = null;
      },
    )
    else if meminfo
    then (
      pos 0,
      record {
        name = codes "meminfo";
        flags = vfs_file_flag;
        size = 128;
        internal_id = neg 2;
        read = procfs_meminfo_read;
        write = null;
      },
    )
    else (neg 2, node)

unfoldable pub procfs_open_file : List ℕ → VfsNode → Option (ℤ × VfsNode)
procfs_open_file subpath node = same_string subpath (c_string (codes "version")) >>= λ version.
    same_string subpath (c_string (codes "meminfo")) >>= λ meminfo.
    some (procfs_node version meminfo node)

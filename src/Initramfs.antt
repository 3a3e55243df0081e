-- ===== src/Initramfs.antt =====
-- sys/kernel/main.c: `parse_hex_ascii` and `unpack_initramfs`. An archive is the bytes of the module
-- that starts at an address; a read behind its end is a fault.
pub mod Hex
mod Tests
use mathlib.Core.Option
use mazuki_os.Base.{
  ℕ, zero, suc, ◌+◌, ◌-◌, ◌*◌, ◌/◌, ◌%◌, ◌^◌, Bool, true, false, ◌&&◌, ◌||◌, not, Option, none,
  some, List, [], ◌∷◌, ◌++◌, ltb, leb, ◌==◌, if◌then◌else◌, length, take, drop, set, replicate,
  codes, is_zero,
}
use mazuki_os.Klibc.Memory.{memcmp, strcmp, strncpy}
use mazuki_os.Filesystem.{Filesystem, fs_create, fs_write}
use mazuki_os.Io.State.{◌>>=◌, c_string, same_string}

-- The value of a hexadecimal digit.
unfoldable pub hex_value : ℕ → Option ℕ
hex_value c =
    if leb b'0' c && leb c b'9'
    then some (c - b'0')
    else if leb b'a' c && leb c b'f'
    then some (c - b'a' + 10)
    else if leb b'A' c && leb c b'F'
    then some (c - b'A' + 10)
    else none

-- The loop, with `len` characters left; it ends early at a character that is no digit.
unfoldable pub parse_hex : ℕ → List ℕ → ℕ → Option ℕ
parse_hex zero str result = some result
parse_hex (suc len) [] result = none
parse_hex (suc len) (c ∷ str) result = elim (hex_value c) [
  | none ↦ some result
  | some v ↦ parse_hex len str ((result * 16 + v) % 2 ^ 32)
]

unfoldable pub parse_hex_ascii : List ℕ → ℕ → Option ℕ
parse_hex_ascii str len = parse_hex len str 0

-- `sizeof(struct cpio_newc_header)`, and where two of its fields stand.
abbrev pub header_bytes : ℕ
header_bytes = 110

abbrev pub filesize_at : ℕ
filesize_at = 54

abbrev pub namesize_at : ℕ
namesize_at = 94

-- `(n + 3) & ~3`
abbrev pub word_aligned : ℕ → ℕ
word_aligned n = (n + 3) % 2 ^ 32 / 4 * 4

-- The files, `init_elf_start` and `init_elf_size`.
pub record Unpacked : Type 0 where
  pub files : Filesystem
  pub init_elf_start : ℕ
  pub init_elf_size : ℕ

-- `clean_path`: the name without `./`, at most 63 bytes of it.
unfoldable pub clean_path : List ℕ → Option (List ℕ)
clean_path filename = memcmp filename (codes "./") 2 >>= λ dot.
    strncpy (replicate 64 0) (if is_zero dot then drop 2 filename else filename) 63 >>= λ copied.
    some (set copied 63 0)

-- The entry for a file and its bytes; nothing is stored where no entry is free.
unfoldable pub register : List ℕ → ℕ → List ℕ → Filesystem → Option Filesystem
register path filesize rest files =
    let (created, made) = fs_create path files in
    elim made [
      | none ↦ some created
      | some idx ↦
          if leb filesize (length rest)
          then Option.map (λ w. w.0) (fs_write idx (take filesize rest) created)
          else none
    ]

-- `filesize > 0` and a name that is neither `.` nor `..`.
unfoldable pub store_file : List ℕ → ℕ → List ℕ → Filesystem → Option Filesystem
store_file filename filesize rest files = same_string filename (c_string (codes ".")) >>= λ here.
    same_string filename (c_string (codes "..")) >>= λ above.
    if filesize == 0 || here || above
    then some files
    else (clean_path filename >>= λ path. register path filesize rest files)

unfoldable pub note_init : List ℕ → ℕ → ℕ → Unpacked → Option Unpacked
note_init filename file_data filesize u =
    same_string filename (c_string (codes "./bin/init")) >>= λ dotted.
    same_string filename (c_string (codes "bin/init")) >>= λ plain. some (
      if dotted || plain
      then record u { init_elf_start = file_data; init_elf_size = filesize }
      else u)

-- What one header does: the state, and how far the pointer moves; `none` inside ends the loop.
unfoldable pub unpack_entry : ℕ → List ℕ → Unpacked → Option (Option (ℕ × Unpacked))
unpack_entry ptr rest u = memcmp rest (codes "070701") 6 >>= λ magic.
    if not (is_zero magic)
    then some none
    else (parse_hex_ascii (drop namesize_at rest) 8 >>= λ namesize.
        parse_hex_ascii (drop filesize_at rest) 8 >>= λ filesize.
        let filename = drop header_bytes rest in
        same_string filename (c_string (codes "TRAILER!!!")) >>= λ trailer.
        if trailer
        then some none
        else (let data_offset = word_aligned ((header_bytes + namesize) % 2 ^ 32) in
            store_file filename filesize (drop data_offset rest) u.files >>= λ files.
            note_init filename ((ptr + data_offset) % 2 ^ 32) filesize (record u { files = files })
            >>= λ u'. some (some ((data_offset + word_aligned filesize) % 2 ^ 32, u'))))

-- The loop, with fuel; a step that goes round the end of the addresses, to before the archive, is
-- left out of the model.
unfoldable pub unpack_initramfs : ℕ → ℕ → ℕ → List ℕ → Unpacked → Option Unpacked
unpack_initramfs zero start offset archive u = none
unpack_initramfs (suc fuel) start offset archive u =
    if leb (length archive) offset
    then some u
    else (unpack_entry (start + offset) (drop offset archive) u >>= λ stepped. elim stepped [
      | none ↦ some u
      | some (n, u') ↦
          if ltb (start + offset + n) (2 ^ 32)
          then unpack_initramfs fuel start (offset + n) archive u'
          else none
    ])

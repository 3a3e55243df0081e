-- ===== src/Io/Devtmpfs.antt =====
-- sys/kernel/fs/devtmpfs.c: null, zero, tty, console, full and random.
use mazuki_os.Base.{
  ℕ, Bool, zero, suc, ◌+◌, ◌*◌, ◌/◌, ◌%◌, ◌^◌, Option, some, List, [], ◌∷◌, if◌then◌else◌, length,
  replicate, codes, ℤ, pos, neg, signed32,
}
use mazuki_os.Tty.{Tty}
use mazuki_os.Tty.Sequence.{write_all}
use mazuki_os.Io.State.{
  ReadOp, WriteOp, VfsNode, Reading, vfs_file_flag, same_string, c_string, ◌>>=◌, dev_null_read,
  dev_zero_read, dev_full_read, dev_random_read, dev_null_write, dev_full_write, dev_tty_write,
}

abbrev pub dev_null : ℕ
dev_null = 0

abbrev pub dev_zero : ℕ
dev_zero = 1

abbrev pub dev_tty : ℕ
dev_tty = 2

abbrev pub dev_console : ℕ
dev_console = 3

abbrev pub dev_full : ℕ
dev_full = 4

abbrev pub dev_random : ℕ
dev_random = 5

abbrev pub null_read : ℕ → Reading
null_read size = (pos 0, [])

-- The result of a call that takes all `size` bytes.
abbrev pub null_write : List ℕ → ℤ
null_write buffer = signed32 (length buffer)

-- `/dev/full` reads the same way.
unfoldable pub zero_read : ℕ → Reading
zero_read size = (signed32 size, replicate size 0)

abbrev pub full_read : ℕ → Reading
full_read size = zero_read size

abbrev pub full_write : List ℕ → ℤ
full_write buffer = neg 28

-- `random_state * 1664525U + 1013904223U`
abbrev pub next_random : ℕ → ℕ
next_random r = (r * 1664525 + 1013904223) % 2 ^ 32

-- The loop of `dev_random_read`: the bytes and the state behind them.
unfoldable pub random_bytes : ℕ → ℕ → List ℕ × ℕ
random_bytes zero r = ([], r)
random_bytes (suc n) r =
    let r' = next_random r in
    let (bytes, last) = random_bytes n r' in (r' / 2 ^ 24 % 256 ∷ bytes, last)

unfoldable pub random_read : ℕ → ℕ → Reading × ℕ
random_read size r = let (bytes, last) = random_bytes size r in ((signed32 size, bytes), last)

unfoldable pub tty_write : List ℕ → Tty → ℤ × Tty
tty_write buffer t = (signed32 (length buffer), write_all buffer t)

-- A node as `devtmpfs_open` fills it.
abbrev device : List ℕ → ℕ → ReadOp → WriteOp → VfsNode
device name id read write = record {
  name = name;
  flags = vfs_file_flag;
  size = 0;
  internal_id = pos id;
  read = read;
  write = write;
}

-- The result, and the node; the fields set before the name is looked at stay set for a name that is
-- not known.
unfoldable pub devtmpfs_node : Bool → Bool → Bool → Bool → Bool → Bool → VfsNode → ℤ × VfsNode
devtmpfs_node is_null is_zero is_tty is_console is_full is_random node =
    if is_null
    then (pos 0, device (codes "null") dev_null dev_null_read dev_null_write)
    else if is_zero
    then (pos 0, device (codes "zero") dev_zero dev_zero_read dev_null_write)
    else if is_tty
    then (pos 0, device (codes "tty") dev_tty dev_null_read dev_tty_write)
    else if is_console
    then (pos 0, device (codes "console") dev_console dev_null_read dev_tty_write)
    else if is_full
    then (pos 0, device (codes "full") dev_full dev_full_read dev_full_write)
    else if is_random
    then (pos 0, device (codes "random") dev_random dev_random_read dev_null_write)
    else (
      neg 2,
      record node { flags = vfs_file_flag; size = 0; read = dev_null_read; write = dev_null_write },
    )

unfoldable pub devtmpfs_open : List ℕ → VfsNode → Option (ℤ × VfsNode)
devtmpfs_open subpath node = same_string subpath (c_string (codes "null")) >>= λ is_null.
    same_string subpath (c_string (codes "zero")) >>= λ is_zero.
    same_string subpath (c_string (codes "tty")) >>= λ is_tty.
    same_string subpath (c_string (codes "console")) >>= λ is_console.
    same_string subpath (c_string (codes "full")) >>= λ is_full.
    same_string subpath (c_string (codes "random")) >>= λ is_random.
    some (devtmpfs_node is_null is_zero is_tty is_console is_full is_random node)

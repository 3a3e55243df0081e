-- ===== src/Io/State.antt =====
-- The nodes of vfs.h and the state that the calls on files share.
use mathlib.Core.Option
use mazuki_os.Base.{
  ℕ, Bool, Option, none, some, List, [], ◌∷◌, ◌++◌, ◌==◌, if◌then◌else◌, ℤ, is_zero,
}
use mazuki_os.Klibc.Memory.{strcmp}
use mazuki_os.Vfs.State.{Vfs}
use mazuki_os.Filesystem.{Filesystem}
use mazuki_os.Tty.{Tty}

-- What the pointers `read` and `write` of a node point to.
pub data ReadOp : Type 0 where
  procfs_version_read procfs_meminfo_read dev_null_read dev_zero_read dev_full_read
        dev_random_read :
      ReadOp
  ramfs_read : ReadOp

pub data WriteOp : Type 0 where
  null dev_null_write dev_full_write dev_tty_write ramfs_write : WriteOp

-- `vfs_node_t`; `name` is the text before the zero.
pub record VfsNode : Type 0 where
  pub name : List ℕ
  pub flags : ℕ
  pub size : ℕ
  pub internal_id : ℤ
  pub read : ReadOp
  pub write : WriteOp

-- `sizeof(vfs_node_t)`
abbrev pub node_bytes : ℕ
node_bytes = 52

-- The tables of vfs.c, the node at each address of the kernel heap, the block file system, the
-- terminal and the state of the random generator.
pub record Kernel : Type 0 where
  pub vfs : Vfs
  pub nodes : ℕ → VfsNode
  pub files : Filesystem
  pub tty : Tty
  pub random_state : ℕ

abbrev pub set_node : ℕ → VfsNode → Kernel → Kernel
set_node a n k = record k { nodes = λ b. if b == a then n else k.nodes b }

-- What a read gives: the result and the bytes in the caller's buffer.
abbrev pub Reading : Type 0
Reading = ℤ × List ℕ

-- A call that may meet a fault.
infixl 5 ◌>>=◌
abbrev pub ◌>>=◌ {ℓ κ} : {A : Type ℓ} {B : Type κ} → Option A → (A → Option B) → Option B
none >>= f = none
some a >>= f = f a

-- `strcmp(a, b) == 0`
unfoldable pub same_string : List ℕ → List ℕ → Option Bool
same_string a b = Option.map is_zero (strcmp a b)

-- A text with the zero at its end.
abbrev pub c_string : List ℕ → List ℕ
c_string t = t ++ 0 ∷ []

-- `VFS_FILE`
abbrev pub vfs_file_flag : ℕ
vfs_file_flag = 1

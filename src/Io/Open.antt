-- ===== src/Io/Open.antt =====
-- `vfs_open`.
use mathlib.Core.Option
use mazuki_os.Base.{
  ℕ, Option, none, some, List, [], ◌∷◌, ◌==◌, if◌then◌else◌, drop, ℤ, pos, neg, is_zero,
}
use mazuki_os.Alloc.{alloc, alloc_free}
use mazuki_os.Klibc.Memory.{strlen, strncmp}
use mazuki_os.Filesystem.{max_files, fs_create}
use mazuki_os.Vfs.State.{
  FileType, Target, Driver, procfs, devtmpfs, Mountpoint, open_as, free_fd, set_file,
}
use mazuki_os.Io.State.{VfsNode, Kernel, set_node, node_bytes, c_string, ◌>>=◌}
use mazuki_os.Io.Procfs.{procfs_open_file}
use mazuki_os.Io.Devtmpfs.{devtmpfs_open}
use mazuki_os.Io.Ramfs.{find_file, file_node, table_bytes}

-- `mp->driver->open(subpath, node)`
abbrev pub driver_open : Driver → List ℕ → VfsNode → Option (ℤ × VfsNode)
driver_open procfs subpath node = procfs_open_file subpath node
driver_open devtmpfs subpath node = devtmpfs_open subpath node

-- The path behind a mount point: what follows a slash, or the end of the path.
abbrev pub behind_mount : List ℕ → Option (Option (List ℕ))
behind_mount [] = none
behind_mount (c ∷ rest) =
    some (if c == b'/' then some rest else if c == 0 then some (c ∷ rest) else none)

-- The test of a mount point, `some none` where the path is not below it.
unfoldable pub below_mount : List ℕ → Mountpoint → Option (Option (List ℕ))
below_mount path mp = strlen (c_string mp.path) >>= λ len.
    strncmp path (c_string mp.path) len >>= λ order.
    if is_zero order then behind_mount (drop len path) else some none

-- The loop over the mount points: the driver and the path that it gets.
unfoldable pub find_mount : List Mountpoint → List ℕ → Option (Option (Driver × List ℕ))
find_mount [] path = some none
find_mount (mp ∷ mps) path = below_mount path mp >>= λ found. elim found [
  | some subpath ↦ some (some (mp.driver, subpath))
  | none ↦ find_mount mps path
]

-- `fd_table[fd]` gets the node.
abbrev pub open_fd : ℕ → ℕ → Kernel → Kernel
open_fd fd node k = record k {
  vfs = set_file fd (λ _. open_as FileType.vfs_file (Target.node node)) k.vfs;
}

unfoldable pub free_node_at : ℕ → Kernel → Option Kernel
free_node_at node k =
    Option.map (λ h. record k { vfs = record k.vfs { heap = h } }) (alloc_free node k.vfs.heap)

-- A path below a mount point.
unfoldable pub open_driver : ℕ → ℕ → Driver → List ℕ → Kernel → Option (Kernel × ℤ)
open_driver fd node driver subpath k = driver_open driver subpath (k.nodes node) >>= λ opened.
    let k' = set_node node opened.1 k in
    if is_zero opened.0
    then some (open_fd fd node k', pos fd)
    else Option.map (λ k''. (k'', opened.0)) (free_node_at node k')

-- The node of an entry that was found or made.
unfoldable pub open_entry : ℕ → ℕ → ℕ → Kernel → Option (Kernel × ℤ)
open_entry fd node file_idx k =
    Option.map (λ n. (open_fd fd node (set_node node n k), pos fd))
      (file_node file_idx (table_bytes k.files.file_table))

-- A path with no entry yet.
unfoldable pub open_new : ℕ → ℕ → List ℕ → Kernel → Option (Kernel × ℤ)
open_new fd node path k =
    let k' = record k { files = (fs_create path k.files).0 } in
    elim (fs_create path k.files).1 [
      | some i ↦ open_entry fd node i k'
      | none ↦ Option.map (λ k''. (k'', neg 28)) (free_node_at node k')
    ]

-- Any other path: the entry of that name, or a new one.
unfoldable pub open_file : ℕ → ℕ → List ℕ → Kernel → Option (Kernel × ℤ)
open_file fd node path k = find_file max_files 0 path (table_bytes k.files.file_table) >>= λ found.
    elim found [ some i ↦ open_entry fd node i k | none ↦ open_new fd node path k ]

unfoldable pub vfs_open : List ℕ → Kernel → Option (Kernel × ℤ)
vfs_open path k = elim (free_fd k.vfs.fd_table) [
  | none ↦ some (k, neg 24)
  | some fd ↦
      let (p, heap) = alloc node_bytes k.vfs.heap in
      let k' = record k { vfs = record k.vfs { heap = heap } } in
      elim p [
        | none ↦ some (k', neg 12)
        | some node ↦ find_mount k.vfs.mount_list path >>= λ found. elim found [
          | some (driver, subpath) ↦ open_driver fd node driver subpath k'
          | none ↦ open_file fd node path k'
        ]
      ]
]

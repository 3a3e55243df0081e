-- ===== src/Io/Transfer.antt =====
-- `vfs_read` and `vfs_write`, which choose by the descriptor's type and the node's functions.
use mathlib.Core.Option
use mazuki_os.Base.{
  ℕ, zero, suc, ◌+◌, ◌%◌, ◌^◌, Option, none, some, List, [], length, ℤ, pos, negsuc, neg,
}
use mazuki_os.Vfs.State.{File, FileType, Target, lookup_fd, set_file, set_pipe}
use mazuki_os.Vfs.Pipe.{pipe_read, pipe_write}
use mazuki_os.Vfs.Close.{pipe_of}
use mazuki_os.Vfs.Calls.{vfs_socket_recv, vfs_socket_send}
use mazuki_os.Io.State.{
  ReadOp, WriteOp, VfsNode, Kernel, Reading, set_node, procfs_version_read, procfs_meminfo_read,
  dev_null_read, dev_zero_read, dev_full_read, dev_random_read, ramfs_read, null, dev_null_write,
  dev_full_write, dev_tty_write, ramfs_write,
}
use mazuki_os.Io.Procfs.{version_read, meminfo_read}
use mazuki_os.Io.Devtmpfs.{
  null_read, zero_read, full_read, random_read, null_write, full_write, tty_write,
}
use mazuki_os.Io.Ramfs.{file_read, file_write}

-- `node->read(node, offset, count, buf)`
unfoldable pub call_read : ReadOp → VfsNode → ℕ → ℕ → Kernel → Option (Kernel × Reading)
call_read procfs_version_read node offset count k =
    Option.map (λ r. (k, r)) (version_read offset count)
call_read procfs_meminfo_read node offset count k =
    Option.map (λ r. (k, r)) (meminfo_read offset count)
call_read dev_null_read node offset count k = some (k, null_read count)
call_read dev_zero_read node offset count k = some (k, zero_read count)
call_read dev_full_read node offset count k = some (k, full_read count)
call_read dev_random_read node offset count k =
    let (r, state) = random_read count k.random_state in some (record k { random_state = state }, r)
call_read ramfs_read node offset count k =
    Option.map (λ r. (k, r)) (file_read node.internal_id count k.files)

-- `node->write(node, offset, count, buf)` of the node at an address; a node with no such function is
-- refused.
unfoldable pub call_write : WriteOp → ℕ → VfsNode → List ℕ → Kernel → Option (Kernel × ℤ)
call_write null a node buffer k = some (k, neg 9)
call_write dev_null_write a node buffer k = some (k, null_write buffer)
call_write dev_full_write a node buffer k = some (k, full_write buffer)
call_write dev_tty_write a node buffer k =
    let (r, t) = tty_write buffer k.tty in some (record k { tty = t }, r)
call_write ramfs_write a node buffer k =
    Option.map (λ w. (set_node a (record node { size = w.2 }) (record k { files = w.0 }), pos w.1))
      (file_write node.internal_id buffer k.files)

-- `if (result > 0) fd_table[fd].offset += result;`
abbrev pub move_offset : ℕ → ℤ → Kernel → Kernel
move_offset fd (pos zero) k = k
move_offset fd (pos (suc n)) k = record k {
  vfs = set_file fd (λ f. record f { offset = (f.offset + suc n) % 2 ^ 32 }) k.vfs;
}
move_offset fd (negsuc e) k = k

-- A descriptor of a file; one with no node is refused.
unfoldable pub read_file : ℕ → File → ℕ → Kernel → Option (Kernel × Reading)
read_file fd f count k = elim f.private_data [
  | Target.null ↦ some (k, (neg 9, []))
  | Target.node a ↦
      Option.map (λ r. (move_offset fd r.1.0 r.0, r.1))
        (call_read (k.nodes a).read (k.nodes a) f.offset count k)
  | _ ↦ none
]

unfoldable pub write_file : ℕ → File → List ℕ → Kernel → Option (Kernel × ℤ)
write_file fd f buffer k = elim f.private_data [
  | Target.null ↦ some (k, neg 9)
  | Target.node a ↦
      Option.map (λ r. (move_offset fd r.1 r.0, r.1))
        (call_write (k.nodes a).write a (k.nodes a) buffer k)
  | _ ↦ none
]

unfoldable pub read_pipe : File → ℕ → Kernel → Option (Kernel × Reading)
read_pipe f count k =
    Option.map
      (λ e.
        let (bytes, p) = pipe_read count e.1 in
        (record k { vfs = set_pipe e.0 (λ _. p) k.vfs }, (pos (length bytes), bytes)))
      (pipe_of f k.vfs)

unfoldable pub write_pipe : File → List ℕ → Kernel → Option (Kernel × ℤ)
write_pipe f buffer k =
    Option.map
      (λ e.
        let (p, r) = pipe_write buffer e.1 in (record k { vfs = set_pipe e.0 (λ _. p) k.vfs }, r))
      (pipe_of f k.vfs)

unfoldable pub read_socket : ℤ → ℕ → Kernel → Option (Kernel × Reading)
read_socket fd count k =
    Option.map (λ r. (record k { vfs = r.0 }, (r.1.0, r.1.1.bytes)))
      (vfs_socket_recv fd count k.vfs)

unfoldable pub write_socket : ℤ → List ℕ → Kernel → Option (Kernel × ℤ)
write_socket fd buffer k =
    Option.map (λ r. (record k { vfs = r.0 }, r.1)) (vfs_socket_send fd buffer k.vfs)

-- By the type of an entry of the table.
unfoldable pub read_as : FileType → ℤ → ℕ → File → ℕ → Kernel → Option (Kernel × Reading)
read_as FileType.pipe_read fd n f count k = read_pipe f count k
read_as FileType.unix_socket fd n f count k = read_socket fd count k
read_as FileType.inet_socket fd n f count k = read_socket fd count k
read_as FileType.vfs_file fd n f count k = read_file n f count k
read_as _ fd n f count k = some (k, (neg 9, []))

unfoldable pub write_as : FileType → ℤ → ℕ → File → List ℕ → Kernel → Option (Kernel × ℤ)
write_as FileType.pipe_write fd n f buffer k = write_pipe f buffer k
write_as FileType.unix_socket fd n f buffer k = write_socket fd buffer k
write_as FileType.inet_socket fd n f buffer k = write_socket fd buffer k
write_as FileType.vfs_file fd n f buffer k = write_file n f buffer k
write_as _ fd n f buffer k = some (k, neg 9)

unfoldable pub vfs_read : ℤ → ℕ → Kernel → Option (Kernel × Reading)
vfs_read fd count k = elim (lookup_fd fd k.vfs) [
  | none ↦ some (k, (neg 9, []))
  | some (n, f) ↦ read_as f.type fd n f count k
]

unfoldable pub vfs_write : ℤ → List ℕ → Kernel → Option (Kernel × ℤ)
vfs_write fd buffer k = elim (lookup_fd fd k.vfs) [
  | none ↦ some (k, neg 9)
  | some (n, f) ↦ write_as f.type fd n f buffer k
]

-- ===== src/Vfs/Close.antt =====
-- `vfs_close`: what a descriptor of each type lets go of.
use mathlib.Core.Option
use mazuki_os.Base.{
  ℕ, ◌-◌, false, ◌&&◌, Option, none, some, ltb, ◌==◌, if◌then◌else◌, get_elem?, ℤ, pos, neg,
}
use mazuki_os.Alloc.{alloc_free}
use mazuki_os.Vfs.State.{
  Vfs, File, FileType, Target, Pipe, UnixSocket, Call, closed_file, unix_socket_count, lookup_fd,
  set_file, set_pipe, set_unix, set_inet,
}
use mazuki_os.Vfs.Inet.{inet_of}
use mazuki_os.Vfs.Unix.{unix_of}

-- `if (pipe->readers == 0 && pipe->writers == 0) pipe->used = 0;`
abbrev pub release_if_idle : Pipe → Pipe
release_if_idle p = record p {
  used = if (p.readers == 0) && (p.writers == 0) then false else p.used;
}

abbrev pub decrement : ℕ → ℕ
decrement n = if ltb 0 n then n - 1 else n

abbrev pub close_reader : Pipe → Pipe
close_reader p = release_if_idle (record p { readers = decrement p.readers })

abbrev pub close_writer : Pipe → Pipe
close_writer p = release_if_idle (record p { writers = decrement p.writers })

unfoldable pub pipe_of : File → Vfs → Option (ℕ × Pipe)
pipe_of f s = elim f.private_data [
  | Target.pipe j ↦ Option.map (λ x. (j, x)) (get_elem? s.pipes j)
  | _ ↦ none
]

unfoldable pub close_pipe : (Pipe → Pipe) → File → Vfs → Option Vfs
unfolding pipe_of
close_pipe f file s = Option.map (λ e. set_pipe e.0 f s) (pipe_of file s)

-- A peer that is set is marked as not connected, then the slot is given up.
unfoldable pub close_unix : ℕ → UnixSocket → Vfs → Vfs
close_unix j u s =
    set_unix j (λ x. record x { used = false })
      (if ltb u.peer unix_socket_count
        then set_unix u.peer (λ x. record x { connected = false }) s
        else s)

-- `if (private_data) free(private_data)`; none of the static tables is a block of the heap.
unfoldable pub free_node : File → Vfs → Option Vfs
free_node f s = elim f.private_data [
  | Target.null ↦ some s
  | Target.node a ↦ Option.map (λ h. record s { heap = h }) (alloc_free a s.heap)
  | _ ↦ none
]

-- The part of `vfs_close` that depends on the type.
unfoldable pub let_go : File → Vfs → Option Vfs
unfolding close_pipe close_unix free_node inet_of unix_of
let_go f s = elim f.type [
  | FileType.pipe_read ↦ close_pipe close_reader f s
  | FileType.pipe_write ↦ close_pipe close_writer f s
  | FileType.unix_socket ↦ Option.map (λ e. close_unix e.0 e.1 s) (unix_of f s)
  | FileType.inet_socket ↦
      Option.map (λ e. set_inet e.0 (λ d. record d { used = false }) s) (inet_of f s)
  | _ ↦ free_node f s
]

-- An open descriptor, whatever its type.
unfoldable pub close_file : ℕ → File → Vfs → Call
unfolding let_go set_file
close_file n f s = elim f.type [
  | FileType.empty ↦ some (s, neg 9)
  | _ ↦ Option.map (λ s'. (set_file n (λ _. closed_file) s', pos 0)) (let_go f s)
]

unfoldable pub vfs_close : ℤ → Vfs → Call
unfolding lookup_fd close_file
vfs_close fd s = elim (lookup_fd fd s) [ none ↦ some (s, neg 9) | some (n, f) ↦ close_file n f s ]

-- ===== src/Vfs/State.antt =====
-- The tables of vfs.c and vfs.h, and `allocate_fd`.
use mathlib.Core.Option
use mazuki_os.Base.{
  ℕ, Bool, true, false, Option, none, some, List, [], ◌∷◌, ltb, if◌then◌else◌, get_elem?, modify,
  replicate, take, drop, codes, first_where, ℤ, pos, negsuc, neg,
}
use mazuki_os.Ring.{Ring}
use mazuki_os.Alloc.{Heap, zeroed, alloc}

abbrev pub max_fd : ℕ
max_fd = 32

abbrev pub pipe_count : ℕ
pipe_count = 8

abbrev pub pipe_size : ℕ
pipe_size = 4096

abbrev pub unix_socket_count : ℕ
unix_socket_count = 8

abbrev pub unix_socket_queue : ℕ
unix_socket_queue = 4096

abbrev pub unix_socket_path : ℕ
unix_socket_path = 108

-- `UNIX_SOCKET_NONE`
abbrev pub unix_socket_none : ℕ
unix_socket_none = 0xFFFF_FFFF

abbrev pub inet_socket_count : ℕ
inet_socket_count = 8

abbrev pub inet_datagram_count : ℕ
inet_datagram_count = 8

abbrev pub inet_datagram_size : ℕ
inet_datagram_size = 512

-- `file_type_t`
pub data FileType : Type 0 where
  empty vfs_file device pipe_read pipe_write unix_socket inet_socket : FileType

-- What `private_data` points to: NULL, a `vfs_node_t` on the kernel heap, or an entry of one of
-- the three static tables.
pub data Target : Type 0 where
  null : Target
  node pipe unix inet : ℕ → Target

-- `file_t`
pub record File : Type 0 where
  pub type : FileType
  pub offset : ℕ
  pub private_data : Target

-- `pipe_t`
pub record Pipe : Type 0 where
  pub ring : Ring ℕ
  pub readers : ℕ
  pub writers : ℕ
  pub used : Bool

-- `unix_socket_t`. `path` holds the bytes before the terminating NUL.
pub record UnixSocket : Type 0 where
  pub ring : Ring ℕ
  pub peer : ℕ
  pub pending : ℕ
  pub used : Bool
  pub listening : Bool
  pub connected : Bool
  pub path : List ℕ

-- `inet_datagram_t`. `payload` holds the first `length` bytes of `data`.
pub record Datagram : Type 0 where
  pub payload : List ℕ
  pub source_address : ℕ
  pub source_port : ℕ

-- `inet_socket_t`. `head`, `tail` and `count` are those of the ring.
pub record InetSocket : Type 0 where
  pub ring : Ring Datagram
  pub address : ℕ
  pub port : ℕ
  pub peer_port : ℕ
  pub peer_address : ℕ
  pub used : Bool
  pub connected : Bool

-- The drivers that the kernel mounts: `procfs_driver` and `devtmpfs_driver`.
pub data Driver : Type 0 where
  procfs devtmpfs : Driver

-- `mountpoint_t`; the chain of `next` pointers is a list.
pub record Mountpoint : Type 0 where
  pub path : List ℕ
  pub driver : Driver

-- `sizeof(mountpoint_t)`
abbrev pub mountpoint_bytes : ℕ
mountpoint_bytes = 40

-- The static variables of vfs.c, with the kernel heap that nodes are freed to.
pub record Vfs : Type 0 where
  pub fd_table : List File
  pub mount_list : List Mountpoint
  pub pipes : List Pipe
  pub unix_sockets : List UnixSocket
  pub inet_sockets : List InetSocket
  pub heap : Heap

-- The tables and the result of a call, or a fault.
abbrev pub Call : Type 0
Call = Option (Vfs × ℤ)

abbrev pub closed_file : File
closed_file = record { type = empty; offset = 0; private_data = null }

abbrev pub is_empty : FileType → Bool
is_empty empty = true
is_empty _ = false

-- `if (fd < 0 || fd >= MAX_FD …)`, and the entry of the table.
unfoldable pub lookup_fd : ℤ → Vfs → Option (ℕ × File)
lookup_fd (negsuc n) s = none
lookup_fd (pos n) s =
    if ltb n max_fd then Option.map (λ f. (n, f)) (get_elem? s.fd_table n) else none

-- The first free descriptor from 3 on.
unfoldable pub free_fd : List File → Option ℕ
free_fd fds = first_where (λ f. is_empty f.type) (drop 3 fds) 3

unfoldable pub set_file : ℕ → (File → File) → Vfs → Vfs
set_file i f s = record s { fd_table = modify s.fd_table i f }

unfoldable pub set_pipe : ℕ → (Pipe → Pipe) → Vfs → Vfs
set_pipe j f s = record s { pipes = modify s.pipes j f }

unfoldable pub set_unix : ℕ → (UnixSocket → UnixSocket) → Vfs → Vfs
set_unix j f s = record s { unix_sockets = modify s.unix_sockets j f }

unfoldable pub set_inet : ℕ → (InetSocket → InetSocket) → Vfs → Vfs
set_inet j f s = record s { inet_sockets = modify s.inet_sockets j f }

-- To open a descriptor that `free_fd` found.
abbrev pub open_as : FileType → Target → File
open_as t p = record { type = t; offset = 0; private_data = p }

unfoldable pub allocate_fd : FileType → Target → Vfs → Vfs × ℤ
unfolding free_fd set_file
allocate_fd t p s = elim (free_fd s.fd_table) [
  | none ↦ (s, neg 24)
  | some i ↦ (set_file i (λ _. open_as t p) s, pos i)
]

-- The tables before `vfs_init`: all bytes 0.
abbrev pub zero_datagram : Datagram
zero_datagram = record { payload = []; source_address = 0; source_port = 0 }

abbrev pub zero_ring {ℓ} : {A : Type ℓ} → ℕ → A → Ring A
zero_ring n x = record { cells = replicate n x; read_pos = 0; write_pos = 0; count = 0 }

unfoldable pub zero_pipe : Pipe
zero_pipe = record { ring = zero_ring pipe_size 0; readers = 0; writers = 0; used = false }

unfoldable pub zero_unix_socket : UnixSocket
zero_unix_socket = record {
  ring = zero_ring unix_socket_queue 0;
  peer = 0;
  pending = 0;
  used = false;
  listening = false;
  connected = false;
  path = [];
}

unfoldable pub zero_inet_socket : InetSocket
zero_inet_socket = record {
  ring = zero_ring inet_datagram_count zero_datagram;
  address = 0;
  port = 0;
  peer_port = 0;
  peer_address = 0;
  used = false;
  connected = false;
}

-- `vfs_mount_core`: nothing is mounted if the heap has no room for a `mountpoint_t`.
unfoldable pub vfs_mount_core : List ℕ → Driver → Vfs → Vfs
vfs_mount_core path driver s =
    let (p, h) = alloc mountpoint_bytes s.heap in
    elim p [
      | none ↦ record s { heap = h }
      | some mp ↦ record s {
        heap = h;
        mount_list = record { path = take 32 path; driver = driver } ∷ s.mount_list;
      }
    ]

-- The static variables at power on.
unfoldable pub zeroed_vfs : Vfs
unfolding zero_pipe zero_unix_socket zero_inet_socket
zeroed_vfs = record {
  fd_table = replicate max_fd closed_file;
  mount_list = [];
  pipes = replicate pipe_count zero_pipe;
  unix_sockets = replicate unix_socket_count zero_unix_socket;
  inet_sockets = replicate inet_socket_count zero_inet_socket;
  heap = zeroed;
}

abbrev pub console : File
console = record closed_file { type = device }

-- Every descriptor is closed, 0 to 2 become the console, and the two drivers are mounted.
unfoldable pub vfs_init : Vfs → Vfs
unfolding vfs_mount_core
vfs_init s = vfs_mount_core (codes "/dev") devtmpfs (
    vfs_mount_core (codes "/proc") procfs
      (record s { fd_table = console ∷ console ∷ console ∷ replicate 29 closed_file }))

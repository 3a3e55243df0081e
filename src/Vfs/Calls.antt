-- ===== src/Vfs/Calls.antt =====
-- The socket calls of vfs.c and `vfs_close`, which choose by the type of the descriptor.
use mazuki_os.Base.{
  ℕ, true, false, not, ◌&&◌, Option, none, some, List, ◌==◌, if◌then◌else◌, length, first_where, ℤ,
  pos, negsuc, neg,
}
use mazuki_os.Vfs.State.{
  Vfs, File, FileType, Target, UnixSocket, InetSocket, Call, unix_socket_none, lookup_fd,
  allocate_fd, set_unix, set_inet,
}
use mazuki_os.Vfs.Inet.{
  inet_of, inet_bind, inet_connect, inet_send, inet_sendto, inet_recvfrom, Received,
  nothing_received,
}
use mazuki_os.Vfs.Unix.{
  unix_of, unix_bind, unix_listen, unix_connect, unix_accept, unix_send, unix_recv,
}

abbrev pub fresh_inet : InetSocket → InetSocket
fresh_inet d = record d {
  ring = record d.ring { count = 0 };
  used = true;
  connected = false;
  address = 0;
  port = 0;
}

abbrev pub fresh_unix : UnixSocket → UnixSocket
fresh_unix u = record u {
  used = true;
  listening = false;
  connected = false;
  peer = unix_socket_none;
  pending = unix_socket_none;
}

unfoldable pub inet_socket : Vfs → Vfs × ℤ
inet_socket s = elim (first_where (λ d. not d.used) s.inet_sockets 0) [
  | none ↦ (s, neg 24)
  | some i ↦
      let (s', fd) = allocate_fd FileType.inet_socket (Target.inet i) (set_inet i fresh_inet s) in
      elim fd [
        | pos n ↦ (s', pos n)
        | negsuc e ↦ (set_inet i (λ d. record d { used = false }) s', negsuc e)
      ]
]

unfoldable pub unix_socket : Vfs → Vfs × ℤ
unix_socket s = elim (first_where (λ u. not u.used) s.unix_sockets 0) [
  | none ↦ (s, neg 24)
  | some i ↦
      let (s', fd) = allocate_fd FileType.unix_socket (Target.unix i) (set_unix i fresh_unix s) in
      elim fd [
        | pos n ↦ (s', pos n)
        | negsuc e ↦ (set_unix i (λ u. record u { used = false }) s', negsuc e)
      ]
]

unfoldable pub vfs_socket : ℕ → ℕ → ℕ → Vfs → Vfs × ℤ
unfolding inet_socket unix_socket
vfs_socket domain type protocol s =
    if (domain == 2) && (type == 2) && (protocol == 0)
    then inet_socket s
    else if (domain == 1) && (type == 1) && (protocol == 0)
    then unix_socket s
    else (s, neg 38)

-- Run the part for the descriptor's type; any other descriptor is refused with -9.
module _ {A : Type 0} (refused : A) where
  unfoldable pub on_type :
      (ℕ → ℕ → InetSocket → Vfs → Option (Vfs × A))
      → (ℕ → ℕ → UnixSocket → Vfs → Option (Vfs × A))
      → ℕ
      → File
      → Vfs
      → Option (Vfs × A)
  on_type inet unix fd f s = elim f.type [
    | FileType.inet_socket ↦ elim (inet_of f s) [ none ↦ none | some (j, x) ↦ inet fd j x s ]
    | FileType.unix_socket ↦ elim (unix_of f s) [ none ↦ none | some (j, x) ↦ unix fd j x s ]
    | _ ↦ some (s, refused)
  ]

  unfoldable pub on_socket :
      (ℕ → ℕ → InetSocket → Vfs → Option (Vfs × A))
      → (ℕ → ℕ → UnixSocket → Vfs → Option (Vfs × A))
      → ℤ
      → Vfs
      → Option (Vfs × A)
  unfolding on_type lookup_fd
  on_socket inet unix fd s = elim (lookup_fd fd s) [
    | none ↦ some (s, refused)
    | some (n, f) ↦ on_type inet unix n f s
  ]

unfoldable pub vfs_socket_bind : ℤ → Option (List ℕ) → ℕ → Vfs → Call
unfolding on_socket
vfs_socket_bind fd address address_length =
    on_socket (neg 9) (λ n j x s. some (inet_bind j address address_length s))
      (λ n j x s. some (unix_bind j address address_length s)) fd

unfoldable pub vfs_socket_listen : ℤ → Vfs → Call
unfolding on_socket
vfs_socket_listen fd =
    on_socket (neg 9) (λ n j x s. some (s, neg 9)) (λ n j x s. some (unix_listen j x s)) fd

unfoldable pub vfs_socket_connect : ℤ → Option (List ℕ) → ℕ → Vfs → Call
unfolding on_socket
vfs_socket_connect fd address address_length =
    on_socket (neg 9) (λ n j x s. some (inet_connect n j address address_length s))
      (λ n j x s. some (unix_connect n j address address_length s)) fd

unfoldable pub vfs_socket_accept : ℤ → Vfs → Call
unfolding on_socket
vfs_socket_accept fd =
    on_socket (neg 9) (λ n j x s. some (s, neg 9)) (λ n j x s. unix_accept j x s) fd

-- The datagram branch of `vfs_socket_send`.
unfoldable pub inet_send_peer : InetSocket → List ℕ → Vfs → Vfs × ℤ
inet_send_peer x buffer s =
    if x.connected then inet_send x buffer x.peer_address x.peer_port s else (s, neg 107)

unfoldable pub vfs_socket_send : ℤ → List ℕ → Vfs → Call
unfolding on_socket inet_send_peer
vfs_socket_send fd buffer =
    on_socket (neg 9) (λ n j x s. some (inet_send_peer x buffer s))
      (λ n j x s. some (unix_send x buffer s)) fd

unfoldable pub vfs_socket_sendto : ℤ → List ℕ → Option (List ℕ) → ℕ → Vfs → Call
unfolding on_socket
vfs_socket_sendto fd buffer address address_length =
    on_socket (neg 9) (λ n j x s. some (inet_sendto n j x buffer address address_length s))
      (λ n j x s. some (s, neg 9)) fd

-- What a receiving call hands out: its result, and what it wrote for the caller.
abbrev pub Reading : Type 0
Reading = ℤ × Received

unfoldable pub vfs_socket_recvfrom : ℤ → ℕ → Option ℕ → Vfs → Option (Vfs × Reading)
unfolding on_socket
vfs_socket_recvfrom fd size room =
    on_socket (neg 9, nothing_received)
      (λ n j x s. let (s', r, got) = inet_recvfrom j x size room s in some (s', (r, got)))
      (λ n j x s. some (s, (neg 9, nothing_received))) fd

unfoldable pub vfs_socket_recv : ℤ → ℕ → Vfs → Option (Vfs × Reading)
unfolding on_socket
vfs_socket_recv fd size =
    on_socket (neg 9, nothing_received)
      (λ n j x s. let (s', r, got) = inet_recvfrom j x size none s in some (s', (r, got)))
      (λ n j x s.
        let (s', bytes) = unix_recv j x size s in
        some (s', (pos (length bytes), record { bytes = bytes; source = none })))
      fd

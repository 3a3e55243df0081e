-- ===== src/Vfs/Ownership/OnSocket.antt =====
-- The calls on an open socket meet no fault and keep the invariant.
use mazuki_os.Base.{
  ℕ, ◌≡◌, refl, true, List, some, none, Option, Option-cases, Bool-cases, arith, ltb, ltb→lt, ◌==◌,
  length, get_elem?, inl, inr, ◌⊎◌, first_where, get_elem?-lt, ℤ, pos, negsuc, Result-cases,
}
use mazuki_os.Vfs.State.{
  Vfs, File, FileType, Target, UnixSocket, InetSocket, max_fd, unix_socket_count, inet_socket_count,
  inet_datagram_count, inet_datagram_size, set_inet, lookup_fd,
}
use mazuki_os.Vfs.Inet.{
  inet_of, inet_bind, inet_connect, inet_send, inet_sendto, inet_recvfrom, inet_address, deliver,
  receives, with_port,
}
use mazuki_os.Vfs.Unix.{
  unix_of, unix_bind, unix_listen, unix_connect, unix_send, unix_recv, socket_address, serves,
  socket_queue_write, socket_queue_read,
}
use mazuki_os.Vfs.Calls.{on_type, on_socket, inet_send_peer}
use mazuki_os.Vfs.Ownership.Refs.{IsSound}
use mazuki_os.Vfs.Ownership.Sockets.{set_unix-IsSound, set_inet-IsSound}

-- A call that returns, in a state that keeps the invariant.
abbrev pub IsSafe : {A : Type 0} → Option (Vfs × A) → Type 0
IsSafe {A} r = (s' : Vfs) × (a : A) × (r ≡ some (s', a)) × IsSound s'

-- A descriptor of type `FT_UNIX_SOCKET` leads to a stream socket, and so for datagrams.
pub unix_of_total :
    (s : Vfs) (n : ℕ) (f : File)
    → IsSound s
    → get_elem? s.fd_table n ≡ some f
    → f.type ≡ FileType.unix_socket
    → (j : ℕ) × (u : UnixSocket) × (unix_of f s ≡ some (j, u))
      × (f.private_data ≡ Target.unix j)
      × (get_elem? s.unix_sockets j ≡ some u)
unfolding unix_of
unix_of_total s n f v at is = target f.private_data refl
  where
    target :
        (t : Target)
        → f.private_data ≡ t
        → (j : ℕ) × (u : UnixSocket) × (unix_of f s ≡ some (j, u))
          × (f.private_data ≡ Target.unix j)
          × (get_elem? s.unix_sockets j ≡ some u)
    target (Target.unix j) e =
        let fit : ltb j unix_socket_count ≡ true = ground (arith, v.fit n f at) in
        let (u, here) =
          get_elem?-lt s.unix_sockets j (omega (arith, ltb→lt _ _ fit, v.unix_size)) in
        (j, u, ground arith, e, here)
    target Target.null e = absurd (ground (arith, v.fit n f at))
    target (Target.node a) e = absurd (ground (arith, v.fit n f at))
    target (Target.pipe j) e = absurd (ground (arith, v.fit n f at))
    target (Target.inet j) e = absurd (ground (arith, v.fit n f at))

pub inet_of_total :
    (s : Vfs) (n : ℕ) (f : File)
    → IsSound s
    → get_elem? s.fd_table n ≡ some f
    → f.type ≡ FileType.inet_socket
    → (j : ℕ) × (d : InetSocket) × (inet_of f s ≡ some (j, d))
      × (f.private_data ≡ Target.inet j)
      × (get_elem? s.inet_sockets j ≡ some d)
unfolding inet_of
inet_of_total s n f v at is = target f.private_data refl
  where
    target :
        (t : Target)
        → f.private_data ≡ t
        → (j : ℕ) × (d : InetSocket) × (inet_of f s ≡ some (j, d))
          × (f.private_data ≡ Target.inet j)
          × (get_elem? s.inet_sockets j ≡ some d)
    target (Target.inet j) e =
        let fit : ltb j inet_socket_count ≡ true = ground (arith, v.fit n f at) in
        let (d, here) =
          get_elem?-lt s.inet_sockets j (omega (arith, ltb→lt _ _ fit, v.inet_size)) in
        (j, d, ground arith, e, here)
    target Target.null e = absurd (ground (arith, v.fit n f at))
    target (Target.node a) e = absurd (ground (arith, v.fit n f at))
    target (Target.pipe j) e = absurd (ground (arith, v.fit n f at))
    target (Target.unix j) e = absurd (ground (arith, v.fit n f at))

pub lookup_fd_cases :
    (fd : ℤ) (s : Vfs)
    → (lookup_fd fd s ≡ none)
      ⊎ ((n : ℕ) × (f : File) × (lookup_fd fd s ≡ some (n, f)) × (get_elem? s.fd_table n ≡ some f))
unfolding lookup_fd
lookup_fd_cases (negsuc k) s = inl refl
lookup_fd_cases (pos n) s = elim (Bool-cases (ltb n max_fd)) [
  | inr out ↦ inl (rw out)
  | inl within ↦ elim (Option-cases (get_elem? s.fd_table n)) [
    | inl gone ↦ inl (rw (within, gone))
    | inr (f, at) ↦ inr (n, f, rw (within, at), at)
  ]
]

module _ {A : Type 0} (refused : A) (inet : ℕ → ℕ → InetSocket → Vfs → Option (Vfs × A))
    (unix : ℕ → ℕ → UnixSocket → Vfs → Option (Vfs × A)) (s : Vfs) (v : IsSound s)
    (inet_safe : (n j : ℕ) (d : InetSocket) → IsSafe (inet n j d s))
    (unix_safe : (n j : ℕ) (u : UnixSocket) → IsSafe (unix n j u s)) where
  on_type-IsSafe :
      (n : ℕ) (f : File) (t : FileType)
      → get_elem? s.fd_table n ≡ some f
      → f.type ≡ t
      → IsSafe (on_type refused inet unix n f s)
  unfolding on_type
  on_type-IsSafe n f FileType.inet_socket at is =
      let (j, d, e, _, _) = inet_of_total s n f v at is in rw (is, on_type, e) (inet_safe n j d)
  on_type-IsSafe n f FileType.unix_socket at is =
      let (j, u, e, _, _) = unix_of_total s n f v at is in rw (is, on_type, e) (unix_safe n j u)
  on_type-IsSafe n f FileType.empty at is = rw (is, on_type) (s, refused, refl, v)
  on_type-IsSafe n f FileType.vfs_file at is = rw (is, on_type) (s, refused, refl, v)
  on_type-IsSafe n f FileType.device at is = rw (is, on_type) (s, refused, refl, v)
  on_type-IsSafe n f FileType.pipe_read at is = rw (is, on_type) (s, refused, refl, v)
  on_type-IsSafe n f FileType.pipe_write at is = rw (is, on_type) (s, refused, refl, v)

  -- A call that chooses by the descriptor's type is safe if its two parts are.
  pub on_socket-IsSafe : (fd : ℤ) → IsSafe (on_socket refused inet unix fd s)
  unfolding on_socket
  on_socket-IsSafe fd = elim (lookup_fd_cases fd s) [
    | inl e ↦ rw (e, on_socket) (s, refused, refl, v)
    | inr (n, f, e, at) ↦ rw (e, on_socket) (on_type-IsSafe n f f.type at refl)
  ]

pub inet_bind-IsSound :
    (j : ℕ) (a : Option (List ℕ)) (l : ℕ) (s : Vfs) → IsSound s → IsSound (inet_bind j a l s).0
unfolding inet_bind
inet_bind-IsSound j a l s v = elim (Result-cases (inet_address a l)) [
  | inr (e, is) ↦ rw (is, inet_bind) v
  | inl (to, is) ↦
      rw (is, inet_bind)
        (ground (
          arith,
          set_inet-IsSound j (λ d. record d { address = to.ip; port = to.port }) s (λ d. refl) v,
        ))
]

used-with_port : (fd : ℕ) (d : InetSocket) → (with_port fd d).used ≡ d.used
unfolding with_port
used-with_port fd d = ground arith

pub inet_connect-IsSound :
    (fd j : ℕ) (a : Option (List ℕ)) (l : ℕ) (s : Vfs)
    → IsSound s
    → IsSound (inet_connect fd j a l s).0
unfolding inet_connect
inet_connect-IsSound fd j a l s v = elim (Result-cases (inet_address a l)) [
  | inr (e, is) ↦ rw (is, inet_connect) v
  | inl (to, is) ↦ rw (is, inet_connect) (set_inet-IsSound j _ s (used-with_port fd) v)
]

deliver-IsSound :
    (d : InetSocket) (buffer : List ℕ) (i : ℕ) (x : InetSocket) (s : Vfs)
    → IsSound s
    → IsSound (deliver d buffer i x s).0
unfolding deliver
deliver-IsSound d buffer i x s v = elim (Bool-cases (x.ring.count == inet_datagram_count)) [
  | inl full ↦ rw full v
  | inr room ↦ rw room (set_inet-IsSound i _ s (λ d. refl) v)
]

inet_send-IsSound :
    (d : InetSocket) (buffer : List ℕ) (address port : ℕ) (s : Vfs)
    → IsSound s
    → IsSound (inet_send d buffer address port s).0
unfolding inet_send
inet_send-IsSound d buffer address port s v =
    elim (Bool-cases (ltb inet_datagram_size (length buffer))) [
      | inl long ↦ rw long v
      | inr short ↦ elim (Option-cases (first_where (receives address port) s.inet_sockets 0)) [
        | inl none_there ↦ rw (short, none_there, inet_send) v
        | inr (i, found) ↦ elim (Option-cases (get_elem? s.inet_sockets i)) [
          | inl gone ↦ rw (short, found, inet_send) (rw (gone, inet_send) v)
          | inr (x, at) ↦
              rw (short, found, inet_send) (rw (at, inet_send) (deliver-IsSound d buffer i x s v))
        ]
      ]
    ]

pub inet_send_peer-IsSound :
    (x : InetSocket) (buffer : List ℕ) (s : Vfs) → IsSound s → IsSound (inet_send_peer x buffer s).0
unfolding inet_send_peer
inet_send_peer-IsSound x buffer s v =
    ground (arith, inet_send-IsSound x buffer x.peer_address x.peer_port s v)

pub inet_sendto-IsSound :
    (fd j : ℕ) (x : InetSocket) (buffer : List ℕ) (a : Option (List ℕ)) (l : ℕ) (s : Vfs)
    → IsSound s
    → IsSound (inet_sendto fd j x buffer a l s).0
unfolding inet_sendto
inet_sendto-IsSound fd j x buffer a l s v = elim (Result-cases (inet_address a l)) [
  | inr (e, is) ↦ rw (is, inet_sendto) v
  | inl (to, is) ↦
      rw (is, inet_sendto)
        (inet_send-IsSound (with_port fd x) buffer to.ip to.port (set_inet j (with_port fd) s)
          (set_inet-IsSound j (with_port fd) s (used-with_port fd) v))
]

pub inet_recvfrom-IsSound :
    (j : ℕ) (x : InetSocket) (size : ℕ) (room : Option ℕ) (s : Vfs)
    → IsSound s
    → IsSound (inet_recvfrom j x size room s).0
unfolding inet_recvfrom
inet_recvfrom-IsSound j x size room s v = elim (Bool-cases (x.ring.count == 0)) [
  | inl nothing ↦ rw nothing v
  | inr some_left ↦ rw some_left (set_inet-IsSound j _ s (λ d. refl) v)
]

pub unix_bind-IsSound :
    (j : ℕ) (a : Option (List ℕ)) (l : ℕ) (s : Vfs) → IsSound s → IsSound (unix_bind j a l s).0
unfolding unix_bind
unix_bind-IsSound j a l s v = elim (Result-cases (socket_address a l)) [
  | inr (e, is) ↦ rw (is, unix_bind) v
  | inl (path, is) ↦
      rw (is, unix_bind)
        (ground (arith, set_unix-IsSound j (λ u. record u { path = path }) s (λ u. refl) v))
]

pub unix_listen-IsSound :
    (j : ℕ) (x : UnixSocket) (s : Vfs) → IsSound s → IsSound (unix_listen j x s).0
unfolding unix_listen
unix_listen-IsSound j x s v =
    ground (arith, set_unix-IsSound j (λ u. record u { listening = true }) s (λ u. refl) v)

pub unix_connect-IsSound :
    (fd j : ℕ) (a : Option (List ℕ)) (l : ℕ) (s : Vfs)
    → IsSound s
    → IsSound (unix_connect fd j a l s).0
unfolding unix_connect
unix_connect-IsSound fd j a l s v = elim (Result-cases (socket_address a l)) [
  | inr (e, is) ↦ rw (is, unix_connect) v
  | inl (path, is) ↦ elim (Option-cases (first_where (serves path) s.unix_sockets 0)) [
    | inl nobody ↦ rw (is, unix_connect) (rw (nobody, unix_connect) v)
    | inr (i, found) ↦
        rw (is, unix_connect)
          (rw (found, unix_connect)
            (set_unix-IsSound i _ _ (λ u. refl) (set_unix-IsSound j _ s (λ u. refl) v)))
  ]
]

used-socket_queue_write :
    (buffer : List ℕ) (u : UnixSocket) → (socket_queue_write buffer u).0.used ≡ u.used
unfolding socket_queue_write
used-socket_queue_write buffer u = ground arith

pub unix_send-IsSound :
    (x : UnixSocket) (buffer : List ℕ) (s : Vfs) → IsSound s → IsSound (unix_send x buffer s).0
unfolding unix_send
unix_send-IsSound x buffer s v = elim (Option-cases (get_elem? s.unix_sockets x.peer)) [
  | inl gone ↦ rw (gone, unix_send) (ground arith)
  | inr (p, at) ↦
      rw (at, unix_send)
        (ground (
          arith,
          set_unix-IsSound x.peer (λ u. (socket_queue_write buffer u).0) s
              (used-socket_queue_write buffer) v,
        ))
]

pub unix_recv-IsSound :
    (j : ℕ) (x : UnixSocket) (size : ℕ) (s : Vfs) → IsSound s → IsSound (unix_recv j x size s).0
unfolding unix_recv socket_queue_read
unix_recv-IsSound j x size s v = set_unix-IsSound j _ s (λ u. refl) v

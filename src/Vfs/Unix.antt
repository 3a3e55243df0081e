-- ===== src/Vfs/Unix.antt =====
-- The UNIX stream sockets of vfs.c.
use mathlib.Core.Option
use mazuki_os.Base.{
  ℕ, zero, suc, ◌-◌, min, Bool, true, false, ◌&&◌, ◌||◌, not, Option, none, some, List, [], ◌∷◌,
  ltb, ◌==◌, if◌then◌else◌, get_elem?, drop, any_other, first_where, ℤ, pos, neg, Result, ok, err,
}
use mazuki_os.Ring.{fill, drain}
use mazuki_os.Vfs.State.{
  Vfs, File, FileType, Target, UnixSocket, Call, unix_socket_count, unix_socket_queue,
  unix_socket_path, unix_socket_none, max_fd, allocate_fd, set_unix,
}
use mazuki_os.Vfs.Inet.{field16}

unfoldable pub socket_queue_write : List ℕ → UnixSocket → UnixSocket × ℤ
socket_queue_write buffer u =
    let (written, r) = fill unix_socket_queue buffer 0 u.ring in
    if not u.connected then (u, neg 107) else (record u { ring = r }, pos written)

-- The bytes copied, and the socket after it; the result in C is their number.
unfoldable pub socket_queue_read : ℕ → UnixSocket → List ℕ × UnixSocket
socket_queue_read size u =
    let (bytes, r) = drain unix_socket_queue 0 size u.ring in (bytes, record u { ring = r })

-- The copy loop of `socket_address`, with room for `n` more bytes.
unfoldable pub copy_path : ℕ → List ℕ → List ℕ
copy_path zero bytes = []
copy_path (suc n) [] = []
copy_path (suc n) (b ∷ bytes) = if b == 0 then [] else b ∷ copy_path n bytes

abbrev nonempty : List ℕ → Result (List ℕ)
nonempty [] = err 22
nonempty (b ∷ path) = ok (b ∷ path)

-- `socket_address`: the path of a `struct unix_sockaddr`, which is cut at the first NUL, at the
-- address's length and at `UNIX_SOCKET_PATH - 1` bytes.
unfoldable pub socket_address : Option (List ℕ) → ℕ → Result (List ℕ)
unfolding copy_path
socket_address none address_length = err 14
socket_address (some bytes) address_length =
    if ltb address_length 3
    then err 14
    else if not (field16 bytes 0 == 1)
    then err 97
    else nonempty (copy_path (min (unix_socket_path - 1) (address_length - 2)) (drop 2 bytes))

-- `strcmp(a, b) == 0`
unfoldable pub same_path : List ℕ → List ℕ → Bool
same_path [] [] = true
same_path (a ∷ as') (b ∷ bs) = (a == b) && same_path as' bs
same_path _ _ = false

-- The socket behind a descriptor's `private_data`.
unfoldable pub unix_of : File → Vfs → Option (ℕ × UnixSocket)
unix_of f s = elim f.private_data [
  | Target.unix j ↦ Option.map (λ x. (j, x)) (get_elem? s.unix_sockets j)
  | _ ↦ none
]

unfoldable pub unix_bind : ℕ → Option (List ℕ) → ℕ → Vfs → Vfs × ℤ
unix_bind j address address_length s = elim (socket_address address address_length) [
  | err e ↦ (s, neg e)
  | ok path ↦
      if any_other j (λ u. u.used && same_path u.path path) s.unix_sockets
      then (s, neg 98)
      else (set_unix j (λ u. record u { path = path }) s, pos 0)
]

unfoldable pub unix_listen : ℕ → UnixSocket → Vfs → Vfs × ℤ
unix_listen j socket s = elim socket.path [
  | [] ↦ (s, neg 22)
  | _ ↦ (set_unix j (λ u. record u { listening = true }) s, pos 0)
]

abbrev pub serves : List ℕ → UnixSocket → Bool
serves path u = u.used && u.listening && same_path u.path path

unfoldable pub unix_connect : ℕ → ℕ → Option (List ℕ) → ℕ → Vfs → Vfs × ℤ
unix_connect fd j address address_length s = elim (socket_address address address_length) [
  | err e ↦ (s, neg e)
  | ok path ↦ elim (first_where (serves path) s.unix_sockets 0) [
    | none ↦ (s, neg 2)
    | some i ↦ (
      set_unix i (λ u. record u { pending = fd })
          (set_unix j (λ u. record u { peer = i; connected = true }) s),
      pos 0,
    )
  ]
]

-- The end of `vfs_socket_accept`, at the client's index: take a slot, join the two, open it.
unfoldable pub join : ℕ → Vfs → Vfs × ℤ
join client_index s = elim (first_where (λ u. not u.used) s.unix_sockets 0) [
  | none ↦ (s, neg 24)
  | some i ↦ allocate_fd FileType.unix_socket (Target.unix i) (
      set_unix client_index (λ u. record u { peer = i })
        (set_unix i (λ u. record u { used = true; connected = true; peer = client_index }) s))
]

abbrev pub is_unix : FileType → Bool
is_unix FileType.unix_socket = true
is_unix _ = false

-- `pending` is read as a descriptor; `none` is a fault.
unfoldable pub client_of : ℕ → Vfs → Option (Option ℕ)
unfolding unix_of
client_of client_fd s =
    if ltb client_fd max_fd
    then elim (get_elem? s.fd_table client_fd) [
      | none ↦ none
      | some f ↦ if is_unix f.type then Option.map (λ c. some (c.0)) (unix_of f s) else some none
    ]
    else some none

-- `vfs_socket_accept` from the read of `pending` on, after it is cleared.
unfoldable pub take_pending : ℕ → Vfs → Call
unfolding join client_of
take_pending client_fd s = elim (client_of client_fd s) [
  | none ↦ none
  | some none ↦ some (s, neg 11)
  | some (some client_index) ↦ some (join client_index s)
]

unfoldable pub unix_accept : ℕ → UnixSocket → Vfs → Call
unfolding take_pending
unix_accept j server s =
    if not server.listening || (server.pending == unix_socket_none)
    then some (s, neg 11)
    else take_pending server.pending (set_unix j (λ u. record u { pending = unix_socket_none }) s)

-- Sending goes into the queue of the peer.
unfoldable pub unix_send : UnixSocket → List ℕ → Vfs → Vfs × ℤ
unix_send socket buffer s =
    if ltb socket.peer unix_socket_count
    then elim (get_elem? s.unix_sockets socket.peer) [
      | none ↦ (s, neg 107)
      | some p ↦
          if p.used
          then (
            set_unix socket.peer (λ u. (socket_queue_write buffer u).0) s,
            (socket_queue_write buffer p).1,
          )
          else (s, neg 107)
    ]
    else (s, neg 107)

unfoldable pub unix_recv : ℕ → UnixSocket → ℕ → Vfs → Vfs × List ℕ
unix_recv j socket size s =
    (set_unix j (λ u. (socket_queue_read size u).1) s, (socket_queue_read size socket).0)

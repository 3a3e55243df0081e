-- ===== src/Vfs/Requests.antt =====
-- The calls that open, use and close descriptors, as the system calls make them.
use mazuki_os.Base.{ℕ, List, [], ◌∷◌, Option, some, none, ℤ}
use mazuki_os.Vfs.State.{Vfs, Call}
use mazuki_os.Vfs.Pipe.{vfs_pipe}
use mazuki_os.Vfs.Calls.{
  vfs_socket, vfs_socket_bind, vfs_socket_listen, vfs_socket_connect, vfs_socket_accept,
  vfs_socket_send, vfs_socket_sendto, vfs_socket_recv, vfs_socket_recvfrom,
}
use mazuki_os.Vfs.Close.{vfs_close}

-- A call with its arguments; an address is the bytes behind a pointer, `none` for NULL.
pub data Request : Type 0 where
  pipe : Request
  socket : ℕ → ℕ → ℕ → Request
  bind : ℤ → Option (List ℕ) → ℕ → Request
  listen : ℤ → Request
  connect : ℤ → Option (List ℕ) → ℕ → Request
  accept : ℤ → Request
  send : ℤ → List ℕ → Request
  sendto : ℤ → List ℕ → Option (List ℕ) → ℕ → Request
  recv : ℤ → ℕ → Request
  recvfrom : ℤ → ℕ → Option ℕ → Request
  close : ℤ → Request

-- The state and the number that a call returns; `none` if it follows a pointer that leads nowhere.
unfoldable pub perform : Request → Vfs → Call
perform pipe s = let (s', r, _) = vfs_pipe s in some (s', r)
perform (socket domain type protocol) s = some (vfs_socket domain type protocol s)
perform (bind fd address size) s = vfs_socket_bind fd address size s
perform (listen fd) s = vfs_socket_listen fd s
perform (connect fd address size) s = vfs_socket_connect fd address size s
perform (accept fd) s = vfs_socket_accept fd s
perform (send fd buffer) s = vfs_socket_send fd buffer s
perform (sendto fd buffer address size) s = vfs_socket_sendto fd buffer address size s
perform (recv fd size) s = elim (vfs_socket_recv fd size s) [
  | none ↦ none
  | some (s', (r, _)) ↦ some (s', r)
]
perform (recvfrom fd size room) s = elim (vfs_socket_recvfrom fd size room s) [
  | none ↦ none
  | some (s', (r, _)) ↦ some (s', r)
]
perform (close fd) s = vfs_close fd s

-- The calls of all processes in the order the kernel serves them.
unfoldable pub serve : List Request → Vfs → Option (Vfs × List ℤ)
serve [] s = some (s, [])
serve (r ∷ rs) s = elim (perform r s) [
  | none ↦ none
  | some (s', result) ↦ elim (serve rs s') [
    | none ↦ none
    | some (s'', results) ↦ some (s'', result ∷ results)
  ]
]

-- ===== src/Vfs/Ownership/Close.antt =====
-- `vfs_close` meets no fault and keeps the invariant.
use mathlib.Core.Option
use mazuki_os.Base.{
  ℕ, ◌≡◌, ◌≢◌, ◌∙◌, refl, ap, true, false, some, Bool-cases, arith, ltb, get_elem?, modify,
  get_elem?-lt, ltb→lt, inl, inr, ◌⊎◌, ℤ, pos, neg,
}
use mazuki_os.Alloc.Usage.{alloc_free_total}
use mazuki_os.Vfs.State.{
  Vfs, File, FileType, Target, Pipe, UnixSocket, InetSocket, closed_file, pipe_count,
  unix_socket_count, set_file, set_pipe, set_unix, set_inet,
}
use mazuki_os.Vfs.Inet.{inet_of}
use mazuki_os.Vfs.Unix.{unix_of}
use mazuki_os.Vfs.Close.{
  close_reader, close_writer, pipe_of, close_pipe, close_unix, free_node, let_go, close_file,
  vfs_close,
}
use mazuki_os.Vfs.Ownership.Refs.{IsSound, fits_type, node_end_at}
use mazuki_os.Vfs.Ownership.Sockets.{set_unix-IsSound}
use mazuki_os.Vfs.Ownership.OnSocket.{IsSafe, lookup_fd_cases, unix_of_total, inet_of_total}
use mazuki_os.Vfs.Ownership.Shut.{
  shut_reader, shut_writer, shut_unix, shut_inet, shut_node, shut_file, node_used, refs_spared,
}

abbrev IsPipeEnd : FileType → Type 0
IsPipeEnd t = (t ≡ FileType.pipe_read) ⊎ (t ≡ FileType.pipe_write)

pipe_target :
    (t : FileType) (x : Target)
    → IsPipeEnd t
    → fits_type t x ≡ true
    → (j : ℕ) × (x ≡ Target.pipe j) × (ltb j pipe_count ≡ true)
pipe_target t (Target.pipe j) d fit = (j, refl, ground arith)
pipe_target t Target.null d fit = absurd (ground arith)
pipe_target t (Target.node a) d fit = absurd (ground arith)
pipe_target t (Target.unix j) d fit = absurd (ground arith)
pipe_target t (Target.inet j) d fit = absurd (ground arith)

file_target : (x : Target) → fits_type FileType.vfs_file x ≡ true → (a : ℕ) × (x ≡ Target.node a)
file_target (Target.node a) fit = (a, refl)
file_target Target.null fit = absurd (cc)
file_target (Target.pipe j) fit = absurd (cc)
file_target (Target.unix j) fit = absurd (cc)
file_target (Target.inet j) fit = absurd (cc)

device_target : (x : Target) → fits_type FileType.device x ≡ true → x ≡ Target.null
device_target Target.null fit = refl
device_target (Target.node a) fit = absurd (cc)
device_target (Target.pipe j) fit = absurd (cc)
device_target (Target.unix j) fit = absurd (cc)
device_target (Target.inet j) fit = absurd (cc)

is_empty : (t : FileType) → (t ≡ FileType.empty) ⊎ (t ≢ FileType.empty)
is_empty FileType.empty = inl refl
is_empty FileType.vfs_file = inr (λ e. absurd (cc))
is_empty FileType.device = inr (λ e. absurd (cc))
is_empty FileType.pipe_read = inr (λ e. absurd (cc))
is_empty FileType.pipe_write = inr (λ e. absurd (cc))
is_empty FileType.unix_socket = inr (λ e. absurd (cc))
is_empty FileType.inet_socket = inr (λ e. absurd (cc))

module _ (s : Vfs) (v : IsSound s) (n : ℕ) (f : File) (at : get_elem? s.fd_table n ≡ some f) where
  -- What closing must establish: the part for the type succeeds, and the invariant holds once the
  -- descriptor is marked as free.
  abbrev LetsGo : Type 0
  LetsGo = (s' : Vfs) × (let_go f s ≡ some s') × IsSound (set_file n (λ _. closed_file) s')

  fit_as : (t : FileType) → f.type ≡ t → fits_type t f.private_data ≡ true
  fit_as t is = rw (← is) (v.fit n f at)

  -- A descriptor of a pipe's end leads to a pipe.
  pipe_of_total :
      IsPipeEnd f.type
      → (j : ℕ) × (p : Pipe) × (f.private_data ≡ Target.pipe j) × (pipe_of f s ≡ some (j, p))
  unfolding pipe_of
  pipe_of_total d = found (pipe_target f.type f.private_data d (v.fit n f at))
    where
      found :
          (j : ℕ) × (f.private_data ≡ Target.pipe j) × (ltb j pipe_count ≡ true)
          → (j : ℕ) × (p : Pipe) × (f.private_data ≡ Target.pipe j) × (pipe_of f s ≡ some (j, p))
      found (j, on, lt) =
          let (p, here) = get_elem?-lt s.pipes j (omega (arith, ltb→lt _ _ lt, v.pipe_size_lem)) in
          (j, p, on, ground arith)

  lets_go_reader :
      f.type ≡ FileType.pipe_read
      → (j : ℕ) × (p : Pipe) × (f.private_data ≡ Target.pipe j) × (pipe_of f s ≡ some (j, p))
      → LetsGo
  unfolding let_go close_pipe set_pipe set_file
  lets_go_reader is (j, p, on, e) = (
    record s { pipes = modify s.pipes j close_reader },
    ground arith,
    shut_reader s v n f at j is on,
  )

  lets_go_writer :
      f.type ≡ FileType.pipe_write
      → (j : ℕ) × (p : Pipe) × (f.private_data ≡ Target.pipe j) × (pipe_of f s ≡ some (j, p))
      → LetsGo
  unfolding let_go close_pipe set_pipe set_file
  lets_go_writer is (j, p, on, e) = (
    record s { pipes = modify s.pipes j close_writer },
    ground arith,
    shut_writer s v n f at j is on,
  )

  lets_go_inet : f.type ≡ FileType.inet_socket → LetsGo
  unfolding let_go set_inet set_file
  lets_go_inet is = found (inet_of_total s n f v at is)
    where
      found :
          (j : ℕ) × (d : InetSocket) × (inet_of f s ≡ some (j, d))
            × (f.private_data ≡ Target.inet j)
            × (get_elem? s.inet_sockets j ≡ some d)
          → LetsGo
      found (j, d, e, on, here) = (
        record s { inet_sockets = modify s.inet_sockets j (λ d. record d { used = false }) },
        ground arith,
        shut_inet s v n f at j is on,
      )

  -- The peer is told first, where there is one.
  shut_peer :
      f.type ≡ FileType.unix_socket
      → (j : ℕ) (u : UnixSocket) → f.private_data ≡ Target.unix j
      → IsSound (set_file n (λ _. closed_file) (close_unix j u s))
  unfolding close_unix set_unix set_file
  shut_peer is j u on = elim (Bool-cases (ltb u.peer unix_socket_count)) [
    | inr alone ↦ rw alone (shut_unix s v n f at j is on)
    | inl paired ↦ rw paired (
        shut_unix
          (record s {
            unix_sockets = modify s.unix_sockets u.peer (λ x. record x { connected = false });
          })
          (set_unix-IsSound u.peer (λ x. record x { connected = false }) s (λ x. refl) v) n f at j
          is on)
  ]

  lets_go_unix : f.type ≡ FileType.unix_socket → LetsGo
  unfolding let_go close_unix set_file
  lets_go_unix is = found (unix_of_total s n f v at is)
    where
      found :
          (j : ℕ) × (u : UnixSocket) × (unix_of f s ≡ some (j, u))
            × (f.private_data ≡ Target.unix j)
            × (get_elem? s.unix_sockets j ≡ some u)
          → LetsGo
      found (j, u, e, on, here) = (close_unix j u s, ground arith, shut_peer is j u on)

  lets_go_file : f.type ≡ FileType.vfs_file → LetsGo
  unfolding let_go free_node set_file
  lets_go_file is = found (file_target f.private_data (fit_as FileType.vfs_file is))
    where
      found : (a : ℕ) × (f.private_data ≡ Target.node a) → LetsGo
      found (a, on) =
          let (h, e) = alloc_free_total a s.heap (node_used s v n f at is a on) in
          (record s { heap = h }, ground arith, shut_file s v n f at is a on h e)

  lets_go_device : f.type ≡ FileType.device → LetsGo
  unfolding let_go free_node set_file
  lets_go_device is =
      let on : f.private_data ≡ Target.null =
        device_target f.private_data (fit_as FileType.device is) in
      (
        s,
        ground arith,
        shut_node s v n f at s.heap ((λ k. rw is), (λ k. rw is), (λ k. rw is), (λ k. rw is)) v.tiled
            (λ a.
              omega (arith, refs_spared s v n f at node_end_at a (λ t k. refl) (rw is), v.nodes a)),
      )

  let_go_as : (t : FileType) → f.type ≡ t → t ≢ FileType.empty → LetsGo
  let_go_as FileType.empty is full = absurd (full refl)
  let_go_as FileType.vfs_file is full = lets_go_file is
  let_go_as FileType.device is full = lets_go_device is
  let_go_as FileType.pipe_read is full = lets_go_reader is (pipe_of_total (inl is))
  let_go_as FileType.pipe_write is full = lets_go_writer is (pipe_of_total (inr is))
  let_go_as FileType.unix_socket is full = lets_go_unix is
  let_go_as FileType.inet_socket is full = lets_go_inet is

  close_file_lem :
      (t : FileType)
      → f.type ≡ t
      → t ≢ FileType.empty
      → close_file n f s ≡ Option.map (λ s'. (set_file n (λ _. closed_file) s', pos 0)) (let_go f s)
  unfolding close_file
  close_file_lem FileType.empty is full = absurd (full refl)
  close_file_lem FileType.vfs_file is full = simp (close_file, is)
  close_file_lem FileType.device is full = simp (close_file, is)
  close_file_lem FileType.pipe_read is full = simp (close_file, is)
  close_file_lem FileType.pipe_write is full = simp (close_file, is)
  close_file_lem FileType.unix_socket is full = simp (close_file, is)
  close_file_lem FileType.inet_socket is full = simp (close_file, is)

  ends_closed : f.type ≢ FileType.empty → LetsGo → IsSafe (close_file n f s)
  ends_closed full (s', e, sound) = (
    set_file n (λ _. closed_file) s',
    pos 0,
    close_file_lem f.type refl full ∙ ap (Option.map _) e,
    sound,
  )

  close_file-IsSafe : IsSafe (close_file n f s)
  unfolding close_file
  close_file-IsSafe = elim (is_empty f.type) [
    | inl none_open ↦ rw (none_open, close_file) (s, neg 9, refl, v)
    | inr full ↦ ends_closed full (let_go_as f.type refl full)
  ]

pub vfs_close-IsSafe : (fd : ℤ) (s : Vfs) → IsSound s → IsSafe (vfs_close fd s)
unfolding vfs_close
vfs_close-IsSafe fd s v = elim (lookup_fd_cases fd s) [
  | inl e ↦ rw (e, vfs_close) (s, neg 9, refl, v)
  | inr (n, f, e, at) ↦ rw (e, vfs_close) (close_file-IsSafe s v n f at)
]

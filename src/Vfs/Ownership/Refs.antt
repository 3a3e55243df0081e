-- ===== src/Vfs/Ownership/Refs.antt =====
-- The invariant of the descriptor table against the tables behind it, and how counts of
-- descriptors change.
use mazuki_os.Base.{
  ℕ, zero, suc, ◌+◌, ◌≤◌, ◌<◌, ◌≡◌, ◌≢◌, Bool, true, false, List, [], ◌∷◌, some, arith, ltb, ◌==◌,
  if◌then◌else◌, length, get_elem?, modify, modify_cases, inl, inr, sym,
}
use mazuki_os.Alloc.Usage.{in_use}
use mazuki_os.Alloc.Tiling.{IsTiled}
use mazuki_os.Vfs.State.{
  Vfs, File, FileType, Target, Pipe, UnixSocket, InetSocket, max_fd, pipe_count, unix_socket_count,
  inet_socket_count,
}

abbrev pub bit : Bool → ℕ
bit true = 1
bit false = 0

-- The descriptors that pass a test.
unfoldable pub refs : (File → Bool) → List File → ℕ
refs p [] = 0
refs p (f ∷ fs) = bit (p f) + refs p fs

-- The test on a descriptor's type and target, at an index.
abbrev pub read_end_at : FileType → Target → ℕ → Bool
read_end_at FileType.pipe_read (Target.pipe k) j = k == j
read_end_at _ _ j = false

abbrev pub write_end_at : FileType → Target → ℕ → Bool
write_end_at FileType.pipe_write (Target.pipe k) j = k == j
write_end_at _ _ j = false

abbrev pub unix_end_at : FileType → Target → ℕ → Bool
unix_end_at FileType.unix_socket (Target.unix k) j = k == j
unix_end_at _ _ j = false

abbrev pub inet_end_at : FileType → Target → ℕ → Bool
inet_end_at FileType.inet_socket (Target.inet k) j = k == j
inet_end_at _ _ j = false

abbrev pub node_end_at : FileType → Target → ℕ → Bool
node_end_at FileType.vfs_file (Target.node k) j = k == j
node_end_at _ _ j = false

abbrev pub End : Type 0
End = FileType → Target → ℕ → Bool

abbrev pub holds : End → ℕ → File → Bool
holds e j f = e f.type f.private_data j

-- No closed descriptor holds anything.
abbrev pub SparesEmpty : End → Type 0
SparesEmpty e = (t : Target) (j : ℕ) → e FileType.empty t j ≡ false

-- The target of a descriptor fits its type.
abbrev pub fits_type : FileType → Target → Bool
fits_type FileType.empty t = true
fits_type FileType.vfs_file (Target.node a) = true
fits_type FileType.device Target.null = true
fits_type FileType.pipe_read (Target.pipe j) = ltb j pipe_count
fits_type FileType.pipe_write (Target.pipe j) = ltb j pipe_count
fits_type FileType.unix_socket (Target.unix j) = ltb j unix_socket_count
fits_type FileType.inet_socket (Target.inet j) = ltb j inet_socket_count
fits_type _ _ = false

abbrev pub AllFit : List File → Type 0
AllFit fds = (i : ℕ) (f : File) → get_elem? fds i ≡ some f → fits_type f.type f.private_data ≡ true

-- Each entry `x` of a table, at `j`, and the number of descriptors that hold it, are as `q` says.
abbrev pub Owned : {A : Type 0} → End → (A → ℕ → Type 0) → List File → List A → Type 0
Owned {A} e q fds xs = (j : ℕ) (x : A) → get_elem? xs j ≡ some x → q x (refs (holds e j) fds)

abbrev pub ReadersCount : Pipe → ℕ → Type 0
ReadersCount p n = n ≡ (if p.used then p.readers else 0)

abbrev pub WritersCount : Pipe → ℕ → Type 0
WritersCount p n = n ≡ (if p.used then p.writers else 0)

-- A pipe in use has an open end.
abbrev pub IsHeld : Pipe → Type 0
IsHeld p = p.used ≡ true → 0 < p.readers + p.writers

abbrev pub UnixCount : UnixSocket → ℕ → Type 0
UnixCount u n = n ≤ bit u.used

abbrev pub InetCount : InetSocket → ℕ → Type 0
InetCount d n = n ≡ bit d.used

-- The invariant: the tables have their sizes; each descriptor points into the table of its type;
-- a pipe in use has as many open read ends and write ends as it counts, and at least one; a
-- datagram socket is in use exactly if one descriptor holds it; a stream socket and a block of the
-- heap are held by at most one descriptor, and only if in use.
pub record IsSound (s : Vfs) : Type 0 where
  pub fd_size : length s.fd_table ≡ max_fd
  pub pipe_size_lem : length s.pipes ≡ pipe_count
  pub unix_size : length s.unix_sockets ≡ unix_socket_count
  pub inet_size : length s.inet_sockets ≡ inet_socket_count
  pub fit : AllFit s.fd_table
  pub readers : Owned read_end_at ReadersCount s.fd_table s.pipes
  pub writers : Owned write_end_at WritersCount s.fd_table s.pipes
  pub held : (j : ℕ) (p : Pipe) → get_elem? s.pipes j ≡ some p → IsHeld p
  pub unix : Owned unix_end_at UnixCount s.fd_table s.unix_sockets
  pub inet : Owned inet_end_at InetCount s.fd_table s.inet_sockets
  pub nodes : (a : ℕ) → refs (holds node_end_at a) s.fd_table ≤ bit (in_use a s.heap)
  pub tiled : IsTiled s.heap

-- Replacing one descriptor moves the count by the two tests.
pub refs-modify :
    (p : File → Bool) (fds : List File) (i : ℕ) (g : File → File) (f : File)
    → get_elem? fds i ≡ some f
    → refs p (modify fds i g) + bit (p f) ≡ refs p fds + bit (p (g f))
unfolding refs
refs-modify p [] i g f e = absurd (cc)
refs-modify p (x ∷ fds) zero g f e = let same : x ≡ f = ground arith in rw same (omega arith)
refs-modify p (x ∷ fds) (suc i) g f e = omega (arith, refs-modify p fds i g f e)

pub refs-pos :
    (p : File → Bool) (fds : List File) (i : ℕ) (f : File)
    → get_elem? fds i ≡ some f
    → p f ≡ true
    → 0 < refs p fds
unfolding refs
refs-pos p [] i f e h = absurd (cc)
refs-pos p (x ∷ fds) zero f e h = let same : x ≡ f = ground arith in rw (same, h) (omega arith)
refs-pos p (x ∷ fds) (suc i) f e h = omega (arith, refs-pos p fds i f e h)

pub AllFit-modify :
    (fds : List File) (i : ℕ) (g : File)
    → fits_type g.type g.private_data ≡ true
    → AllFit fds
    → AllFit (modify fds i (λ _. g))
AllFit-modify fds i g ok all k f e = elim (modify_cases fds i k (λ _. g) e) [
  | inl (_, old, _, is) ↦ rw is ok
  | inr (_, was) ↦ all k f was
]

module _ {A : Type 0} (e : End) (q : A → ℕ → Type 0) where
  -- Counts that stay leave every entry owned.
  pub Owned-refs :
      (fds fds' : List File) (xs : List A)
      → ((j : ℕ) → refs (holds e j) fds' ≡ refs (holds e j) fds)
      → Owned e q fds xs
      → Owned e q fds' xs
  Owned-refs fds fds' xs same own j x g = rw (same j) (own j x g)

  -- One entry changes, and with it the counts of that entry only.
  pub Owned-modify :
      (fds fds' : List File) (xs : List A) (i : ℕ) (f : A → A)
      → ((j : ℕ) → j ≢ i → refs (holds e j) fds' ≡ refs (holds e j) fds)
      → ((x : A) → get_elem? xs i ≡ some x → q (f x) (refs (holds e i) fds'))
      → Owned e q fds xs
      → Owned e q fds' (modify xs i f)
  Owned-modify fds fds' xs i f same here own j y g = elim (modify_cases xs i j f g) [
    | inl (at, x, was, is) ↦ rw (← at, is) (here x was)
    | inr (ne, was) ↦ rw (same j (λ eq. ne (sym eq))) (own j y was)
  ]

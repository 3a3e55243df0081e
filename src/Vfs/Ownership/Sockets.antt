-- ===== src/Vfs/Ownership/Sockets.antt =====
-- `vfs_socket` and `vfs_socket_accept` keep the invariant, and so does every call that leaves the
-- descriptors and the marks alone.
use mazuki_os.Base.{
  ℕ, ◌+◌, ◌<◌, ◌≡◌, refl, ap, sym, ◌∙◌, true, List, some, arith, lt→ltb, ==_refl, ==_ne, length,
  modify, length-modify,
}
use mazuki_os.Vfs.State.{
  Vfs, File, FileType, Target, UnixSocket, InetSocket, max_fd, unix_socket_count, inet_socket_count,
  open_as, free_fd, set_unix, set_inet,
}
use mazuki_os.Vfs.Calls.{fresh_inet}
use mazuki_os.Vfs.Ownership.Refs.{
  bit, refs, End, holds, SparesEmpty, AllFit, Owned, IsSound, AllFit-modify, Owned-refs,
  Owned-modify, read_end_at, write_end_at, unix_end_at, inet_end_at, node_end_at, ReadersCount,
  WritersCount, UnixCount, InetCount,
}
use mazuki_os.Vfs.Ownership.Open.{refs_open}

-- A change of descriptors and stream sockets alone keeps the rest of the invariant.
pub IsSound-unix :
    (s : Vfs) (fds : List File) (us : List UnixSocket)
    → IsSound s
    → length fds ≡ max_fd
    → length us ≡ unix_socket_count
    → AllFit fds
    → Owned unix_end_at UnixCount fds us
    → ((a : ℕ) → refs (holds read_end_at a) fds ≡ refs (holds read_end_at a) s.fd_table)
    → ((a : ℕ) → refs (holds write_end_at a) fds ≡ refs (holds write_end_at a) s.fd_table)
    → ((a : ℕ) → refs (holds inet_end_at a) fds ≡ refs (holds inet_end_at a) s.fd_table)
    → ((a : ℕ) → refs (holds node_end_at a) fds ≡ refs (holds node_end_at a) s.fd_table)
    → IsSound (record s { fd_table = fds; unix_sockets = us })
IsSound-unix s fds us v lf lu fit own rs ws is ns = record {
  fd_size = lf;
  pipe_size_lem = v.pipe_size_lem;
  unix_size = lu;
  inet_size = v.inet_size;
  fit = fit;
  readers = Owned-refs read_end_at ReadersCount s.fd_table fds s.pipes rs v.readers;
  writers = Owned-refs write_end_at WritersCount s.fd_table fds s.pipes ws v.writers;
  held = v.held;
  unix = own;
  inet = Owned-refs inet_end_at InetCount s.fd_table fds s.inet_sockets is v.inet;
  nodes = λ a. omega (arith, ns a, v.nodes a);
  tiled = v.tiled;
}

-- A change of descriptors and datagram sockets alone keeps the rest of the invariant.
pub IsSound-inet :
    (s : Vfs) (fds : List File) (ds : List InetSocket)
    → IsSound s
    → length fds ≡ max_fd
    → length ds ≡ inet_socket_count
    → AllFit fds
    → Owned inet_end_at InetCount fds ds
    → ((a : ℕ) → refs (holds read_end_at a) fds ≡ refs (holds read_end_at a) s.fd_table)
    → ((a : ℕ) → refs (holds write_end_at a) fds ≡ refs (holds write_end_at a) s.fd_table)
    → ((a : ℕ) → refs (holds unix_end_at a) fds ≡ refs (holds unix_end_at a) s.fd_table)
    → ((a : ℕ) → refs (holds node_end_at a) fds ≡ refs (holds node_end_at a) s.fd_table)
    → IsSound (record s { fd_table = fds; inet_sockets = ds })
IsSound-inet s fds ds v lf li fit own rs ws us ns = record {
  fd_size = lf;
  pipe_size_lem = v.pipe_size_lem;
  unix_size = v.unix_size;
  inet_size = li;
  fit = fit;
  readers = Owned-refs read_end_at ReadersCount s.fd_table fds s.pipes rs v.readers;
  writers = Owned-refs write_end_at WritersCount s.fd_table fds s.pipes ws v.writers;
  held = v.held;
  unix = Owned-refs unix_end_at UnixCount s.fd_table fds s.unix_sockets us v.unix;
  inet = own;
  nodes = λ a. omega (arith, ns a, v.nodes a);
  tiled = v.tiled;
}

-- A change of one socket that keeps its mark keeps the invariant.
pub set_unix-IsSound :
    (j : ℕ) (f : UnixSocket → UnixSocket) (s : Vfs)
    → ((u : UnixSocket) → (f u).used ≡ u.used)
    → IsSound s
    → IsSound (set_unix j f s)
unfolding set_unix
set_unix-IsSound j f s keeps v =
    IsSound-unix s s.fd_table (modify s.unix_sockets j f) v v.fd_size
      (length-modify s.unix_sockets j f ∙ v.unix_size) v.fit
      (Owned-modify unix_end_at UnixCount s.fd_table s.fd_table s.unix_sockets j f (λ a _. refl)
        (λ u at. rw (keeps u) (v.unix j u at)) v.unix)
      (λ a. refl) (λ a. refl) (λ a. refl) (λ a. refl)

pub set_inet-IsSound :
    (j : ℕ) (f : InetSocket → InetSocket) (s : Vfs)
    → ((d : InetSocket) → (f d).used ≡ d.used)
    → IsSound s
    → IsSound (set_inet j f s)
unfolding set_inet
set_inet-IsSound j f s keeps v =
    IsSound-inet s s.fd_table (modify s.inet_sockets j f) v v.fd_size
      (length-modify s.inet_sockets j f ∙ v.inet_size) v.fit
      (Owned-modify inet_end_at InetCount s.fd_table s.fd_table s.inet_sockets j f (λ a _. refl)
        (λ d at. rw (keeps d) (v.inet j d at)) v.inet)
      (λ a. refl) (λ a. refl) (λ a. refl) (λ a. refl)

module _ (s : Vfs) (v : IsSound s) (j i : ℕ) (found : free_fd s.fd_table ≡ some i) where
  -- A stream socket that is free, or that is taken for this descriptor, is opened.
  pub open_unix :
      (f : UnixSocket → UnixSocket)
      → ((u : UnixSocket) → (f u).used ≡ true)
      → j < unix_socket_count
      → refs (holds unix_end_at j) s.fd_table ≡ 0
      → IsSound (record s {
        fd_table = modify s.fd_table i (λ _. open_as FileType.unix_socket (Target.unix j));
        unix_sockets = modify s.unix_sockets j f;
      })
  open_unix f marks lt none_yet =
      IsSound-unix s fds (modify s.unix_sockets j f) v (length-modify s.fd_table i _ ∙ v.fd_size)
        (length-modify s.unix_sockets j f ∙ v.unix_size)
        (AllFit-modify s.fd_table i end (lt→ltb j unix_socket_count lt) v.fit)
        (Owned-modify unix_end_at UnixCount s.fd_table fds s.unix_sockets j f
          (λ a ne.
            omega (arith, count unix_end_at (λ t k. refl) a, ap bit (==_ne j a (λ e. ne (sym e)))))
          (λ u at.
            rw (marks u)
              (omega (arith, count unix_end_at (λ t k. refl) j, ap bit (==_refl j), none_yet)))
          v.unix)
        (λ a. omega (arith, count read_end_at (λ t k. refl) a))
        (λ a. omega (arith, count write_end_at (λ t k. refl) a))
        (λ a. omega (arith, count inet_end_at (λ t k. refl) a))
        (λ a. omega (arith, count node_end_at (λ t k. refl) a))
    where
      end : File
      end = open_as FileType.unix_socket (Target.unix j)

      fds : List File
      fds = modify s.fd_table i (λ _. end)

      count :
          (e : End)
          → SparesEmpty e
          → (a : ℕ)
          → refs (holds e a) fds
            ≡ refs (holds e a) s.fd_table + bit (e FileType.unix_socket (Target.unix j) a)
      count e spares a =
          refs_open e s.fd_table i a FileType.unix_socket (Target.unix j) spares found

  pub open_inet :
      j < inet_socket_count
      → refs (holds inet_end_at j) s.fd_table ≡ 0
      → IsSound (record s {
        fd_table = modify s.fd_table i (λ _. open_as FileType.inet_socket (Target.inet j));
        inet_sockets = modify s.inet_sockets j fresh_inet;
      })
  open_inet lt none_yet =
      IsSound-inet s fds (modify s.inet_sockets j fresh_inet) v
        (length-modify s.fd_table i _ ∙ v.fd_size)
        (length-modify s.inet_sockets j fresh_inet ∙ v.inet_size)
        (AllFit-modify s.fd_table i end (lt→ltb j inet_socket_count lt) v.fit)
        (Owned-modify inet_end_at InetCount s.fd_table fds s.inet_sockets j fresh_inet
          (λ a ne.
            omega (arith, count inet_end_at (λ t k. refl) a, ap bit (==_ne j a (λ e. ne (sym e)))))
          (λ u at. omega (arith, count inet_end_at (λ t k. refl) j, ap bit (==_refl j), none_yet))
          v.inet)
        (λ a. omega (arith, count read_end_at (λ t k. refl) a))
        (λ a. omega (arith, count write_end_at (λ t k. refl) a))
        (λ a. omega (arith, count unix_end_at (λ t k. refl) a))
        (λ a. omega (arith, count node_end_at (λ t k. refl) a))
    where
      end : File
      end = open_as FileType.inet_socket (Target.inet j)

      fds : List File
      fds = modify s.fd_table i (λ _. end)

      count :
          (e : End)
          → SparesEmpty e
          → (a : ℕ)
          → refs (holds e a) fds
            ≡ refs (holds e a) s.fd_table + bit (e FileType.inet_socket (Target.inet j) a)
      count e spares a =
          refs_open e s.fd_table i a FileType.inet_socket (Target.inet j) spares found

-- ===== src/Vfs/Ownership/Calls.antt =====
-- `vfs_socket` and the calls on an open socket keep the invariant and meet no fault.
use mazuki_os.Base.{
  ℕ, ◌<◌, ◌≡◌, refl, ap, ◌∙◌, false, not, some, none, Option-cases, arith, modify, modify-modify,
  length-modify, inl, inr, first_where, pos, neg,
}
use mazuki_os.Vfs.State.{
  Vfs, FileType, Target, UnixSocket, InetSocket, unix_socket_count, inet_socket_count, open_as,
  free_fd, set_unix, set_inet,
}
use mazuki_os.Vfs.Calls.{fresh_inet, fresh_unix, inet_socket, unix_socket, vfs_socket}
use mazuki_os.Vfs.Ownership.Refs.{
  bit, refs, holds, IsSound, Owned-modify, unix_end_at, inet_end_at, UnixCount, InetCount,
}
use mazuki_os.Vfs.Ownership.Open.{allocate_fd_full, allocate_fd_found, free_slot}
use mazuki_os.Vfs.Ownership.Sockets.{IsSound-unix, IsSound-inet, open_unix, open_inet}

abbrev unmark_inet : InetSocket → InetSocket
unmark_inet d = record d { used = false }

abbrev unmark_unix : UnixSocket → UnixSocket
unmark_unix u = record u { used = false }

module _ (s : Vfs) (v : IsSound s) (j : ℕ)
    (slot : first_where (λ d. not d.used) s.inet_sockets 0 ≡ some j) where
  inet_free : (j < inet_socket_count) × (refs (holds inet_end_at j) s.fd_table ≡ 0)
  inet_free =
      let (lt, (x, at, idle)) = free_slot (λ (d : InetSocket). d.used) s.inet_sockets slot in
      (omega (arith, v.inet_size), v.inet j x at ∙ ap bit idle)

  inet_undone : IsSound (set_inet j unmark_inet (set_inet j fresh_inet s))
  unfolding set_inet
  inet_undone = rw (modify-modify s.inet_sockets j fresh_inet unmark_inet) (
      IsSound-inet s s.fd_table (modify s.inet_sockets j (λ d. unmark_inet (fresh_inet d))) v
        v.fd_size (length-modify s.inet_sockets j _ ∙ v.inet_size) v.fit
        (Owned-modify inet_end_at InetCount s.fd_table s.fd_table s.inet_sockets j _ (λ a _. refl)
          (λ d at. inet_free.1) v.inet)
        (λ a. refl) (λ a. refl) (λ a. refl) (λ a. refl))

inet_socket_full :
    (s : Vfs) (j : ℕ)
    → first_where (λ d. not d.used) s.inet_sockets 0 ≡ some j
    → free_fd s.fd_table ≡ none
    → inet_socket s ≡ (set_inet j unmark_inet (set_inet j fresh_inet s), neg 24)
unfolding inet_socket set_inet
inet_socket_full s j slot full = ground (
  arith,
  allocate_fd_full FileType.inet_socket (Target.inet j)
      (record s { inet_sockets = modify s.inet_sockets j fresh_inet }) full,
)

inet_socket_found :
    (s : Vfs) (j i : ℕ)
    → first_where (λ d. not d.used) s.inet_sockets 0 ≡ some j
    → free_fd s.fd_table ≡ some i
    → inet_socket s ≡ (
      record s {
        fd_table = modify s.fd_table i (λ _. open_as FileType.inet_socket (Target.inet j));
        inet_sockets = modify s.inet_sockets j fresh_inet;
      },
      pos i,
    )
unfolding inet_socket set_inet
inet_socket_found s j i slot found = ground (
  arith,
  allocate_fd_found FileType.inet_socket (Target.inet j)
      (record s { inet_sockets = modify s.inet_sockets j fresh_inet }) i found,
)

pub inet_socket-IsSound : (s : Vfs) → IsSound s → IsSound (inet_socket s).0
unfolding inet_socket
inet_socket-IsSound s v = elim (Option-cases (first_where (λ d. not d.used) s.inet_sockets 0)) [
  | inl none_left ↦ rw (none_left, inet_socket) v
  | inr (j, slot) ↦ elim (Option-cases (free_fd s.fd_table)) [
    | inl full ↦ rw (inet_socket_full s j slot full) (inet_undone s v j slot)
    | inr (i, found) ↦
        rw (inet_socket_found s j i slot found)
          (open_inet s v j i found (inet_free s v j slot).0 (inet_free s v j slot).1)
  ]
]

module _ (s : Vfs) (v : IsSound s) (j : ℕ)
    (slot : first_where (λ u. not u.used) s.unix_sockets 0 ≡ some j) where
  pub unix_free : (j < unix_socket_count) × (refs (holds unix_end_at j) s.fd_table ≡ 0)
  unix_free =
      let (lt, (x, at, idle)) = free_slot (λ (u : UnixSocket). u.used) s.unix_sockets slot in
      (omega (arith, v.unix_size), omega (arith, v.unix j x at, ap bit idle))

  unix_undone : IsSound (set_unix j unmark_unix (set_unix j fresh_unix s))
  unfolding set_unix
  unix_undone = rw (modify-modify s.unix_sockets j fresh_unix unmark_unix) (
      IsSound-unix s s.fd_table (modify s.unix_sockets j (λ u. unmark_unix (fresh_unix u))) v
        v.fd_size (length-modify s.unix_sockets j _ ∙ v.unix_size) v.fit
        (Owned-modify unix_end_at UnixCount s.fd_table s.fd_table s.unix_sockets j _ (λ a _. refl)
          (λ u at. omega (arith, unix_free.1)) v.unix)
        (λ a. refl) (λ a. refl) (λ a. refl) (λ a. refl))

unix_socket_full :
    (s : Vfs) (j : ℕ)
    → first_where (λ u. not u.used) s.unix_sockets 0 ≡ some j
    → free_fd s.fd_table ≡ none
    → unix_socket s ≡ (set_unix j unmark_unix (set_unix j fresh_unix s), neg 24)
unfolding unix_socket set_unix
unix_socket_full s j slot full = ground (
  arith,
  allocate_fd_full FileType.unix_socket (Target.unix j)
      (record s { unix_sockets = modify s.unix_sockets j fresh_unix }) full,
)

unix_socket_found :
    (s : Vfs) (j i : ℕ)
    → first_where (λ u. not u.used) s.unix_sockets 0 ≡ some j
    → free_fd s.fd_table ≡ some i
    → unix_socket s ≡ (
      record s {
        fd_table = modify s.fd_table i (λ _. open_as FileType.unix_socket (Target.unix j));
        unix_sockets = modify s.unix_sockets j fresh_unix;
      },
      pos i,
    )
unfolding unix_socket set_unix
unix_socket_found s j i slot found = ground (
  arith,
  allocate_fd_found FileType.unix_socket (Target.unix j)
      (record s { unix_sockets = modify s.unix_sockets j fresh_unix }) i found,
)

unix_socket-IsSound : (s : Vfs) → IsSound s → IsSound (unix_socket s).0
unfolding unix_socket
unix_socket-IsSound s v = elim (Option-cases (first_where (λ u. not u.used) s.unix_sockets 0)) [
  | inl none_left ↦ rw (none_left, unix_socket) v
  | inr (j, slot) ↦ elim (Option-cases (free_fd s.fd_table)) [
    | inl full ↦ rw (unix_socket_full s j slot full) (unix_undone s v j slot)
    | inr (i, found) ↦ rw (unix_socket_found s j i slot found) (
        open_unix s v j i found fresh_unix (λ u. refl) (unix_free s v j slot).0
          (unix_free s v j slot).1)
  ]
]

-- `vfs_socket` keeps the invariant on every branch.
pub vfs_socket-IsSound :
    (domain type protocol : ℕ) (s : Vfs) → IsSound s → IsSound (vfs_socket domain type protocol s).0
unfolding vfs_socket
vfs_socket-IsSound domain type protocol s v =
    ground (arith, inet_socket-IsSound s v, unix_socket-IsSound s v)

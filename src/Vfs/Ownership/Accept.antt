-- ===== src/Vfs/Ownership/Accept.antt =====
-- `vfs_socket_accept` meets no fault and keeps the invariant, also where it fails half-way.
use mazuki_os.Base.{
  ℕ, ◌+◌, ◌<◌, ◌≡◌, refl, ap, ◌∙◌, true, not, List, some, none, Option, Option-cases, Bool-cases,
  arith, ltb, lt→ltb, ltb→lt, ◌==◌, ==_refl, ==_ne, get_elem?, modify, modify_cases, length-modify,
  inl, inr, first_where, get_elem?-lt, neg, ℕ_discrete, subst, ◌||◌,
}
use mazuki_os.Vfs.State.{
  Vfs, File, FileType, Target, UnixSocket, max_fd, unix_socket_count, unix_socket_none, open_as,
  free_fd, set_unix,
}
use mazuki_os.Vfs.Unix.{unix_accept, take_pending, join, client_of, is_unix}
use mazuki_os.Vfs.Ownership.Refs.{
  bit, refs, End, holds, SparesEmpty, Owned, IsSound, AllFit-modify, Owned-modify, read_end_at,
  write_end_at, unix_end_at, inet_end_at, node_end_at, UnixCount,
}
use mazuki_os.Vfs.Ownership.Open.{refs_open, allocate_fd_full, allocate_fd_found}
use mazuki_os.Vfs.Ownership.Sockets.{IsSound-unix, set_unix-IsSound}
use mazuki_os.Vfs.Ownership.Calls.{unix_free}
use mazuki_os.Vfs.Ownership.OnSocket.{IsSafe, unix_of_total}

-- Marking a stream socket as used keeps the invariant.
mark_unix-IsSound :
    (i : ℕ) (f : UnixSocket → UnixSocket) (s : Vfs)
    → ((u : UnixSocket) → (f u).used ≡ true)
    → refs (holds unix_end_at i) s.fd_table ≡ 0
    → IsSound s
    → IsSound (set_unix i f s)
unfolding set_unix
mark_unix-IsSound i f s marks unheld v =
    IsSound-unix s s.fd_table (modify s.unix_sockets i f) v v.fd_size
      (length-modify s.unix_sockets i f ∙ v.unix_size) v.fit
      (Owned-modify unix_end_at UnixCount s.fd_table s.fd_table s.unix_sockets i f (λ a _. refl)
        (λ u at. omega (arith, unheld)) v.unix)
      (λ a. refl) (λ a. refl) (λ a. refl) (λ a. refl)

-- Opening a descriptor for a stream socket that is in use and not yet held keeps the invariant.
hold_unix-IsSound :
    (j i : ℕ) (s : Vfs)
    → IsSound s
    → free_fd s.fd_table ≡ some i
    → j < unix_socket_count
    → refs (holds unix_end_at j) s.fd_table ≡ 0
    → ((u : UnixSocket) → get_elem? s.unix_sockets j ≡ some u → u.used ≡ true)
    → IsSound (record s {
      fd_table = modify s.fd_table i (λ _. open_as FileType.unix_socket (Target.unix j));
    })
hold_unix-IsSound j i s v found lt unheld marked =
    IsSound-unix s fds s.unix_sockets v (length-modify s.fd_table i _ ∙ v.fd_size) v.unix_size
      (AllFit-modify s.fd_table i end (lt→ltb j unix_socket_count lt) v.fit) own
      (λ a. omega (arith, count read_end_at (λ t k. refl) a))
      (λ a. omega (arith, count write_end_at (λ t k. refl) a))
      (λ a. omega (arith, count inet_end_at (λ t k. refl) a))
      (λ a. omega (arith, count node_end_at (λ t k. refl) a))
  where
    end : File
    end = open_as FileType.unix_socket (Target.unix j)

    fds : List File
    fds = modify s.fd_table i (λ _. end)

    count :
        (e : End)
        → SparesEmpty e
        → (a : ℕ)
        → refs (holds e a) fds
          ≡ refs (holds e a) s.fd_table + bit (e FileType.unix_socket (Target.unix j) a)
    count e spares a = refs_open e s.fd_table i a FileType.unix_socket (Target.unix j) spares found

    own : Owned unix_end_at UnixCount fds s.unix_sockets
    own a u at = elim (ℕ_discrete j a) [
      | yes e ↦
          let here : get_elem? s.unix_sockets j ≡ some u = rw e at in
          rw (marked u here) (
            omega (
              arith,
              count unix_end_at (λ t k. refl) a,
              ap bit (==_refl a),
              held_none a e,
              one a e,
            ))
      | no ne ↦
          omega (arith, count unix_end_at (λ t k. refl) a, ap bit (==_ne j a ne), v.unix a u at)
    ]
      where
        held_none : (a : ℕ) → j ≡ a → refs (holds unix_end_at a) s.fd_table ≡ 0
        held_none a e = rw (← e) unheld

        one : (a : ℕ) → j ≡ a → bit (j == a) ≡ 1
        one a e = rw e (ap bit (==_refl a))

-- The slot that `join` marks, with the client's peer set after it.
abbrev joined : ℕ → ℕ → Vfs → Vfs
joined client_index i s =
    set_unix client_index (λ u. record u { peer = i })
      (set_unix i (λ u. record u { used = true; connected = true; peer = client_index }) s)

joined_marked :
    (c i : ℕ) (s : Vfs) (u : UnixSocket)
    → get_elem? (joined c i s).unix_sockets i ≡ some u
    → u.used ≡ true
unfolding set_unix
joined_marked c i s u at =
    elim (modify_cases (modify s.unix_sockets i marked) c i (λ x. record x { peer = i }) at) [
      | inl (e, x, was, is) ↦
          let was' = subst (λ k. get_elem? (modify s.unix_sockets i marked) k ≡ some x) e was in
          rw is (before x was')
      | inr (_, was) ↦ before u was
    ]
  where
    marked : UnixSocket → UnixSocket
    marked x = record x { used = true; connected = true; peer = c }

    before :
        (x : UnixSocket) → get_elem? (modify s.unix_sockets i marked) i ≡ some x → x.used ≡ true
    before x was = elim (modify_cases s.unix_sockets i i marked was) [
      | inl (_, y, _, is) ↦ rw is refl
      | inr (ne, _) ↦ absurd (ne refl)
    ]

join-IsSound : (c : ℕ) (s : Vfs) → IsSound s → IsSound (join c s).0
unfolding join
join-IsSound c s v = elim (Option-cases (first_where (λ u. not u.used) s.unix_sockets 0)) [
  | inl none_left ↦ rw (none_left, join) v
  | inr (i, slot) ↦ elim (Option-cases (free_fd (joined c i s).fd_table)) [
    | inl full ↦
        rw (slot, join)
          (rw (allocate_fd_full FileType.unix_socket (Target.unix i) (joined c i s) full)
            (ready i slot))
    | inr (k, found) ↦
        rw (slot, join)
          (rw (allocate_fd_found FileType.unix_socket (Target.unix i) (joined c i s) k found) (
            hold_unix-IsSound i k (joined c i s) (ready i slot) found (unix_free s v i slot).0
              (unheld i slot) (joined_marked c i s)))
  ]
]
  where
    ready :
        (i : ℕ) → first_where (λ u. not u.used) s.unix_sockets 0 ≡ some i → IsSound (joined c i s)
    ready i slot =
        set_unix-IsSound c _ _ (λ u. refl)
          (mark_unix-IsSound i _ s (λ u. refl) (unix_free s v i slot).1 v)

    unheld :
        (i : ℕ)
        → first_where (λ u. not u.used) s.unix_sockets 0 ≡ some i
        → refs (holds unix_end_at i) (joined c i s).fd_table ≡ 0
    unheld i slot = unfold set_unix in (unix_free s v i slot).1

is_unix_eq : (t : FileType) → is_unix t ≡ true → t ≡ FileType.unix_socket
is_unix_eq t h = ground arith

client_of_total : (fd : ℕ) (s : Vfs) → IsSound s → (r : Option ℕ) × (client_of fd s ≡ some r)
unfolding client_of
client_of_total fd s v = elim (Bool-cases (ltb fd max_fd)) [
  | inr out ↦ (none, rw out refl)
  | inl within ↦
      let (f, at) = get_elem?-lt s.fd_table fd (omega (arith, ltb→lt _ _ within, v.fd_size)) in
      elim (Bool-cases (is_unix f.type)) [
        | inr other ↦ (none, rw (within, at, client_of) (rw other refl))
        | inl is ↦
            let (j, u, e, _, _) = unix_of_total s fd f v at (is_unix_eq f.type is) in
            (some j, rw (within, at, client_of) (rw (is, e) refl))
      ]
]

take_pending-IsSafe : (fd : ℕ) (s : Vfs) → IsSound s → IsSafe (take_pending fd s)
unfolding take_pending
take_pending-IsSafe fd s v = chosen (client_of_total fd s v)
  where
    chosen : (r : Option ℕ) × (client_of fd s ≡ some r) → IsSafe (take_pending fd s)
    chosen (none, e) = rw (e, take_pending) (s, neg 11, refl, v)
    chosen (some c, e) = rw (e, take_pending) ((join c s).0, (join c s).1, refl, join-IsSound c s v)

pub unix_accept-IsSafe :
    (j : ℕ) (server : UnixSocket) (s : Vfs) → IsSound s → IsSafe (unix_accept j server s)
unfolding unix_accept
unix_accept-IsSafe j server s v =
    elim (Bool-cases (not server.listening || (server.pending == unix_socket_none))) [
      | inl nobody ↦ rw nobody (s, neg 11, refl, v)
      | inr somebody ↦
          rw somebody (take_pending-IsSafe server.pending _ (set_unix-IsSound j _ s (λ u. refl) v))
    ]

-- ===== src/Vfs/Ownership/Pipes.antt =====
-- `vfs_pipe` keeps the invariant.
use mazuki_os.Base.{
  ℕ, ◌+◌, ◌≡◌, refl, ap, sym, ◌∙◌, true, not, List, some, none, Option-cases, arith, ltb, lt→ltb,
  ==_refl, ==_ne, length, get_elem?, modify, modify_cases, modify-modify, length-modify, inl, inr,
  first_where, pos, neg,
}
use mazuki_os.Vfs.State.{
  Vfs, File, FileType, Target, Pipe, max_fd, pipe_count, open_as, free_fd, set_file, set_pipe,
}
use mazuki_os.Vfs.Pipe.{vfs_pipe, fresh_pipe, drop_pipe}
use mazuki_os.Vfs.Ownership.Refs.{
  bit, refs, End, holds, SparesEmpty, AllFit, Owned, IsSound, AllFit-modify, Owned-refs,
  Owned-modify, read_end_at, write_end_at, unix_end_at, inet_end_at, node_end_at, ReadersCount,
  WritersCount, UnixCount, InetCount, IsHeld,
}
use mazuki_os.Vfs.Ownership.Open.{
  refs_open, refs_closed, allocate_fd_full, allocate_fd_found, free_slot,
}

spares_read : SparesEmpty read_end_at
spares_read t j = refl

spares_write : SparesEmpty write_end_at
spares_write t j = refl

abbrev pub half_open : File → File
half_open f = record f { type = FileType.empty }

-- The three outcomes of `vfs_pipe` once a slot is found.
module _ (s : Vfs) (j : ℕ) (slot : first_where (λ p. not p.used) s.pipes 0 ≡ some j) where
  taken : Vfs
  taken = record s { pipes = modify s.pipes j fresh_pipe }

  pipe_no_reader :
      free_fd s.fd_table ≡ none
      → vfs_pipe s
        ≡ (record s { pipes = modify (modify s.pipes j fresh_pipe) j drop_pipe }, neg 24, none)
  unfolding vfs_pipe set_pipe taken
  pipe_no_reader e = ground (arith, allocate_fd_full FileType.pipe_read (Target.pipe j) taken e)

  module _ (i : ℕ) (first : free_fd s.fd_table ≡ some i) where
    abbrev reading : List File
    reading = modify s.fd_table i (λ _. open_as FileType.pipe_read (Target.pipe j))

    half : Vfs
    half = record s { fd_table = reading; pipes = modify s.pipes j fresh_pipe }

    pipe_no_writer :
        free_fd reading ≡ none
        → vfs_pipe s ≡ (
          record s {
            fd_table = modify reading i half_open;
            pipes = modify (modify s.pipes j fresh_pipe) j drop_pipe;
          },
          neg 24,
          none,
        )
    unfolding vfs_pipe set_pipe set_file taken half
    pipe_no_writer e = ground (
      arith,
      allocate_fd_found FileType.pipe_read (Target.pipe j) taken i first,
      allocate_fd_full FileType.pipe_write (Target.pipe j) half e,
    )

    pipe_opened :
        (k : ℕ)
        → free_fd reading ≡ some k
        → vfs_pipe s ≡ (
          record s {
            fd_table = modify reading k (λ _. open_as FileType.pipe_write (Target.pipe j));
            pipes = modify s.pipes j fresh_pipe;
          },
          pos 0,
          some (record { read_fd = i; write_fd = k }),
        )
    unfolding vfs_pipe set_pipe taken half
    pipe_opened k e = ground (
      arith,
      allocate_fd_found FileType.pipe_read (Target.pipe j) taken i first,
      allocate_fd_found FileType.pipe_write (Target.pipe j) half k e,
    )

-- A change of descriptors and pipes alone keeps the rest of the invariant.
pub IsSound-pipes :
    (s : Vfs) (fds : List File) (ps : List Pipe)
    → IsSound s
    → length fds ≡ max_fd
    → length ps ≡ pipe_count
    → AllFit fds
    → Owned read_end_at ReadersCount fds ps
    → Owned write_end_at WritersCount fds ps
    → ((j : ℕ) (p : Pipe) → get_elem? ps j ≡ some p → IsHeld p)
    → ((a : ℕ) → refs (holds unix_end_at a) fds ≡ refs (holds unix_end_at a) s.fd_table)
    → ((a : ℕ) → refs (holds inet_end_at a) fds ≡ refs (holds inet_end_at a) s.fd_table)
    → ((a : ℕ) → refs (holds node_end_at a) fds ≡ refs (holds node_end_at a) s.fd_table)
    → IsSound (record s { fd_table = fds; pipes = ps })
IsSound-pipes s fds ps v lf lp fit rd wr held us is ns = record {
  fd_size = lf;
  pipe_size_lem = lp;
  unix_size = v.unix_size;
  inet_size = v.inet_size;
  fit = fit;
  readers = rd;
  writers = wr;
  held = held;
  unix = Owned-refs unix_end_at UnixCount s.fd_table fds s.unix_sockets us v.unix;
  inet = Owned-refs inet_end_at InetCount s.fd_table fds s.inet_sockets is v.inet;
  nodes = λ a. omega (arith, ns a, v.nodes a);
  tiled = v.tiled;
}

module _ (s : Vfs) (v : IsSound s) (j : ℕ)
    (slot : first_where (λ p. not p.used) s.pipes 0 ≡ some j) where
  no_reader : refs (holds read_end_at j) s.fd_table ≡ 0
  no_reader =
      let (p, at, idle) = (free_slot (λ (p : Pipe). p.used) s.pipes slot).1 in
      v.readers j p at ∙ ground arith

  no_writer : refs (holds write_end_at j) s.fd_table ≡ 0
  no_writer =
      let (p, at, idle) = (free_slot (λ (p : Pipe). p.used) s.pipes slot).1 in
      v.writers j p at ∙ ground arith

  -- Taking the slot and giving it up again leaves it unused, with no ends.
  undone :
      (fds : List File)
      → length fds ≡ max_fd
      → AllFit fds
      → ((e : End) → SparesEmpty e → (a : ℕ) → refs (holds e a) fds ≡ refs (holds e a) s.fd_table)
      → IsSound
          (record s { fd_table = fds; pipes = modify (modify s.pipes j fresh_pipe) j drop_pipe })
  undone fds lf fit same = rw (modify-modify s.pipes j fresh_pipe drop_pipe) (
      IsSound-pipes s fds (modify s.pipes j (λ p. drop_pipe (fresh_pipe p))) v lf
        (length-modify s.pipes j (λ p. drop_pipe (fresh_pipe p)) ∙ v.pipe_size_lem) fit
        (Owned-modify read_end_at ReadersCount s.fd_table fds s.pipes j
          (λ p. drop_pipe (fresh_pipe p)) (λ k _. same read_end_at spares_read k)
          (λ p at. same read_end_at spares_read j ∙ no_reader) v.readers)
        (Owned-modify write_end_at WritersCount s.fd_table fds s.pipes j
          (λ p. drop_pipe (fresh_pipe p)) (λ k _. same write_end_at spares_write k)
          (λ p at. same write_end_at spares_write j ∙ no_writer) v.writers)
        (λ k p at. elim (modify_cases s.pipes j k (λ p. drop_pipe (fresh_pipe p)) at) [
          | inl (_, x, _, is) ↦ λ u. absurd (ground arith)
          | inr (_, was) ↦ v.held k p was
        ])
        (same unix_end_at (λ t k. refl)) (same inet_end_at (λ t k. refl))
        (same node_end_at (λ t k. refl)))

  -- Both ends open: the slot counts one of each.
  both_open :
      (i k : ℕ) (first : free_fd s.fd_table ≡ some i)
      → free_fd (reading s j slot i first) ≡ some k
      → IsSound (record s {
        fd_table =
            modify (reading s j slot i first) k (λ _. open_as FileType.pipe_write (Target.pipe j));
        pipes = modify s.pipes j fresh_pipe;
      })
  both_open i k first second =
      IsSound-pipes s fds (modify s.pipes j fresh_pipe) v
        (length-modify one k _ ∙ length-modify s.fd_table i _ ∙ v.fd_size)
        (length-modify s.pipes j fresh_pipe ∙ v.pipe_size_lem)
        (AllFit-modify one k write_end in_table
          (AllFit-modify s.fd_table i read_end in_table v.fit))
        (Owned-modify read_end_at ReadersCount s.fd_table fds s.pipes j fresh_pipe
          (λ a ne.
            omega (arith, count read_end_at spares_read a, ap bit (==_ne j a (λ e. ne (sym e)))))
          (λ p at. omega (arith, count read_end_at spares_read j, ap bit (==_refl j), no_reader))
          v.readers)
        (Owned-modify write_end_at WritersCount s.fd_table fds s.pipes j fresh_pipe
          (λ a ne.
            omega (arith, count write_end_at spares_write a, ap bit (==_ne j a (λ e. ne (sym e)))))
          (λ p at. omega (arith, count write_end_at spares_write j, ap bit (==_refl j), no_writer))
          v.writers)
        (λ a p at. elim (modify_cases s.pipes j a fresh_pipe at) [
          | inl (_, x, _, is) ↦ λ u. ground arith
          | inr (_, was) ↦ v.held a p was
        ])
        (λ a. omega (arith, count unix_end_at (λ t k. refl) a))
        (λ a. omega (arith, count inet_end_at (λ t k. refl) a))
        (λ a. omega (arith, count node_end_at (λ t k. refl) a))
    where
      read_end : File
      read_end = open_as FileType.pipe_read (Target.pipe j)

      write_end : File
      write_end = open_as FileType.pipe_write (Target.pipe j)

      one : List File
      one = modify s.fd_table i (λ _. read_end)

      fds : List File
      fds = modify one k (λ _. write_end)

      in_table : ltb j pipe_count ≡ true
      in_table =
          lt→ltb j pipe_count
            (omega (arith, (free_slot (λ (p : Pipe). p.used) s.pipes slot).0, v.pipe_size_lem))

      count :
          (e : End)
          → SparesEmpty e
          → (a : ℕ)
          → refs (holds e a) fds
            ≡ refs (holds e a) s.fd_table
              + bit (e FileType.pipe_read (Target.pipe j) a)
              + bit (e FileType.pipe_write (Target.pipe j) a)
      count e spares a = omega (
        arith,
        refs_open e one k a FileType.pipe_write (Target.pipe j) spares second,
        refs_open e s.fd_table i a FileType.pipe_read (Target.pipe j) spares first,
      )

abbrev shut : ℕ → File
shut j = half_open (open_as FileType.pipe_read (Target.pipe j))

-- `vfs_pipe` keeps the invariant, whether it opens two descriptors or undoes its work.
pub vfs_pipe-IsSound : (s : Vfs) → IsSound s → IsSound (vfs_pipe s).0
unfolding vfs_pipe
vfs_pipe-IsSound s v = elim (Option-cases (first_where (λ p. not p.used) s.pipes 0)) [
  | inl none_left ↦ rw (none_left, vfs_pipe) v
  | inr (j, slot) ↦ elim (Option-cases (free_fd s.fd_table)) [
    | inl full ↦
        rw (pipe_no_reader s j slot full)
          (undone s v j slot s.fd_table v.fd_size v.fit (λ e _ a. refl))
    | inr (i, first) ↦ elim (Option-cases (free_fd (reading s j slot i first))) [
      | inl full ↦ rw (pipe_no_writer s j slot i first full) (
          rw
            (modify-modify s.fd_table i (λ _. open_as FileType.pipe_read (Target.pipe j)) half_open)
            (undone s v j slot (modify s.fd_table i (λ _. shut j))
              (length-modify s.fd_table i (λ _. shut j) ∙ v.fd_size)
              (AllFit-modify s.fd_table i (shut j) refl v.fit)
              (λ e spares a. refs_closed e s.fd_table i a (shut j) spares first refl)))
      | inr (k, second) ↦
          rw (pipe_opened s j slot i first k second) (both_open s v j slot i k first second)
    ]
  ]
]

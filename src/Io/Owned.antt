-- ===== src/Io/Owned.antt =====
-- A node on the heap and the descriptor that holds it.
use mazuki_os.Base.{
  ℕ, ◌≤◌, ◌≡◌, refl, sym, ap, ◌∙◌, Bool, true, false, not, ◌&&◌, ◌||◌, some, arith, ◌==◌, ==_refl,
  ==_ne, modify, length-modify, ℕ_discrete, Option-cases, inl, inr,
}
use mazuki_os.Alloc.{Heap, alloc, alloc_free}
use mazuki_os.Alloc.Tiling.{IsTiled, alloc-IsTiled, alloc_free-IsTiled}
use mazuki_os.Alloc.Usage.{in_use, alloc-some, alloc-none, alloc_free-some, alloc_free_total}
use mazuki_os.Vfs.State.{Vfs, FileType, Target, open_as, free_fd, set_file}
use mazuki_os.Vfs.Ownership.Refs.{
  bit, refs, holds, IsSound, AllFit-modify, Owned-refs, read_end_at, write_end_at, unix_end_at,
  inet_end_at, node_end_at, ReadersCount, WritersCount, UnixCount, InetCount,
}
use mazuki_os.Vfs.Ownership.Open.{refs_open}
use mazuki_os.Io.State.{node_bytes}

-- Another heap in which the blocks in use still are.
pub heap-IsSound :
    (s : Vfs) (h : Heap)
    → IsSound s
    → IsTiled h
    → ((a : ℕ) → refs (holds node_end_at a) s.fd_table ≤ bit (in_use a h))
    → IsSound (record s { heap = h })
heap-IsSound s h v t own = record {
  fd_size = v.fd_size;
  pipe_size_lem = v.pipe_size_lem;
  unix_size = v.unix_size;
  inet_size = v.inet_size;
  fit = v.fit;
  readers = v.readers;
  writers = v.writers;
  held = v.held;
  unix = v.unix;
  inet = v.inet;
  nodes = own;
  tiled = t;
}

-- A free descriptor gets a node that no other descriptor holds.
pub open_node-IsSound :
    (s : Vfs) (i a : ℕ)
    → IsSound s
    → free_fd s.fd_table ≡ some i
    → in_use a s.heap ≡ true
    → refs (holds node_end_at a) s.fd_table ≡ 0
    → IsSound (set_file i (λ _. open_as FileType.vfs_file (Target.node a)) s)
unfolding set_file
open_node-IsSound s i a v found used alone =
    let to = open_as FileType.vfs_file (Target.node a) in
    let fds = modify s.fd_table i (λ _. to) in
    record {
      fd_size = length-modify s.fd_table i (λ _. to) ∙ v.fd_size;
      pipe_size_lem = v.pipe_size_lem;
      unix_size = v.unix_size;
      inet_size = v.inet_size;
      fit = AllFit-modify s.fd_table i to refl v.fit;
      readers =
          Owned-refs read_end_at ReadersCount s.fd_table fds s.pipes
            (λ j. omega (
              arith,
              refs_open read_end_at s.fd_table i j FileType.vfs_file (Target.node a) (λ t k. refl)
                  found,
            ))
            v.readers;
      writers =
          Owned-refs write_end_at WritersCount s.fd_table fds s.pipes
            (λ j. omega (
              arith,
              refs_open write_end_at s.fd_table i j FileType.vfs_file (Target.node a) (λ t k. refl)
                  found,
            ))
            v.writers;
      held = v.held;
      unix =
          Owned-refs unix_end_at UnixCount s.fd_table fds s.unix_sockets
            (λ j. omega (
              arith,
              refs_open unix_end_at s.fd_table i j FileType.vfs_file (Target.node a) (λ t k. refl)
                  found,
            ))
            v.unix;
      inet =
          Owned-refs inet_end_at InetCount s.fd_table fds s.inet_sockets
            (λ j. omega (
              arith,
              refs_open inet_end_at s.fd_table i j FileType.vfs_file (Target.node a) (λ t k. refl)
                  found,
            ))
            v.inet;
      nodes = held;
      tiled = v.tiled;
    }
  where
    held :
        (j : ℕ)
        → refs
            (holds node_end_at j)
            (modify s.fd_table i (λ _. open_as FileType.vfs_file (Target.node a)))
          ≤ bit (in_use j s.heap)
    held j =
        let moved =
          refs_open node_end_at s.fd_table i j FileType.vfs_file (Target.node a) (λ t k. refl)
            found in
        elim (ℕ_discrete a j) [
          | yes e ↦
              let all : refs (holds node_end_at j) s.fd_table ≡ 0 =
                ap (λ k. refs (holds node_end_at k) s.fd_table) (sym e) ∙ alone in
              let on : bit (in_use j s.heap) ≡ 1 =
                ap (λ k. bit (in_use k s.heap)) (sym e) ∙ ap bit used in
              let one : bit (a == j) ≤ 1 = ground arith in omega (arith, moved, all, on, one)
          | no ne ↦
              let none_more : bit (a == j) ≡ 0 = ap bit (==_ne a j ne) in
              omega (arith, moved, none_more, v.nodes j)
        ]

bit_or_le : (x y : Bool) → bit x ≤ bit (y || x)
bit_or_le x y = ground arith

-- A call of `malloc` for a node.
module _ (s : Vfs) (v : IsSound s) where
  abbrev heap' : Heap
  heap' = (alloc node_bytes s.heap).1

  tiled' : IsTiled heap'
  tiled' = alloc-IsTiled node_bytes s.heap (inr v.tiled)

  kept : (a : ℕ) → bit (in_use a s.heap) ≤ bit (in_use a heap')
  kept a = elim (Option-cases (alloc node_bytes s.heap).0) [
    | inl e ↦ rw ((alloc-none node_bytes s.heap v.tiled).1 e) (omega arith)
    | inr (p, e) ↦
        let (fresh, marks, room, above, below) = alloc-some node_bytes p s.heap v.tiled e in
        rw (marks a) (bit_or_le (in_use a s.heap) (p == a))
  ]

  pub alloc-IsSound : IsSound (record s { heap = heap' })
  alloc-IsSound = heap-IsSound s heap' v tiled' (λ a. omega (arith, v.nodes a, kept a))

  module _ (p : ℕ) (e : (alloc node_bytes s.heap).0 ≡ some p) where
    pub node_used : in_use p heap' ≡ true
    node_used =
        let (fresh, marks, room, above, below) = alloc-some node_bytes p s.heap v.tiled e in
        marks p ∙ ap (λ b. b || in_use p s.heap) (==_refl p)

    pub node_alone : refs (holds node_end_at p) s.fd_table ≡ 0
    node_alone =
        let (fresh, marks, room, above, below) = alloc-some node_bytes p s.heap v.tiled e in
        let none_before : bit (in_use p s.heap) ≡ 0 = ap bit fresh in
        omega (arith, v.nodes p, none_before)

    -- Freeing the node again gives a heap with the blocks in use that there were.
    pub node_freed :
        (h : Heap) × (alloc_free p heap' ≡ some h)
        × ((a : ℕ) → in_use a h ≡ in_use a s.heap)
        × IsSound (record s { heap = h })
    node_freed =
        let (fresh, marks, room, above, below) = alloc-some node_bytes p s.heap v.tiled e in
        let (h, freed) = alloc_free_total p heap' node_used in
        let same : (a : ℕ) → in_use a h ≡ in_use a s.heap =
          λ a. as_before a h (marks a) (alloc_free-some p a heap' tiled' freed) fresh in
        (
          h,
          freed,
          same,
          heap-IsSound s h v (alloc_free-IsTiled p heap' freed tiled')
              (λ a. rw (same a) (v.nodes a)),
        )
      where
        as_before :
            (a : ℕ) (h : Heap)
            → in_use a heap' ≡ ((p == a) || in_use a s.heap)
            → in_use a h ≡ (not (a == p) && in_use a heap')
            → in_use p s.heap ≡ false
            → in_use a h ≡ in_use a s.heap
        as_before a h m f fresh = elim (ℕ_discrete a p) [
          | yes same ↦
              f
              ∙ ap (λ x. not x && in_use a heap') (ap (λ k. k == p) same ∙ ==_refl p)
              ∙ sym (ap (λ k. in_use k s.heap) same ∙ fresh)
          | no ne ↦
              f
              ∙ ap (λ x. not x && in_use a heap') (==_ne a p ne)
              ∙ m
              ∙ ap (λ x. x || in_use a s.heap) (==_ne p a (λ z. ne (sym z)))
        ]

-- ===== src/Vfs/Ownership/Shut.antt =====
-- `vfs_close` meets no fault and keeps the invariant.
use mazuki_os.Base.{
  ℕ, ◌+◌, ◌≤◌, ◌<◌, ◌≡◌, refl, ap, sym, ◌∙◌, true, false, List, some, arith, ◌==◌, ==_refl, ==_ne,
  length, get_elem?, modify, modify_cases, length-modify, inl, inr,
}
use mazuki_os.Alloc.{Heap, alloc_free}
use mazuki_os.Alloc.Tiling.{IsTiled, alloc_free-IsTiled}
use mazuki_os.Alloc.Usage.{in_use, alloc_free-some}
use mazuki_os.Vfs.State.{Vfs, File, FileType, Target, max_fd, closed_file}
use mazuki_os.Vfs.Close.{close_reader, close_writer}
use mazuki_os.Vfs.Ownership.Refs.{
  bit, refs, refs-pos, refs-modify, End, holds, SparesEmpty, AllFit, IsSound, AllFit-modify,
  Owned-modify, Owned-refs, read_end_at, write_end_at, unix_end_at, inet_end_at, node_end_at,
  ReadersCount, WritersCount, UnixCount, InetCount,
}
use mazuki_os.Vfs.Ownership.Pipes.{IsSound-pipes}
use mazuki_os.Vfs.Ownership.Sockets.{IsSound-unix, IsSound-inet}

module _ (s : Vfs) (v : IsSound s) (n : ℕ) (f : File) (at : get_elem? s.fd_table n ≡ some f) where
  abbrev pub shut : List File
  shut = modify s.fd_table n (λ _. closed_file)

  -- Closing a descriptor takes one from the count of what it held.
  pub refs-shut :
      (e : End) (j : ℕ)
      → SparesEmpty e
      → refs (holds e j) shut + bit (holds e j f) ≡ refs (holds e j) s.fd_table
  refs-shut e j spares =
      let moved = refs-modify (holds e j) s.fd_table n (λ _. closed_file) f at in
      omega (arith, ap bit (spares Target.null j))

  -- Nothing changes for what it did not hold.
  pub refs_spared :
      (e : End) (j : ℕ)
      → SparesEmpty e
      → holds e j f ≡ false
      → refs (holds e j) shut ≡ refs (holds e j) s.fd_table
  refs_spared e j spares no_hold = omega (arith, refs-shut e j spares, ap bit no_hold)

  pub length-shut : length shut ≡ max_fd
  length-shut = length-modify s.fd_table n _ ∙ v.fd_size

  pub AllFit-shut : AllFit shut
  AllFit-shut = AllFit-modify s.fd_table n closed_file refl v.fit

  module _ (j : ℕ) (is : f.type ≡ FileType.pipe_read) (on : f.private_data ≡ Target.pipe j) where
    pub shut_reader : IsSound (record s { fd_table = shut; pipes = modify s.pipes j close_reader })
    shut_reader =
        IsSound-pipes s shut (modify s.pipes j close_reader) v length-shut
          (length-modify s.pipes j close_reader ∙ v.pipe_size_lem) AllFit-shut
          (Owned-modify read_end_at ReadersCount s.fd_table shut s.pipes j close_reader
            (λ a ne.
              refs_spared read_end_at a (λ t k. refl) (reads_at a ∙ ==_ne j a (λ e. ne (sym e))))
            (λ p here. ground (arith, v.readers j p here, one_less, some_left)) v.readers)
          (Owned-modify write_end_at WritersCount s.fd_table shut s.pipes j close_reader
            (λ a _. refs_spared write_end_at a (λ t k. refl) (rw is))
            (λ p here.
              refs_spared write_end_at j (λ t k. refl) (rw is) ∙ ground (arith, v.writers j p here))
            v.writers)
          (λ a p here. elim (modify_cases s.pipes j a close_reader here) [
            | inl (_, x, _, same) ↦ rw same (λ u. ground arith)
            | inr (_, was) ↦ v.held a p was
          ])
          (λ a. refs_spared unix_end_at a (λ t k. refl) (rw is))
          (λ a. refs_spared inet_end_at a (λ t k. refl) (rw is))
          (λ a. refs_spared node_end_at a (λ t k. refl) (rw is))
      where
        reads_at : (a : ℕ) → holds read_end_at a f ≡ (j == a)
        reads_at a = rw (is, on)

        one_less : refs (holds read_end_at j) shut + 1 ≡ refs (holds read_end_at j) s.fd_table
        one_less =
            omega (arith, refs-shut read_end_at j (λ t k. refl), ap bit (reads_at j ∙ ==_refl j))

        some_left : 0 < refs (holds read_end_at j) s.fd_table
        some_left = omega (arith, one_less)

  module _ (j : ℕ) (is : f.type ≡ FileType.pipe_write) (on : f.private_data ≡ Target.pipe j) where
    pub shut_writer : IsSound (record s { fd_table = shut; pipes = modify s.pipes j close_writer })
    shut_writer =
        IsSound-pipes s shut (modify s.pipes j close_writer) v length-shut
          (length-modify s.pipes j close_writer ∙ v.pipe_size_lem) AllFit-shut
          (Owned-modify read_end_at ReadersCount s.fd_table shut s.pipes j close_writer
            (λ a _. refs_spared read_end_at a (λ t k. refl) (rw is))
            (λ p here.
              refs_spared read_end_at j (λ t k. refl) (rw is) ∙ ground (arith, v.readers j p here))
            v.readers)
          (Owned-modify write_end_at WritersCount s.fd_table shut s.pipes j close_writer
            (λ a ne.
              refs_spared write_end_at a (λ t k. refl) (writes_at a ∙ ==_ne j a (λ e. ne (sym e))))
            (λ p here. ground (arith, v.writers j p here, one_less, some_left)) v.writers)
          (λ a p here. elim (modify_cases s.pipes j a close_writer here) [
            | inl (_, x, _, same) ↦ rw same (λ u. ground arith)
            | inr (_, was) ↦ v.held a p was
          ])
          (λ a. refs_spared unix_end_at a (λ t k. refl) (rw is))
          (λ a. refs_spared inet_end_at a (λ t k. refl) (rw is))
          (λ a. refs_spared node_end_at a (λ t k. refl) (rw is))
      where
        writes_at : (a : ℕ) → holds write_end_at a f ≡ (j == a)
        writes_at a = rw (is, on)

        one_less : refs (holds write_end_at j) shut + 1 ≡ refs (holds write_end_at j) s.fd_table
        one_less =
            omega (arith, refs-shut write_end_at j (λ t k. refl), ap bit (writes_at j ∙ ==_refl j))

        some_left : 0 < refs (holds write_end_at j) s.fd_table
        some_left = omega (arith, one_less)

  module _ (j : ℕ) (is : f.type ≡ FileType.inet_socket) (on : f.private_data ≡ Target.inet j) where
    pub shut_inet : IsSound (record s {
      fd_table = shut;
      inet_sockets = modify s.inet_sockets j (λ d. record d { used = false });
    })
    shut_inet =
        IsSound-inet s shut (modify s.inet_sockets j _) v length-shut
          (length-modify s.inet_sockets j _ ∙ v.inet_size) AllFit-shut
          (Owned-modify inet_end_at InetCount s.fd_table shut s.inet_sockets j _
            (λ a ne.
              refs_spared inet_end_at a (λ t k. refl) (holds_at a ∙ ==_ne j a (λ e. ne (sym e))))
            (λ d here. ground (arith, v.inet j d here, one_less)) v.inet)
          (λ a. refs_spared read_end_at a (λ t k. refl) (rw is))
          (λ a. refs_spared write_end_at a (λ t k. refl) (rw is))
          (λ a. refs_spared unix_end_at a (λ t k. refl) (rw is))
          (λ a. refs_spared node_end_at a (λ t k. refl) (rw is))
      where
        holds_at : (a : ℕ) → holds inet_end_at a f ≡ (j == a)
        holds_at a = rw (is, on)

        one_less : refs (holds inet_end_at j) shut + 1 ≡ refs (holds inet_end_at j) s.fd_table
        one_less =
            omega (arith, refs-shut inet_end_at j (λ t k. refl), ap bit (holds_at j ∙ ==_refl j))

  module _ (j : ℕ) (is : f.type ≡ FileType.unix_socket) (on : f.private_data ≡ Target.unix j) where
    pub shut_unix : IsSound (record s {
      fd_table = shut;
      unix_sockets = modify s.unix_sockets j (λ u. record u { used = false });
    })
    shut_unix =
        IsSound-unix s shut (modify s.unix_sockets j _) v length-shut
          (length-modify s.unix_sockets j _ ∙ v.unix_size) AllFit-shut
          (Owned-modify unix_end_at UnixCount s.fd_table shut s.unix_sockets j _
            (λ a ne.
              refs_spared unix_end_at a (λ t k. refl) (holds_at a ∙ ==_ne j a (λ e. ne (sym e))))
            (λ u here. ground (arith, v.unix j u here, one_less)) v.unix)
          (λ a. refs_spared read_end_at a (λ t k. refl) (rw is))
          (λ a. refs_spared write_end_at a (λ t k. refl) (rw is))
          (λ a. refs_spared inet_end_at a (λ t k. refl) (rw is))
          (λ a. refs_spared node_end_at a (λ t k. refl) (rw is))
      where
        holds_at : (a : ℕ) → holds unix_end_at a f ≡ (j == a)
        holds_at a = rw (is, on)

        one_less : refs (holds unix_end_at j) shut + 1 ≡ refs (holds unix_end_at j) s.fd_table
        one_less =
            omega (arith, refs-shut unix_end_at j (λ t k. refl), ap bit (holds_at j ∙ ==_refl j))

  -- Closing a descriptor that holds no entry of the three tables, with the heap given.
  pub shut_node :
      (h : Heap)
      → ((a : ℕ) → holds read_end_at a f ≡ false)
        × ((a : ℕ) → holds write_end_at a f ≡ false)
        × ((a : ℕ) → holds unix_end_at a f ≡ false)
        × ((a : ℕ) → holds inet_end_at a f ≡ false)
      → IsTiled h
      → ((a : ℕ) → refs (holds node_end_at a) shut ≤ bit (in_use a h))
      → IsSound (record s { fd_table = shut; heap = h })
  shut_node h free t own = record {
    fd_size = length-shut;
    pipe_size_lem = v.pipe_size_lem;
    unix_size = v.unix_size;
    inet_size = v.inet_size;
    fit = AllFit-shut;
    readers =
        Owned-refs read_end_at ReadersCount s.fd_table shut s.pipes
          (λ a. refs_spared read_end_at a (λ t k. refl) (free.0 a)) v.readers;
    writers =
        Owned-refs write_end_at WritersCount s.fd_table shut s.pipes
          (λ a. refs_spared write_end_at a (λ t k. refl) (free.1 a)) v.writers;
    held = v.held;
    unix =
        Owned-refs unix_end_at UnixCount s.fd_table shut s.unix_sockets
          (λ a. refs_spared unix_end_at a (λ t k. refl) (free.2 a)) v.unix;
    inet =
        Owned-refs inet_end_at InetCount s.fd_table shut s.inet_sockets
          (λ a. refs_spared inet_end_at a (λ t k. refl) (free.3 a)) v.inet;
    nodes = own;
    tiled = t;
  }

  module _ (is : f.type ≡ FileType.vfs_file) (a : ℕ) (on : f.private_data ≡ Target.node a) where
    pub node_used : in_use a s.heap ≡ true
    node_used = ground (
      arith,
      v.nodes a,
      refs-pos (holds node_end_at a) s.fd_table n f at (rw (is, on) (==_refl a)),
    )

    pub shut_file :
        (h : Heap) → alloc_free a s.heap ≡ some h → IsSound (record s { fd_table = shut; heap = h })
    shut_file h e =
        shut_node h ((λ k. rw is), (λ k. rw is), (λ k. rw is), (λ k. rw is))
          (alloc_free-IsTiled a s.heap e v.tiled) own
      where
        own : (k : ℕ) → refs (holds node_end_at k) shut ≤ bit (in_use k h)
        own k =
            let holds_at : holds node_end_at k f ≡ (a == k) = rw (is, on) in
            ground (
              arith,
              alloc_free-some a k s.heap v.tiled e,
              refs-shut node_end_at k (λ t k. refl),
              holds_at,
              v.nodes k,
            )

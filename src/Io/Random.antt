-- ===== src/Io/Random.antt =====
-- /dev/random as one stream of bytes.
use mazuki_os.Base.{
  ℕ, zero, suc, ◌+◌, ◌/◌, ◌%◌, ◌^◌, ◌<◌, ◌≡◌, refl, sym, ap, subst, ◌∙◌, some, List, ◌∷◌, ◌++◌,
  arith, get_elem?, ℤ, pos, negsuc, signed32_small, get_elem?-modify, ==_refl,
}
use mazuki_os.Vfs.State.{File, FileType, Target, set_file, max_fd}
use mazuki_os.Io.State.{VfsNode, Kernel, dev_random_read}
use mazuki_os.Io.Devtmpfs.{random_bytes, random_read, next_random}
use mazuki_os.Io.Transfer.{call_read, read_file, read_as, vfs_read, move_offset}
use mazuki_os.Io.Text.{lookup_open}

random_bytes-add :
    (m n r : ℕ)
    → random_bytes (m + n) r ≡ (
      (random_bytes m r).0 ++ (random_bytes n (random_bytes m r).1).0,
      (random_bytes n (random_bytes m r).1).1,
    )
unfolding random_bytes
random_bytes-add zero n r = ap (λ k. random_bytes k r) (omega arith)
random_bytes-add (suc m) n r =
    ap (λ k. random_bytes k r) {x = suc m + n} {y = suc (m + n)} (omega arith)
    ∙ ap (λ (p : List ℕ × ℕ). (next_random r / 2 ^ 24 % 256 ∷ p.0, p.1))
        (random_bytes-add m n (next_random r))

-- The descriptor is open on a node of /dev/random.
pub record IsRandom (k : Kernel) (n a : ℕ) : Type 0 where
  pub in_table : n < max_fd
  pub at :
      (f : File) × (get_elem? k.vfs.fd_table n ≡ some f)
      × (f.type ≡ FileType.vfs_file)
      × (f.private_data ≡ Target.node a)
  pub shows : (k.nodes a).read ≡ dev_random_read

-- The state behind a read of `m` bytes.
abbrev behind : ℕ → Kernel → Kernel
behind m k = record k { random_state = (random_bytes m k.random_state).1 }

vfs_read-IsRandom :
    (k : Kernel) (n a m : ℕ)
    → IsRandom k n a
    → m < 2 ^ 31
    → vfs_read (pos n) m k
      ≡ some (move_offset n (pos m) (behind m k), (pos m, (random_bytes m k.random_state).0))
unfolding vfs_read read_as read_file call_read random_read
vfs_read-IsRandom k n a m v h =
    let (f, at, type, node) = v.at in
    rw
      (
        lookup_open k.vfs n v.in_table at,
        vfs_read,
        type,
        read_file,
        node,
        v.shows,
        signed32_small m h,
      )
      refl

moved_state : (n : ℕ) (r : ℤ) (k : Kernel) → (move_offset n r k).random_state ≡ k.random_state
moved_state n (pos zero) k = refl
moved_state n (pos (suc m)) k = refl
moved_state n (negsuc e) k = refl

IsRandom-moved :
    (k k' : Kernel) (n a m : ℕ)
    → IsRandom k n a
    → k'.vfs.fd_table ≡ k.vfs.fd_table
    → k'.nodes ≡ k.nodes
    → IsRandom (move_offset n (pos m) k') n a
unfolding set_file
IsRandom-moved k k' n a zero v e g = record {
  in_table = v.in_table;
  at =
      subst
        (λ t.
          (f : File) × (get_elem? t n ≡ some f)
          × (f.type ≡ FileType.vfs_file)
          × (f.private_data ≡ Target.node a))
        (sym e) v.at;
  shows = ap (λ (h : ℕ → VfsNode). (h a).read) g ∙ v.shows;
}
IsRandom-moved k k' n a (suc m) v e g =
    let (f, at, type, node) = v.at in
    let move = λ (f : File). record f { offset = (f.offset + suc m) % 2 ^ 32 } in
    record {
      in_table = v.in_table;
      at = (
        move f,
        rw (get_elem?-modify k'.vfs.fd_table n n move, ==_refl n, e, at) refl,
        type,
        node,
      );
      shows = ap (λ (h : ℕ → VfsNode). (h a).read) g ∙ v.shows;
    }

-- Two reads of /dev/random, of `m` and then of `n` bytes, give the bytes that one read of `m + n`
-- bytes gives, and leave the generator in the same state.
pub vfs_read-random :
    (m n fd a : ℕ) (k : Kernel)
    → IsRandom k fd a
    → m + n < 2 ^ 31
    → (k' k'' one : Kernel) × (xs ys : List ℕ) × (vfs_read (pos fd) m k ≡ some (k', (pos m, xs)))
      × (vfs_read (pos fd) n k' ≡ some (k'', (pos n, ys)))
      × (vfs_read (pos fd) (m + n) k ≡ some (one, (pos (m + n), xs ++ ys)))
      × (one.random_state ≡ k''.random_state)
vfs_read-random m n fd a k v h =
    let k' = move_offset fd (pos m) (behind m k) in
    let state : k'.random_state ≡ (random_bytes m k.random_state).1 =
      moved_state fd (pos m) (behind m k) in
    let w = IsRandom-moved k (behind m k) fd a m v refl refl in
    let all = random_bytes-add m n k.random_state in
    (
      k',
      move_offset fd (pos n) (behind n k'),
      move_offset fd (pos (m + n)) (behind (m + n) k),
      (random_bytes m k.random_state).0,
      (random_bytes n k'.random_state).0,
      vfs_read-IsRandom k fd a m v (omega arith),
      vfs_read-IsRandom k' fd a n w (omega arith),
      vfs_read-IsRandom k fd a (m + n) v h
          ∙ ap
              (λ bytes.
                some (move_offset fd (pos (m + n)) (behind (m + n) k), (pos (m + n), bytes)))
              (ap (λ (p : List ℕ × ℕ). p.0) all
                ∙ ap (λ r. (random_bytes m k.random_state).0 ++ (random_bytes n r).0) (sym state)),
      moved_state fd (pos (m + n)) (behind (m + n) k)
          ∙ ap (λ (p : List ℕ × ℕ). p.1) all
          ∙ ap (λ r. (random_bytes n r).1) (sym state)
          ∙ sym (moved_state fd (pos n) (behind n k')),
    )

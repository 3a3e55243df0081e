-- ===== src/Io/Again.antt =====
-- Files of the block file system behind a descriptor.
use mazuki_os.Base.{
  ℕ, zero, suc, ◌+◌, ◌%◌, ◌^◌, ◌≤◌, ◌<◌, ◌≡◌, refl, ap, ◌∙◌, none, some, Option, List, [], ◌∷◌,
  replicate, arith, length, get_elem?, take, pos, get_elem?-modify, ==_refl, length-take,
}
use mazuki_os.Filesystem.{FileEntry, Filesystem, fs_read, fs_write}
use mazuki_os.Filesystem.Invariant.{IsSound, IsFile}
use mazuki_os.Filesystem.Files.{fs_read-fs_write}
use mazuki_os.Vfs.State.{File, FileType, Target, set_file, max_fd}
use mazuki_os.Io.State.{Kernel, ◌>>=◌, set_node, ramfs_read, ramfs_write}
use mazuki_os.Io.Ramfs.{file_read, file_write, size_at, table_bytes}
use mazuki_os.Io.Transfer.{
  call_read, call_write, read_file, write_file, read_as, write_as, vfs_read, vfs_write, move_offset,
}
use mazuki_os.Io.Text.{lookup_open, read_to_end}

-- The descriptor is open on the node of the entry `i` of the file table.
pub record IsFileOpen (k : Kernel) (n a i : ℕ) : Type 0 where
  pub in_table : n < max_fd
  pub at :
      (f : File) × (get_elem? k.vfs.fd_table n ≡ some f)
      × (f.type ≡ FileType.vfs_file)
      × (f.private_data ≡ Target.node a)
  pub reads : (k.nodes a).read ≡ ramfs_read
  pub writes : (k.nodes a).write ≡ ramfs_write
  pub id : (k.nodes a).internal_id ≡ pos i

vfs_read-IsFileOpen :
    (k : Kernel) (n a i c : ℕ) {bytes : List ℕ}
    → IsFileOpen k n a i
    → fs_read i c k.files ≡ some bytes
    → vfs_read (pos n) c k
      ≡ some (move_offset n (pos (length bytes)) k, (pos (length bytes), bytes))
unfolding vfs_read read_as read_file call_read file_read
vfs_read-IsFileOpen k n a i c v e =
    let (f, at, type, node) = v.at in
    rw
      (
        lookup_open k.vfs n v.in_table at,
        vfs_read,
        type,
        read_file,
        node,
        v.reads,
        v.id,
        file_read,
        e,
      )
      refl

-- What a call leaves when the entry, the node's functions and the other descriptors stay.
IsFileOpen-moved :
    (k k' : Kernel) (n a i m : ℕ)
    → IsFileOpen k n a i
    → k'.vfs.fd_table ≡ k.vfs.fd_table
    → (k'.nodes a).read ≡ (k.nodes a).read
    → (k'.nodes a).write ≡ (k.nodes a).write
    → (k'.nodes a).internal_id ≡ (k.nodes a).internal_id
    → IsFileOpen (move_offset n (pos m) k') n a i
unfolding set_file
IsFileOpen-moved k k' n a i zero v e r w d =
    let (f, at, type, node) = v.at in
    record {
      in_table = v.in_table;
      at = (f, rw (e, at) refl, type, node);
      reads = r ∙ v.reads;
      writes = w ∙ v.writes;
      id = d ∙ v.id;
    }
IsFileOpen-moved k k' n a i (suc m) v e r w d =
    let (f, at, type, node) = v.at in
    let move = λ (f : File). record f { offset = (f.offset + suc m) % 2 ^ 32 } in
    record {
      in_table = v.in_table;
      at = (
        move f,
        rw (get_elem?-modify k'.vfs.fd_table n n move, ==_refl n, e, at) refl,
        type,
        node,
      );
      reads = r ∙ v.reads;
      writes = w ∙ v.writes;
      id = d ∙ v.id;
    }

moved_files : (n m : ℕ) (k : Kernel) → (move_offset n (pos m) k).files ≡ k.files
moved_files n zero k = refl
moved_files n (suc m) k = refl

-- A program that calls `vfs_read` so many times: the bytes of each call.
abbrev pub read_times : ℕ → ℕ → ℕ → Kernel → Option (Kernel × List (List ℕ))
read_times zero n c k = some (k, [])
read_times (suc calls) n c k =
    vfs_read (pos n) c k >>= λ r. read_times calls n c r.0 >>= λ rest. some (rest.0, r.1.1 ∷ rest.1)

-- If a first read of `c` bytes from a file of the block file system behind an open descriptor gives
-- any, then each of any number of such calls returns, and gives the same first bytes again. A program that reads until a
-- call gives no bytes therefore never comes to its end, however many calls it makes.
pub read_to_end_endless :
    (calls n a i c : ℕ) (k : Kernel) (x : ℕ) (bytes : List ℕ)
    → IsFileOpen k n a i
    → fs_read i c k.files ≡ some (x ∷ bytes)
    → (k' : Kernel) × (read_times calls n c k ≡ some (k', replicate calls (x ∷ bytes)))
      × (read_to_end calls n c k ≡ none)
unfolding read_to_end
read_to_end_endless zero n a i c k x bytes v e = (k, refl, refl)
read_to_end_endless (suc calls) n a i c k x bytes v e =
    let m = length (x ∷ bytes) in
    let (k', again, endless) =
      read_to_end_endless calls n a i c (move_offset n (pos m) k) x bytes
        (IsFileOpen-moved k k n a i m v refl refl refl refl) (rw (moved_files n m k) e) in
    (
      k',
      rw (vfs_read-IsFileOpen k n a i c v e, again) refl,
      rw (vfs_read-IsFileOpen k n a i c v e, endless) refl,
    )

-- The kernel behind a write of `w` bytes.
abbrev behind : ℕ → ℕ → Filesystem → ℕ → ℕ → Kernel → Kernel
behind n a fs w size k =
    move_offset n (pos w)
      (set_node a (record (k.nodes a) { size = size }) (record k { files = fs }))

vfs_write-IsFileOpen :
    (k : Kernel) (n a i : ℕ) (buffer : List ℕ) {fs : Filesystem} {w : ℕ}
    → IsFileOpen k n a i
    → fs_write i buffer k.files ≡ some (fs, w)
    → vfs_write (pos n) buffer k
      ≡ some (behind n a fs w (size_at i (table_bytes fs.file_table)) k, pos w)
unfolding vfs_write write_as write_file call_write file_write
vfs_write-IsFileOpen k n a i buffer v e =
    let (f, at, type, node) = v.at in
    rw
      (
        lookup_open k.vfs n v.in_table at,
        vfs_write,
        type,
        write_file,
        node,
        v.writes,
        v.id,
        file_write,
        e,
      )
      refl

behind-IsFileOpen :
    (k : Kernel) (n a i w size : ℕ) (fs : Filesystem)
    → IsFileOpen k n a i
    → IsFileOpen (behind n a fs w size k) n a i
behind-IsFileOpen k n a i w size fs v =
    IsFileOpen-moved k (set_node a (record (k.nodes a) { size = size }) (record k { files = fs })) n
      a i w v refl (rw (==_refl a) refl) (rw (==_refl a) refl) (rw (==_refl a) refl)

-- A write to a descriptor that is open on a file in use returns the number `w` of bytes that it
-- stored. A read of `m ≤ w` bytes from the same descriptor then returns the first `m` bytes written:
-- the descriptor's offset plays no part.
pub vfs_read-vfs_write :
    (n a i : ℕ) (buffer : List ℕ) (k : Kernel) (f : FileEntry)
    → IsFileOpen k n a i
    → IsSound k.files
    → IsFile k.files.file_table i f
    → (k' : Kernel) × (w : ℕ) × (vfs_write (pos n) buffer k ≡ some (k', pos w))
      × (w ≤ length buffer)
      × IsFileOpen k' n a i
      × ((m : ℕ)
          → m ≤ w
          → (k'' : Kernel) × (vfs_read (pos n) m k' ≡ some (k'', (pos m, take m buffer))))
vfs_read-vfs_write n a i buffer k f v sound file =
    let (fs, g, w, wrote, count, reads, there, full) =
      fs_read-fs_write i buffer k.files f sound file in
    let size = size_at i (table_bytes fs.file_table) in
    let k' = behind n a fs w size k in
    let still = behind-IsFileOpen k n a i w size fs v in
    (
      k',
      w,
      vfs_write-IsFileOpen k n a i buffer v wrote,
      count,
      still,
      λ m le.
          let here : length (take m buffer) ≡ m = omega (arith, length-take m buffer, le, count) in
          (
            move_offset n (pos (length (take m buffer))) k',
            vfs_read-IsFileOpen k' n a i m still (rw (moved_files n w _) (reads m le))
                ∙ ap
                    (λ j.
                      some
                        (move_offset n (pos (length (take m buffer))) k', (pos j, take m buffer)))
                    here,
          ),
    )

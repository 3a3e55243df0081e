-- ===== src/Io/Tests.antt =====
-- Witnesses for the calls on files, on a kernel that has just been started.
use mazuki_os.Base.{
  ℕ, ◌≡◌, ◌≤◌, refl, inl, none, some, true, List, [], ◌∷◌, ◌++◌, arith, length, take, codes,
  replicate, pos, ℤ, first_where,
}
use mazuki_os.Filesystem.{
  FileEntry, zeroed_filesystem, zeroed_entry, fs_create, fs_read, read_blocks, load,
}
use mazuki_os.Filesystem.Invariant.{IsFile}
use mazuki_os.Filesystem.Operations.{fs_create-IsSound}
use mazuki_os.Filesystem.History.{zeroed-IsSound}
use mazuki_os.Vfs.State.{FileType, Target, open_as}
use mazuki_os.Io.State.{
  VfsNode, Kernel, c_string, ramfs_read, ramfs_write, procfs_version_read, dev_random_read,
}
use mazuki_os.Io.Procfs.{version_data}
use mazuki_os.Io.Open.{vfs_open}
use mazuki_os.Io.Transfer.{vfs_read, vfs_write}
use mazuki_os.Io.Text.{IsOpen, read_to_end, read_to_end_lem}
use mazuki_os.Io.Random.{vfs_read-random}
use mazuki_os.Io.Again.{IsFileOpen, read_times, read_to_end_endless, vfs_read-vfs_write}
use mazuki_os.Io.Safe.{Outcome, vfs_open-Outcome}
use mazuki_os.Io.Boot.{booted, booted-IsReady, no_node}
use mazuki_os.Io.Samples.{blank_tty, holding_node}

version-IsOpen :
    IsOpen (holding_node (record no_node { read = procfs_version_read })) 3 64 0 version_data
version-IsOpen = record {
  in_table = omega arith;
  at = refl;
  shows = inl (refl, refl);
  within = omega arith;
}

read_to_end_lem_example :
    let k = holding_node (record no_node { read = procfs_version_read }) in
    (k' : Kernel) × (read_to_end 60 3 10 k ≡ some (k', version_data))
    × IsOpen k' 3 64 (length version_data) version_data
read_to_end_lem_example =
    read_to_end_lem 60 3 64 10 0 version_data
      (holding_node (record no_node { read = procfs_version_read })) version-IsOpen (omega arith)
      (omega arith) (omega arith)

vfs_read-random_example :
    let k = holding_node (record no_node { read = dev_random_read }) in
    (k' k'' one : Kernel) × (xs ys : List ℕ) × (vfs_read (pos 3) 2 k ≡ some (k', (pos 2, xs)))
    × (vfs_read (pos 3) 5 k' ≡ some (k'', (pos 5, ys)))
    × (vfs_read (pos 3) 7 k ≡ some (one, (pos 7, xs ++ ys)))
    × (one.random_state ≡ k''.random_state)
vfs_read-random_example =
    vfs_read-random 2 5 3 64 (holding_node (record no_node { read = dev_random_read }))
      (record {
        in_table = omega arith;
        at = (open_as FileType.vfs_file (Target.node 64), refl, refl, refl);
        shows = refl;
      })
      (omega arith)

-- A node of the block file system, for entry 0.
abbrev file_node_0 : VfsNode
file_node_0 = record no_node { read = ramfs_read; write = ramfs_write }

-- One file with one byte in block 0.
abbrev one_byte_file : FileEntry
one_byte_file = record {
  name = b'a' ∷ replicate 31 0;
  size = 1;
  blocks = some 0 ∷ replicate 9 none;
  used = true;
}

abbrev one_byte_kernel : Kernel
one_byte_kernel = record (holding_node file_node_0) {
  files = record {
    disk = λ p. 9;
    block_bitmap = 1 ∷ replicate 255 0;
    file_table = one_byte_file ∷ replicate 63 zeroed_entry;
  };
}

read_to_end_endless_example :
    (k' : Kernel) × (read_times 100 3 1 one_byte_kernel ≡ some (k', replicate 100 (9 ∷ [])))
    × (read_to_end 100 3 1 one_byte_kernel ≡ none)
unfolding fs_read read_blocks load
read_to_end_endless_example =
    read_to_end_endless 100 3 64 0 1 one_byte_kernel 9 []
      (record {
        in_table = omega arith;
        at = (open_as FileType.vfs_file (Target.node 64), refl, refl, refl);
        reads = refl;
        writes = refl;
        id = refl;
      })
      refl

abbrev one_file_kernel : Kernel
one_file_kernel = record (holding_node file_node_0) {
  files = (fs_create (b'a' ∷ []) zeroed_filesystem).0;
}

one_file-IsFileOpen : IsFileOpen one_file_kernel 3 64 0
one_file-IsFileOpen = record {
  in_table = omega arith;
  at = (open_as FileType.vfs_file (Target.node 64), refl, refl, refl);
  reads = refl;
  writes = refl;
  id = refl;
}

one_file_there :
    IsFile one_file_kernel.files.file_table 0
      (record { name = b'a' ∷ replicate 31 0; size = 0; blocks = replicate 10 none; used = true })
unfolding fs_create zeroed_filesystem first_where
one_file_there = (refl, refl)

vfs_read-vfs_write_example :
    (k' : Kernel) × (w : ℕ) × (vfs_write (pos 3) (5 ∷ 6 ∷ []) one_file_kernel ≡ some (k', pos w))
    × (w ≤ 2)
    × IsFileOpen k' 3 64 0
    × ((m : ℕ)
        → m ≤ w
        → (k'' : Kernel) × (vfs_read (pos 3) m k' ≡ some (k'', (pos m, take m (5 ∷ 6 ∷ [])))))
vfs_read-vfs_write_example =
    vfs_read-vfs_write 3 64 0 (5 ∷ 6 ∷ []) one_file_kernel
      (record { name = b'a' ∷ replicate 31 0; size = 0; blocks = replicate 10 none; used = true })
      one_file-IsFileOpen (fs_create-IsSound (b'a' ∷ []) zeroed_filesystem zeroed-IsSound)
      one_file_there

vfs_open-Outcome_example :
    (r : Kernel × ℤ) × (vfs_open (c_string (codes "/dev/full")) (booted blank_tty) ≡ some r)
    × Outcome (booted blank_tty) r
vfs_open-Outcome_example =
    vfs_open-Outcome (booted blank_tty) (codes "/dev/full") (c_string (codes "/dev/full"))
      (booted-IsReady blank_tty) (search arith)

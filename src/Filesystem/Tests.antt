-- ===== src/Filesystem/Tests.antt =====
-- Witnesses for filesystem.c, on the zeroed disk and with one file created on it.
use mazuki_os.Base.{
  ℕ, zero, suc, get_elem?-replicate, ◌≡◌, ◌≢◌, ◌⊎◌, ◌≤◌, ◌<◌, refl, arith, true, false, none, some,
  [], ◌∷◌, List, min, take, replicate, length, get_elem?, first_where,
}
use mazuki_os.Filesystem.{
  FileEntry, Filesystem, zeroed_entry, zeroed_filesystem, fs_create, fs_write, fs_read,
}
use mazuki_os.Filesystem.Invariant.{IsFile, IsSound}
use mazuki_os.Filesystem.Operations.{fs_create-IsSound, fs_write-IsSound}
use mazuki_os.Filesystem.History.{zeroed-IsSound, Reach, Step, Reach-IsSound}
use mazuki_os.Filesystem.Names.{HasNames, IsNew}
use mazuki_os.Filesystem.Files.{
  max_size, IsFull, fs_create_lem, fs_read-fs_write, fs_read-fs_write_ne,
}

-- Files "a" and "b" on the zeroed disk.
abbrev one_file : Filesystem
one_file = (fs_create (b'a' ∷ []) zeroed_filesystem).0

abbrev two_files : Filesystem
two_files = (fs_create (b'b' ∷ []) one_file).0

one_file-IsSound : IsSound one_file
one_file-IsSound = fs_create-IsSound (b'a' ∷ []) zeroed_filesystem zeroed-IsSound

two_files-IsSound : IsSound two_files
two_files-IsSound = fs_create-IsSound (b'b' ∷ []) one_file one_file-IsSound

abbrev two_bytes : List ℕ
two_bytes = 5 ∷ 6 ∷ []

abbrev entry : ℕ → FileEntry
entry c = record { name = c ∷ replicate 31 0; size = 0; blocks = replicate 10 none; used = true }

first : IsFile two_files.file_table 0 (entry b'a')
unfolding fs_create zeroed_filesystem first_where
first = (refl, refl)

second : IsFile two_files.file_table 1 (entry b'b')
unfolding fs_create zeroed_filesystem first_where
second = (refl, refl)

fs_read-fs_write_example :
    (fs' : Filesystem) × (f' : FileEntry) × (n : ℕ) × (fs_write 0 two_bytes two_files
      ≡ some (fs', n))
    × (n ≤ length two_bytes)
    × ((m : ℕ) → m ≤ n → fs_read 0 m fs' ≡ some (take m two_bytes))
    × IsFile fs'.file_table 0 f'
    × ((n ≡ min (length two_bytes) max_size) × (f'.size ≡ n) ⊎ IsFull fs' × (f'.size ≡ 0))
fs_read-fs_write_example =
    fs_read-fs_write 0 two_bytes two_files (entry b'a') two_files-IsSound first

fs_read-fs_write_ne_example :
    (fs' : Filesystem) × (n : ℕ) × (fs_write 0 two_bytes two_files ≡ some (fs', n))
    × ((m : ℕ) → fs_read 1 m fs' ≡ fs_read 1 m two_files)
fs_read-fs_write_ne_example =
    fs_read-fs_write_ne 0 two_bytes two_files (entry b'a') two_files-IsSound first 1 (entry b'b')
      (omega arith) second

only : IsFile one_file.file_table 0 (entry b'a')
unfolding fs_create zeroed_filesystem first_where
only = (refl, refl)

-- What writing two bytes to that file gives.
write_step : (fs' : Filesystem) × (n : ℕ) × (fs_write 0 two_bytes one_file ≡ some (fs', n))
write_step =
    let (d, n, e, v) = fs_write-IsSound 0 two_bytes one_file (entry b'a') one_file-IsSound only in
    (d, n, e)

Reach-IsSound_example : IsSound write_step.0
Reach-IsSound_example =
    Reach-IsSound
      (Reach.next (Reach.next Reach.here (Step.creates (b'a' ∷ []) refl))
        (Step.writes 0 two_bytes write_step.1 write_step.2))
      (tt, (entry b'a', only))

-- The entries behind the two files.
zeroed-HasNames : HasNames (replicate 62 zeroed_entry)
zeroed-HasNames i f e = rw (← get_elem?-replicate 62 zeroed_entry i e) refl

two_files-HasNames : HasNames two_files.file_table
unfolding fs_create zeroed_filesystem first_where
two_files-HasNames zero f e = let at = first.0 in let same : entry b'a' ≡ f = cc in rw (← same) refl
two_files-HasNames (suc zero) f e =
    let at = second.0 in let same : entry b'b' ≡ f = cc in rw (← same) refl
two_files-HasNames (suc (suc i)) f e = zeroed-HasNames i f e

fs_create_lem_example :
    ((fs_create (b'c' ∷ 0 ∷ []) two_files ≡ (two_files, none))
      × ((j : ℕ) (g : FileEntry) → get_elem? two_files.file_table j ≡ some g → g.used ≡ true))
    ⊎ ((i : ℕ) × (f g : FileEntry) × (fs' : Filesystem) × (fs_create (b'c' ∷ 0 ∷ []) two_files
          ≡ (fs', some i))
        × (get_elem? two_files.file_table i ≡ some f)
        × (f.used ≡ false)
        × ((j : ℕ) (g : FileEntry)
            → j < i
            → get_elem? two_files.file_table j ≡ some g
            → g.used ≡ true)
        × (get_elem? fs'.file_table i ≡ some g)
        × IsNew (b'c' ∷ []) f g
        × ((m : ℕ) → fs_read i m fs' ≡ some [])
        × ((j : ℕ) → i ≢ j → get_elem? fs'.file_table j ≡ get_elem? two_files.file_table j)
        × (fs'.disk ≡ two_files.disk)
        × (fs'.block_bitmap ≡ two_files.block_bitmap))
fs_create_lem_example =
    fs_create_lem (b'c' ∷ []) (b'c' ∷ 0 ∷ []) two_files (refl, omega arith, refl) two_files-HasNames

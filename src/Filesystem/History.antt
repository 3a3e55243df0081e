-- ===== src/Filesystem/History.antt =====
-- The file system from power on, under any sequence of its calls.
use mazuki_os.Base.{ℕ, ◌≡◌, refl, false, some, List, get_elem?-replicate, subst, arith}
use mazuki_os.Filesystem.{
  max_files, FileEntry, Filesystem, fs_create, fs_delete, fs_write, zeroed_filesystem, zeroed_entry,
}
use mazuki_os.Filesystem.Bitmap.{zeroed-IsBitmap, is_block_free-zeroed}
use mazuki_os.Filesystem.Invariant.{IsFile, IsSound}
use mazuki_os.Filesystem.Operations.{
  fs_create-IsSound, fs_delete-IsSound, fs_delete-lt, fs_write-IsSound,
}

pub zeroed-IsSound : IsSound zeroed_filesystem
unfolding zeroed_filesystem
zeroed-IsSound = record {
  bits = zeroed-IsBitmap;
  files = refl;
  slots = λ i f e. rw (← get_elem?-replicate max_files zeroed_entry i e) refl;
  distinct = λ i f file. absurd (unused i f file);
  taken = λ i f k file has. absurd (unused i f file);
  alone = λ i j f g k file file' has has'. absurd (unused i f file);
  owner = λ k lt marked. let free = is_block_free-zeroed k in absurd (cc);
}
  where
    unused : (i : ℕ) (f : FileEntry) → IsFile zeroed_filesystem.file_table i f → ⊥
    unused i f (e, used) =
        let same : zeroed_entry ≡ f = get_elem?-replicate max_files zeroed_entry i e in
        let not_used : f.used ≡ false = rw (← same) refl in cc

-- One call of the file system.
pub data Step (fs fs' : Filesystem) : Type 0 where
  creates : (name : List ℕ) → (fs_create name fs).0 ≡ fs' → Step fs fs'
  deletes : (i : ℕ) → fs_delete i fs ≡ some fs' → Step fs fs'
  writes : (i : ℕ) (bytes : List ℕ) (n : ℕ) → fs_write i bytes fs ≡ some (fs', n) → Step fs fs'

pub data Reach (fs : Filesystem) : Filesystem → Type 0 where
  here : Reach fs fs
  next : {a b : Filesystem} → Reach fs a → Step a b → Reach fs b

-- Was each write of the history to a file that was in use then? `fs_write` does not test it.
abbrev pub WritesInUse : {fs fs' : Filesystem} → Reach fs fs' → Type 0
WritesInUse here = Unit {0}
WritesInUse (next {a} r (creates name e)) = WritesInUse r
WritesInUse (next {a} r (deletes i e)) = WritesInUse r
WritesInUse (next {a} r (writes i bytes n e)) =
    WritesInUse r × ((f : FileEntry) × IsFile a.file_table i f)

-- In every state that a sequence of creations, deletions and writes reaches from power on, each
-- write of it having gone to a file in use, each block that is marked as used belongs to exactly one
-- slot of one file in use, and each block of a file in use exists and is marked.
pub Reach-IsSound : {fs : Filesystem} (r : Reach zeroed_filesystem fs) → WritesInUse r → IsSound fs
Reach-IsSound here w = zeroed-IsSound
Reach-IsSound {fs} (next {a} r (creates name e)) w =
    subst IsSound e (fs_create-IsSound name a (Reach-IsSound r w))
Reach-IsSound {fs} (next {a} r (deletes i e)) w =
    let v = Reach-IsSound r w in
    let (d, e', v') = fs_delete-IsSound i a (fs_delete-lt i a fs v e) v in
    let same : d ≡ fs = cc in subst IsSound same v'
Reach-IsSound {fs} (next {a} r (writes i bytes n e)) (w, (f, file)) =
    let (d, m, e', v') = fs_write-IsSound i bytes a f (Reach-IsSound r w) file in
    let same : d ≡ fs = ground arith in subst IsSound same v'

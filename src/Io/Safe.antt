-- ===== src/Io/Safe.antt =====
-- `vfs_open`: no path makes it fail to return, and a call that opens nothing holds nothing.
use mazuki_os.Base.{
  ℕ, ◌<◌, ◌≡◌, ◌⊎◌, inl, inr, refl, ap, Bool, true, false, ◌||◌, some, List, ◌==◌, if◌then◌else◌,
  modify, ℤ, pos, negsuc, neg, Option-cases, subst,
}
use mazuki_os.Klibc.Text.{Spells}
use mazuki_os.Alloc.{alloc}
use mazuki_os.Alloc.Usage.{in_use, alloc-some, alloc-none}
use mazuki_os.Filesystem.{Filesystem, max_files, fs_create}
use mazuki_os.Vfs.State.{FileType, Target, Driver, open_as, free_fd, set_file}
use mazuki_os.Vfs.Ownership.Refs.{IsSound}
use mazuki_os.Io.State.{VfsNode, Kernel, set_node, node_bytes}
use mazuki_os.Io.Kept.{TableFits, fs_create-TableFits}
use mazuki_os.Io.Table.{find_file_total, file_node_total}
use mazuki_os.Io.Mounts.{
  AllNonZero, NodeFits, FoundString, IsString, find_mount_total, driver_open_total,
}
use mazuki_os.Io.Owned.{open_node-IsSound, alloc-IsSound, node_used, node_alone, node_freed}
use mazuki_os.Io.Open.{
  open_fd, free_node_at, open_driver, open_entry, open_new, open_file, vfs_open,
}

-- The state between two calls.
pub record IsReady (k : Kernel) : Type 0 where
  pub sound : IsSound k.vfs
  pub mounts : AllNonZero k.vfs.mount_list
  pub table : TableFits k.files.file_table
  pub fits : (a : ℕ) → NodeFits (k.nodes a)

-- A call that failed: no descriptor has changed, and the blocks in use are those that were.
abbrev pub Failed : Kernel → Kernel × ℤ → Type 0
Failed k (k', r) =
    (n : ℕ) × (r ≡ negsuc n)
    × (k'.vfs.fd_table ≡ k.vfs.fd_table)
    × ((a : ℕ) → in_use a k'.vfs.heap ≡ in_use a k.vfs.heap)

-- A call that opened the lowest free descriptor, with a node in a block that was free.
abbrev pub Opened : Kernel → Kernel × ℤ → Type 0
Opened k (k', r) =
    (fd : ℕ) × (p : ℕ) × (r ≡ pos fd)
    × (free_fd k.vfs.fd_table ≡ some fd)
    × (in_use p k.vfs.heap ≡ false)
    × (k'.vfs.fd_table ≡ modify k.vfs.fd_table fd (λ _. open_as FileType.vfs_file (Target.node p)))
    × ((a : ℕ) → in_use a k'.vfs.heap ≡ ((p == a) || in_use a k.vfs.heap))

abbrev pub Outcome : Kernel → Kernel × ℤ → Type 0
Outcome k r = IsReady r.0 × (Opened k r ⊎ Failed k r)

set_node-NodeFits :
    (a p : ℕ) (n : VfsNode) (nodes : ℕ → VfsNode)
    → NodeFits n
    → ((b : ℕ) → NodeFits (nodes b))
    → NodeFits (if a == p then n else nodes a)
set_node-NodeFits a p n nodes v w = either (a == p)
  where
    either : (b : Bool) → NodeFits (if b then n else nodes a)
    either true = v
    either false = w a

module _ (k : Kernel) (v : IsReady k) (fd p : ℕ) (found : free_fd k.vfs.fd_table ≡ some fd)
    (e : (alloc node_bytes k.vfs.heap).0 ≡ some p) where
  -- The kernel while the call holds the node.
  abbrev holding : Filesystem → (ℕ → VfsNode) → Kernel
  holding files nodes = record k {
    vfs = record k.vfs { heap = (alloc node_bytes k.vfs.heap).1 };
    nodes = nodes;
    files = files;
  }

  open_fd-Outcome :
      (files : Filesystem) (n : VfsNode)
      → TableFits files.file_table
      → NodeFits n
      → Outcome k (open_fd fd p (set_node p n (holding files k.nodes)), pos fd)
  unfolding set_file
  open_fd-Outcome files n w fits =
      let (fresh, marks, room, above, below) = alloc-some node_bytes p k.vfs.heap v.sound.tiled e in
      (
        record {
          sound =
              open_node-IsSound (holding files k.nodes).vfs fd p (alloc-IsSound k.vfs v.sound) found
                (node_used k.vfs v.sound p e) (node_alone k.vfs v.sound p e);
          mounts = v.mounts;
          table = w;
          fits = λ a. set_node-NodeFits a p n k.nodes fits v.fits;
        },
        inl (fd, p, refl, found, fresh, refl, marks),
      )

  free_node_at-Outcome :
      (files : Filesystem) (nodes : ℕ → VfsNode) (n : ℕ)
      → TableFits files.file_table
      → ((a : ℕ) → NodeFits (nodes a))
      → (k' : Kernel) × (free_node_at p (holding files nodes) ≡ some k') × Outcome k (k', negsuc n)
  unfolding free_node_at
  free_node_at-Outcome files nodes n w fits =
      let (h, freed, same, sound) = node_freed k.vfs v.sound p e in
      (
        record k { vfs = record k.vfs { heap = h }; nodes = nodes; files = files },
        rw freed refl,
        (
          record { sound = sound; mounts = v.mounts; table = w; fits = fits },
          inr (n, refl, refl, same),
        ),
      )

  open_driver_total :
      (driver : Driver) (t subpath : List ℕ)
      → Spells t subpath
      → (r : Kernel × ℤ) × (open_driver fd p driver subpath (holding k.files k.nodes) ≡ some r)
        × Outcome k r
  unfolding open_driver
  open_driver_total driver t subpath w =
      let ((result, n), is, (fits, which)) =
        driver_open_total t subpath w driver (k.nodes p) (v.fits p) in
      elim which [
        | inl ok ↦ (
          (open_fd fd p (set_node p n (holding k.files k.nodes)), pos fd),
          rw (is, ok) refl,
          open_fd-Outcome k.files n v.table fits,
        )
        | inr bad ↦
            let nodes = (set_node p n (holding k.files k.nodes)).nodes in
            let (k', freed, done) =
              free_node_at-Outcome k.files nodes 1 v.table
                (λ a. set_node-NodeFits a p n k.nodes fits v.fits) in
            ((k', neg 2), rw (is, bad) (rw freed refl), done)
      ]

  open_entry_total :
      (i : ℕ) (files : Filesystem)
      → i < max_files
      → TableFits files.file_table
      → (r : Kernel × ℤ) × (open_entry fd p i (holding files k.nodes) ≡ some r) × Outcome k r
  unfolding open_entry
  open_entry_total i files h w =
      let (n, is, id, reads, writes) = file_node_total i files.file_table w.0 w.1 h in
      (
        (open_fd fd p (set_node p n (holding files k.nodes)), pos fd),
        rw is refl,
        open_fd-Outcome files n w
            (record { for_read = λ e. (i, id, h); for_write = λ e. (i, id, h) }),
      )

  open_new_total :
      (path : List ℕ)
      → (r : Kernel × ℤ) × (open_new fd p path (holding k.files k.nodes) ≡ some r) × Outcome k r
  unfolding open_new
  open_new_total path =
      let (fits, inside) = fs_create-TableFits path k.files v.table in
      elim (Option-cases (fs_create path k.files).1) [
        | inr (i, at) ↦
            let (r, opens, done) =
              open_entry_total i (fs_create path k.files).0 (inside i at) fits in
            (r, rw (at, open_new) opens, done)
        | inl full ↦
            let (k', freed, done) =
              free_node_at-Outcome (fs_create path k.files).0 k.nodes 27 fits v.fits in
            ((k', neg 28), rw (full, open_new) (rw freed refl), done)
      ]

  open_file_total :
      (t path : List ℕ)
      → Spells t path
      → (r : Kernel × ℤ) × (open_file fd p path (holding k.files k.nodes) ≡ some r) × Outcome k r
  unfolding open_file
  open_file_total t path w =
      let (known, is, inside) =
        find_file_total max_files 0 path t k.files.file_table v.table.0 v.table.1 w refl in
      elim (Option-cases known) [
        | inr (i, at) ↦
            let (r, opens, done) = open_entry_total i k.files (inside i at) v.table in
            (r, rw (is, at) opens, done)
        | inl absent ↦
            let (r, opens, done) = open_new_total path in (r, rw (is, absent) opens, done)
      ]

-- A call with a path that is a string returns, and the tables stay well formed: it opens the lowest
-- free descriptor on a node in a block of its own, or it fails with a negative result, and then
-- every descriptor and every block in use is as before.
pub vfs_open-Outcome :
    (k : Kernel) (t path : List ℕ)
    → IsReady k
    → Spells t path
    → (r : Kernel × ℤ) × (vfs_open path k ≡ some r) × Outcome k r
unfolding vfs_open
vfs_open-Outcome k t path v w = elim (Option-cases (free_fd k.vfs.fd_table)) [
  | inl full ↦ ((k, neg 24), rw (full, vfs_open) refl, (v, inr (23, refl, refl, λ a. refl)))
  | inr (fd, found) ↦ elim (Option-cases (alloc node_bytes k.vfs.heap).0) [
    | inl out ↦
        let same = (alloc-none node_bytes k.vfs.heap v.sound.tiled).1 out in
        (
          (record k { vfs = record k.vfs { heap = (alloc node_bytes k.vfs.heap).1 } }, neg 12),
          rw (found, out, vfs_open) refl,
          (
            record {
              sound = alloc-IsSound k.vfs v.sound;
              mounts = v.mounts;
              table = v.table;
              fits = v.fits;
            },
            inr (11, refl, refl, λ a. ap (in_use a) same),
          ),
        )
    | inr (p, e) ↦
        let (way, is, string) = find_mount_total k.vfs.mount_list t path w v.mounts in
        elim (Option-cases way) [
          | inr ((driver, subpath), at) ↦
              let string' : IsString subpath = subst FoundString at string in
              let (r, opens, done) =
                open_driver_total k v fd p found e driver string'.0 subpath string'.1 in
              (r, rw (found, e, is, at, vfs_open) opens, done)
          | inl other ↦
              let (r, opens, done) = open_file_total k v fd p found e t path w in
              (r, rw (found, e, is, other, vfs_open) opens, done)
        ]
  ]
]

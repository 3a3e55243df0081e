-- ===== src/Io/Mounts.antt =====
-- The mount points and the drivers return for every path.
use mathlib.Core.Option
use mazuki_os.Base.{
  ℕ, zero, suc, ◌≤◌, ◌<◌, ◌≡◌, ◌⊎◌, inl, inr, refl, ap, Bool, true, false, Option, none, some, List,
  [], ◌∷◌, arith, ==_ne, if◌then◌else◌, length, take, drop, length-take, codes, ℤ, pos, negsuc,
  is_zero, neg, ℕ_discrete, Bool-cases,
}
use mazuki_os.Klibc.Text.{Spells, NonZero}
use mazuki_os.Klibc.Compare.{strlen_lem, strcmp_lem, strncmp_lem}
use mazuki_os.Filesystem.{max_files}
use mazuki_os.Vfs.State.{Driver, procfs, devtmpfs, Mountpoint}
use mazuki_os.Io.State.{VfsNode, c_string, same_string, ◌>>=◌, ramfs_read, ramfs_write}
use mazuki_os.Io.Procfs.{procfs_open_file, procfs_node}
use mazuki_os.Io.Devtmpfs.{devtmpfs_open, devtmpfs_node}
use mazuki_os.Io.Open.{driver_open, behind_mount, below_mount, find_mount}

Spells-c_string : (t : List ℕ) → NonZero t → Spells t (c_string t)
Spells-c_string [] v = refl
Spells-c_string (x ∷ t) v = (refl, v.0, Spells-c_string t v.1)

same_string_total :
    (t u a b : List ℕ) → Spells t a → Spells u b → (same : Bool) × (same_string a b ≡ some same)
unfolding same_string
same_string_total t u a b v w =
    let (r, e, eq, order) = strcmp_lem t u a b v w in (is_zero r, ap (Option.map is_zero) e)

Spells-drop : (n : ℕ) (t s : List ℕ) → Spells t s → n ≤ length t → Spells (drop n t) (drop n s)
Spells-drop zero t s v h = v
Spells-drop (suc n) t [] v h = elim v [ ]
Spells-drop (suc n) [] (c ∷ s) v h = absurd (omega arith)
Spells-drop (suc n) (x ∷ t) (c ∷ s) v h = Spells-drop n t s v.2 (omega arith)

-- A path that a driver gets is a string.
abbrev pub IsString : List ℕ → Type 0
IsString s = (t : List ℕ) × Spells t s

abbrev StringOrNone : Option (List ℕ) → Type 0
StringOrNone none = Unit
StringOrNone (some s) = IsString s

behind_mount_total :
    (t s : List ℕ)
    → Spells t s
    → (found : Option (List ℕ)) × (behind_mount s ≡ some found) × StringOrNone found
behind_mount_total t [] v = elim v [ ]
behind_mount_total [] (c ∷ rest) v = (some (c ∷ rest), rw v refl, ([], v))
behind_mount_total (x ∷ t) (c ∷ rest) v = elim (ℕ_discrete c b'/') [
  | yes e ↦ (some rest, rw e refl, (t, v.2))
  | no ne ↦ (none, rw (==_ne c b'/' ne, ==_ne c 0 v.1) refl, tt)
]

is_zero-eq : (r : ℤ) → is_zero r ≡ true → r ≡ pos 0
is_zero-eq (pos zero) e = refl
is_zero-eq (pos (suc n)) e = absurd (cc)
is_zero-eq (negsuc n) e = absurd (cc)

below_mount_total :
    (t path : List ℕ) (mp : Mountpoint)
    → Spells t path
    → NonZero mp.path
    → (found : Option (List ℕ)) × (below_mount path mp ≡ some found) × StringOrNone found
unfolding below_mount
below_mount_total t path mp v w =
    let u = mp.path in
    let spelled = Spells-c_string u w in
    let (r, order, eq) = strncmp_lem t u path (c_string u) (length u) v spelled in
    elim (Bool-cases (is_zero r)) [
      | inr other ↦ (none, rw (strlen_lem u (c_string u) spelled, order, other) refl, tt)
      | inl same ↦
          let agree : take (length u) t ≡ take (length u) u = eq.0 (is_zero-eq r same) in
          let long : length u ≤ length t = omega (
            arith,
            length-take (length u) t,
            length-take (length u) u,
            ap (λ (x : List ℕ). length x) agree,
          ) in
          let (found, is, fits) =
            behind_mount_total (drop (length u) t) (drop (length u) path)
              (Spells-drop (length u) t path v long) in
          (found, rw (strlen_lem u (c_string u) spelled, order, same) is, fits)
    ]

abbrev pub AllNonZero : List Mountpoint → Type 0
AllNonZero [] = Unit
AllNonZero (mp ∷ mps) = NonZero mp.path × AllNonZero mps

abbrev pub FoundString : Option (Driver × List ℕ) → Type 0
FoundString none = Unit
FoundString (some (d, s)) = IsString s

pub find_mount_total :
    (mps : List Mountpoint) (t path : List ℕ)
    → Spells t path
    → AllNonZero mps
    → (found : Option (Driver × List ℕ)) × (find_mount mps path ≡ some found) × FoundString found
unfolding find_mount
find_mount_total [] t path v w = (none, refl, tt)
find_mount_total (mp ∷ mps) t path v w =
    let (found, is, fits) = below_mount_total t path mp v w.0 in
    let (later, is', fits') = find_mount_total mps t path v w.1 in
    pick found is fits later is' fits'
  where
    pick :
        (found : Option (List ℕ))
        → below_mount path mp ≡ some found
        → StringOrNone found
        → (later : Option (Driver × List ℕ)) → find_mount mps path ≡ some later
        → FoundString later
        → (r : Option (Driver × List ℕ)) × ((below_mount path mp >>= λ found. elim found [
          | some s ↦ some (some (mp.driver, s))
          | none ↦ find_mount mps path
        ])
            ≡ some r)
          × FoundString r
    pick none is fits later is' fits' = (later, rw (is, is') refl, fits')
    pick (some s) is fits later is' fits' = (some (mp.driver, s), rw is refl, fits)

-- The functions of a node on the block file system have an entry of the file table.
abbrev pub HasEntry : VfsNode → Type 0
HasEntry n = (i : ℕ) × (n.internal_id ≡ pos i) × (i < max_files)

pub record NodeFits (n : VfsNode) : Type 0 where
  pub for_read : n.read ≡ ramfs_read → HasEntry n
  pub for_write : n.write ≡ ramfs_write → HasEntry n

-- What a driver gives: success or -2, and a node that fits.
abbrev pub ResultFits : ℤ × VfsNode → Type 0
ResultFits r = NodeFits r.1 × ((r.0 ≡ pos 0) ⊎ (r.0 ≡ neg 2))

either_fits :
    (b : Bool) (x y : ℤ × VfsNode) → ResultFits x → ResultFits y → ResultFits (if b then x else y)
either_fits true x y v w = v
either_fits false x y v w = w

procfs_node-NodeFits :
    (version meminfo : Bool) (node : VfsNode)
    → NodeFits node
    → ResultFits (procfs_node version meminfo node)
unfolding procfs_node
procfs_node-NodeFits true meminfo node v =
    (record { for_read = λ e. absurd (cc); for_write = λ e. absurd (cc) }, inl refl)
procfs_node-NodeFits false true node v =
    (record { for_read = λ e. absurd (cc); for_write = λ e. absurd (cc) }, inl refl)
procfs_node-NodeFits false false node v = (v, inr refl)

device-NodeFits :
    (is_null is_zero is_tty is_console is_full is_random : Bool) (node : VfsNode)
    → ResultFits (devtmpfs_node is_null is_zero is_tty is_console is_full is_random node)
unfolding devtmpfs_node
device-NodeFits a b c d e f node =
    either_fits a _ _
      ((record { for_read = λ e. absurd (cc); for_write = λ e. absurd (cc) }, inl refl))
      (either_fits b _ _
        ((record { for_read = λ e. absurd (cc); for_write = λ e. absurd (cc) }, inl refl))
        (either_fits c _ _
          ((record { for_read = λ e. absurd (cc); for_write = λ e. absurd (cc) }, inl refl))
          (either_fits d _ _
            ((record { for_read = λ e. absurd (cc); for_write = λ e. absurd (cc) }, inl refl))
            (either_fits e _ _
              ((record { for_read = λ e. absurd (cc); for_write = λ e. absurd (cc) }, inl refl))
              (either_fits f _ _
                ((record { for_read = λ e. absurd (cc); for_write = λ e. absurd (cc) }, inl refl))
                ((
                  record { for_read = λ e. absurd (cc); for_write = λ e. absurd (cc) },
                  inr refl,
                )))))))

-- The name of a file that a driver has.
module _ (t s : List ℕ) (v : Spells t s) where
  is_named :
      (name : List ℕ) → NonZero name → (same : Bool) × (same_string s (c_string name) ≡ some same)
  is_named name w = same_string_total t name s (c_string name) v (Spells-c_string name w)

  procfs_open_total :
      (node : VfsNode)
      → NodeFits node
      → (r : ℤ × VfsNode) × (procfs_open_file s node ≡ some r) × ResultFits r
  unfolding procfs_open_file
  procfs_open_total node fits =
      let (a, e) = is_named (codes "version") (search arith) in
      let (b, f) = is_named (codes "meminfo") (search arith) in
      (procfs_node a b node, rw (e, f) refl, procfs_node-NodeFits a b node fits)

  devtmpfs_open_total :
      (node : VfsNode) → (r : ℤ × VfsNode) × (devtmpfs_open s node ≡ some r) × ResultFits r
  unfolding devtmpfs_open
  devtmpfs_open_total node =
      let (a, e) = is_named (codes "null") (search arith) in
      let (b, f) = is_named (codes "zero") (search arith) in
      let (c, g) = is_named (codes "tty") (search arith) in
      let (d, h) = is_named (codes "console") (search arith) in
      let (i, j) = is_named (codes "full") (search arith) in
      let (k, l) = is_named (codes "random") (search arith) in
      (devtmpfs_node a b c d i k node, rw (e, f, g, h, j, l) refl, device-NodeFits a b c d i k node)

  pub driver_open_total :
      (driver : Driver) (node : VfsNode)
      → NodeFits node
      → (r : ℤ × VfsNode) × (driver_open driver s node ≡ some r) × ResultFits r
  driver_open_total procfs node fits = procfs_open_total node fits
  driver_open_total devtmpfs node fits = devtmpfs_open_total node

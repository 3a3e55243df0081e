-- ===== src/Vfs/Ownership/Open.antt =====
-- Opening a descriptor: what `allocate_fd` finds, and what it does to the counts.
use mazuki_os.Base.{
  ℕ, ◌+◌, ◌≤◌, ◌<◌, ◌≡◌, ap, sym, ◌∙◌, Bool, true, false, not, List, some, none, arith, length,
  get_elem?, modify, first_where, first_where-some, get_elem?-drop, drop, lt-get_elem?, pos, neg,
}
use mazuki_os.Vfs.State.{Vfs, File, FileType, Target, open_as, free_fd, is_empty, allocate_fd}
use mazuki_os.Vfs.Ownership.Refs.{bit, refs, End, holds, SparesEmpty, refs-modify}

-- What `allocate_fd` found is a closed descriptor from 3 on.
pub free_fd-some :
    (fds : List File) {i : ℕ}
    → free_fd fds ≡ some i
    → (3 ≤ i) × ((f : File) × (get_elem? fds i ≡ some f) × (f.type ≡ FileType.empty))
unfolding free_fd
free_fd-some fds {i} e =
    let (m, at, first) = first_where-some (λ f. is_empty f.type) (drop 3 fds) 3 {k = i} e in
    let (f, found, is) = first.0 in
    (omega arith, (f, rw at (sym (get_elem?-drop 3 fds m) ∙ found), is_empty_eq f.type is))
  where
    is_empty_eq : (t : FileType) → is_empty t ≡ true → t ≡ FileType.empty
    is_empty_eq t h = ground arith

-- Opening a free descriptor adds one to what the new descriptor holds.
pub refs_open :
    (e : End) (fds : List File) (i j : ℕ) (t : FileType) (p : Target)
    → SparesEmpty e
    → free_fd fds ≡ some i
    → refs (holds e j) (modify fds i (λ _. open_as t p)) ≡ refs (holds e j) fds + bit (e t p j)
refs_open e fds i j t p spares found =
    let (f, at, closed) = (free_fd-some fds {i = i} found).1 in
    let moved = refs-modify (holds e j) fds i (λ _. open_as t p) f at in
    let none_before : bit (holds e j f) ≡ 0 = rw closed (ap bit (spares f.private_data j)) in
    omega arith

-- A descriptor that was closed and still is holds what it held: nothing.
pub refs_closed :
    (e : End) (fds : List File) (i j : ℕ) (g : File)
    → SparesEmpty e
    → free_fd fds ≡ some i
    → g.type ≡ FileType.empty
    → refs (holds e j) (modify fds i (λ _. g)) ≡ refs (holds e j) fds
refs_closed e fds i j g spares found is =
    let (f, at, closed) = (free_fd-some fds {i = i} found).1 in
    let moved = refs-modify (holds e j) fds i (λ _. g) f at in
    let none_before : bit (holds e j f) ≡ 0 = rw closed (ap bit (spares f.private_data j)) in
    let none_after : bit (holds e j g) ≡ 0 = rw is (ap bit (spares g.private_data j)) in omega arith

pub allocate_fd_full :
    (t : FileType) (p : Target) (s : Vfs)
    → free_fd s.fd_table ≡ none
    → allocate_fd t p s ≡ (s, neg 24)
unfolding allocate_fd
allocate_fd_full t p s e = ground arith

pub allocate_fd_found :
    (t : FileType) (p : Target) (s : Vfs) (i : ℕ)
    → free_fd s.fd_table ≡ some i
    → allocate_fd t p s ≡ (record s { fd_table = modify s.fd_table i (λ _. open_as t p) }, pos i)
unfolding allocate_fd
allocate_fd_found t p s i e = ground arith

-- A slot found free is in range and not in use.
pub free_slot :
    {A : Type 0} (used : A → Bool) (xs : List A) {j : ℕ}
    → first_where (λ x. not (used x)) xs 0 ≡ some j
    → (j < length xs) × ((x : A) × (get_elem? xs j ≡ some x) × (used x ≡ false))
free_slot used xs {j} e =
    let (m, at, first) = first_where-some (λ x. not (used x)) xs 0 {k = j} e in
    let (x, found, is) = first.0 in
    let same : m ≡ j = omega arith in
    rw (← same) (lt-get_elem? xs m found, (x, found, ground arith))

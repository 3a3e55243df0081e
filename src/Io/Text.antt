-- ===== src/Io/Text.antt =====
-- A file of procfs.c, read piece by piece.
use mazuki_os.Base.{
  ℕ, zero, suc, ◌+◌, ◌-◌, ◌%◌, ◌^◌, ◌≤◌, ◌<◌, ◌≡◌, ◌≢◌, ◌⊎◌, inl, inr, refl, sym, ap, ap₂, ◌∙◌, min,
  true, Option, none, some, List, [], ◌∷◌, ◌++◌, arith, ltb, if◌then◌else◌, length, get_elem?, take,
  drop, pos, signed32_small, is_pos, codes, ℕ_discrete, lt→ltb, le→leb, lt→leb, dec_lt, length-drop,
  take_all, take-append-drop, subst, get_elem?-modify, ==_refl,
}
use mathlib.Core.Option
use mazuki_os.Vfs.State.{Vfs, File, FileType, Target, lookup_fd, set_file, max_fd}
use mazuki_os.Klibc.Memory.{strcpy, strcat}
use mazuki_os.Klibc.Number.{itoa, digits, buffer_of, glyph}
use mazuki_os.Io.State.{Kernel, ◌>>=◌, procfs_version_read, procfs_meminfo_read}
use mazuki_os.Io.Procfs.{read_text, version_data, meminfo_read, mem_data, append_number, text_of}
use mazuki_os.Io.Transfer.{call_read, read_file, read_as, vfs_read, move_offset}

-- /proc/meminfo as the source's numbers make it.
abbrev pub meminfo_text : List ℕ
meminfo_text = codes "MemTotal:       16384232 kB\nMemFree:        12543104 kB\n"

meminfo_read_lem : (o c : ℕ) → meminfo_read o c ≡ read_text meminfo_text o c
unfolding meminfo_read mem_data append_number strcpy strcat itoa buffer_of digits glyph text_of
meminfo_read_lem o c = refl

-- How many bytes a read at an offset gives.
abbrev pub piece : List ℕ → ℕ → ℕ → ℕ
piece text o c = min c (length text - o)

take-min : (c : ℕ) (xs : List ℕ) → take (min c (length xs)) xs ≡ take c xs
take-min c xs = elim (dec_lt c (length xs)) [
  | yes lt ↦ ap (λ n. take n xs) (omega arith)
  | no ge ↦ take_all (min c (length xs)) xs (omega arith) ∙ sym (take_all c xs (omega arith))
]

count_lem :
    (len o c : ℕ)
    → o ≤ len
    → o + c < 2 ^ 32
    → (if ltb len ((o + c) % 2 ^ 32) then len - o else c) ≡ min c (len - o)
count_lem len o c le room = ground arith

drop_all : (n : ℕ) (xs : List ℕ) → length xs ≤ n → drop n xs ≡ []
drop_all zero [] h = refl
drop_all zero (x ∷ xs) h = absurd (omega arith)
drop_all (suc n) [] h = refl
drop_all (suc n) (x ∷ xs) h = drop_all n xs (omega arith)

take_none : (n : ℕ) → take {A = ℕ} n [] ≡ []
take_none zero = refl
take_none (suc n) = refl

take-piece : (text : List ℕ) (o c : ℕ) → take (piece text o c) (drop o text) ≡ take c (drop o text)
take-piece text o c =
    ap (λ n. take (min c n) (drop o text)) (sym (length-drop o text)) ∙ take-min c (drop o text)

drop-drop : (o m : ℕ) (xs : List ℕ) → drop (o + m) xs ≡ drop m (drop o xs)
drop-drop zero m xs = ap (λ n. drop n xs) (omega arith)
drop-drop (suc o) m [] = drop_all (suc o + m) [] (omega arith) ∙ sym (drop_all m [] (omega arith))
drop-drop (suc o) m (x ∷ xs) =
    ap (λ n. drop n (x ∷ xs)) {x = suc o + m} {y = suc (o + m)} (omega arith) ∙ drop-drop o m xs

read_text_lem :
    (text : List ℕ) (o c : ℕ)
    → o ≤ length text
    → length text < 2 ^ 31
    → o + c < 2 ^ 32
    → read_text text o c ≡ some (pos (piece text o c), take c (drop o text))
unfolding read_text
read_text_lem text o c le small room = elim (ℕ_discrete o (length text)) [
  | yes e ↦
      let nothing : take c (drop o text) ≡ [] =
        ap (take c) (drop_all o text (omega arith)) ∙ take_none c in
      let none_left : piece text o c ≡ 0 = omega arith in
      rw (le→leb (length text) o (omega arith), nothing, none_left) refl
  | no ne ↦
      rw
        (
          count_lem (length text) o c le room,
          lt→leb (length text) o (omega arith),
          le→leb (o + piece text o c) (length text) (omega arith),
          signed32_small (piece text o c) (omega arith),
          take-piece text o c,
        )
        refl
]

-- The descriptor is open at offset `o` on a node of the proc file system with this text.
pub record IsOpen (k : Kernel) (n a o : ℕ) (text : List ℕ) : Type 0 where
  pub in_table : n < max_fd
  pub at :
      get_elem? k.vfs.fd_table n
      ≡ some (record { type = FileType.vfs_file; offset = o; private_data = Target.node a })
  pub shows :
      (((k.nodes a).read ≡ procfs_version_read) × (text ≡ version_data))
      ⊎ (((k.nodes a).read ≡ procfs_meminfo_read) × (text ≡ meminfo_text))
  pub within : o ≤ length text

text_small : {k : Kernel} {n a o : ℕ} {text : List ℕ} → IsOpen k n a o text → length text < 128
text_small v = elim v.shows [ inl (_, e) ↦ rw e (omega arith) | inr (_, e) ↦ rw e (omega arith) ]

call_read-IsOpen :
    (k : Kernel) (n a o : ℕ) (text : List ℕ) (c : ℕ)
    → IsOpen k n a o text
    → c < 2 ^ 31
    → call_read (k.nodes a).read (k.nodes a) o c k
      ≡ some (k, (pos (piece text o c), take c (drop o text)))
unfolding call_read
call_read-IsOpen k n a o text c v h =
    let all =
      read_text_lem text o c v.within (omega (arith, text_small v))
        (omega (arith, text_small v, v.within)) in
    elim v.shows [
      | inl (e, t) ↦ rw (e, ← t) (ap (Option.map (λ r. (k, r))) all)
      | inr (e, t) ↦ rw (e, meminfo_read_lem o c, ← t) (ap (Option.map (λ r. (k, r))) all)
    ]

pub lookup_open :
    (s : Vfs) (n : ℕ) {f : File}
    → n < max_fd
    → get_elem? s.fd_table n ≡ some f
    → lookup_fd (pos n) s ≡ some (n, f)
unfolding lookup_fd
lookup_open s n lt e = rw (lt→ltb n max_fd lt, e) refl

pub is_pos_lem : (m : ℕ) → m ≢ 0 → is_pos (pos m) ≡ true
is_pos_lem zero ne = absurd (ne refl)
is_pos_lem (suc m) ne = refl

vfs_read-IsOpen :
    (k : Kernel) (n a o : ℕ) (text : List ℕ) (c : ℕ)
    → IsOpen k n a o text
    → c < 2 ^ 31
    → vfs_read (pos n) c k
      ≡ some (move_offset n (pos (piece text o c)) k, (pos (piece text o c), take c (drop o text)))
unfolding vfs_read read_as read_file
vfs_read-IsOpen k n a o text c v h =
    rw
      (
        lookup_open k.vfs n v.in_table v.at,
        vfs_read,
        read_file,
        call_read-IsOpen k n a o text c v h,
      )
      refl

move_offset-IsOpen :
    (k : Kernel) (n a o : ℕ) (text : List ℕ) (m : ℕ)
    → IsOpen k n a o text
    → o + m ≤ length text
    → IsOpen (move_offset n (pos m) k) n a (o + m) text
unfolding set_file
move_offset-IsOpen k n a o text zero v le = subst (λ p. IsOpen k n a p text) (omega arith) v
move_offset-IsOpen k n a o text (suc m) v le = record {
  in_table = v.in_table;
  at =
      rw
        (
          get_elem?-modify k.vfs.fd_table n n
              (λ f. record f { offset = (f.offset + suc m) % 2 ^ 32 }),
          ==_refl n,
          v.at,
        )
        (ap
          (λ p.
            some (record { type = FileType.vfs_file; offset = p; private_data = Target.node a }))
          (omega (arith, text_small v)));
  shows = v.shows;
  within = le;
}

-- A program that reads `c` bytes at a time until a call gives none, with at most `fuel` calls.
unfoldable pub read_to_end : ℕ → ℕ → ℕ → Kernel → Option (Kernel × List ℕ)
read_to_end zero n c k = none
read_to_end (suc fuel) n c k = vfs_read (pos n) c k >>= λ r.
    if is_pos r.1.0
    then (read_to_end fuel n c r.0 >>= λ rest. some (rest.0, r.1.1 ++ rest.1))
    else some (r.0, r.1.1)

-- A program that reads a file of the proc file system in pieces of any size below 2 ^ 31 comes to
-- its end, after at most one call more than there are bytes left, and gets exactly these bytes; the
-- descriptor then stands at the end.
pub read_to_end_lem :
    (fuel n a c o : ℕ) (text : List ℕ) (k : Kernel)
    → IsOpen k n a o text
    → 0 < c
    → c < 2 ^ 31
    → length text < fuel + o
    → (k' : Kernel) × (read_to_end fuel n c k ≡ some (k', drop o text))
      × IsOpen k' n a (length text) text
unfolding read_to_end
read_to_end_lem zero n a c o text k v p h enough = absurd (omega (arith, v.within))
read_to_end_lem (suc fuel) n a c o text k v p h enough = elim (ℕ_discrete (piece text o c) 0) [
  | yes none_left ↦
      let at_end : o ≡ length text = omega (arith, none_left, v.within) in
      (
        k,
        rw (vfs_read-IsOpen k n a o text c v h, none_left)
            (ap (λ t. some (k, t)) (take_all c (drop o text) (omega (arith, length-drop o text)))),
        subst (λ p. IsOpen k n a p text) at_end v,
      )
  | no more ↦
      let m = piece text o c in
      let (k', e, w) =
        read_to_end_lem fuel n a c (o + m) text (move_offset n (pos m) k)
          (move_offset-IsOpen k n a o text m v (omega arith)) p h (omega arith) in
      let joined : take c (drop o text) ++ drop (o + m) text ≡ drop o text =
        ap₂ ◌++◌ (sym (take-piece text o c)) (drop-drop o m text)
        ∙ take-append-drop m (drop o text) in
      (
        k',
        rw (vfs_read-IsOpen k n a o text c v h, is_pos_lem m more, e)
            (ap (λ t. some (k', t)) joined),
        w,
      )
]

-- ===== src/Filesystem/Names.antt =====
-- The name that `fs_create` gives an entry.
use mazuki_os.Base.{
  ℕ, zero, suc, ◌∷◌, ltb, get_or, ==_ne, le→ltb, ◌<◌, ◌≡◌, refl, true, some, List, [], arith,
  if◌then◌else◌, length, get_elem?,
}
use mazuki_os.Filesystem.{FileEntry, fresh_entry, copy_name}
use mazuki_os.Klibc.Text.{Spells}

-- A name without a first byte leaves the old bytes, one with a zero there too.
copy_name_empty :
    (n k : ℕ) (old : List ℕ)
    → length old ≡ suc n
    → k < n
    → get_or (copy_name n [] old) k 0 ≡ get_or old k 0
unfolding copy_name
copy_name_empty zero k old l h = absurd (omega arith)
copy_name_empty (suc n) k [] l h = absurd (omega arith)
copy_name_empty (suc n) zero (o ∷ old) l h = refl
copy_name_empty (suc n) (suc k) (o ∷ old) l h =
    copy_name_empty n k old (omega (arith, l)) (omega arith)

copy_name_lem :
    (n k : ℕ) (t name old : List ℕ)
    → Spells t name
    → length old ≡ suc n
    → k < n
    → get_or (copy_name n name old) k 0
      ≡ (if ltb k (length t) then get_or t k 0 else get_or old k 0)
unfolding copy_name
copy_name_lem zero k t name old v l h = absurd (omega arith)
copy_name_lem (suc n) k t [] old v l h = elim v [ ]
copy_name_lem (suc n) k t (c ∷ name) [] v l h = absurd (omega (arith, l))
copy_name_lem (suc n) zero [] (c ∷ name) (o ∷ old) v l h = rw v refl
copy_name_lem (suc n) (suc k) [] (c ∷ name) (o ∷ old) v l h =
    rw (v, le→ltb (suc k) 0 (omega arith))
      (copy_name_empty n k old (omega (arith, l)) (omega arith))
copy_name_lem (suc n) zero (x ∷ t) (c ∷ name) (o ∷ old) v l h =
    rw (==_ne c 0 v.1) (ground (arith, v.0))
copy_name_lem (suc n) (suc k) (x ∷ t) (c ∷ name) (o ∷ old) v l h =
    rw (==_ne c 0 v.1) (ground (arith, copy_name_lem n k t name old v.2))

copy_name_end :
    (n : ℕ) (name old : List ℕ) → length old ≡ suc n → get_or (copy_name n name old) n 0 ≡ 0
unfolding copy_name
copy_name_end zero name old l = refl
copy_name_end (suc n) name [] l = absurd (omega (arith, l))
copy_name_end (suc n) [] (o ∷ old) l = copy_name_end n [] old (omega (arith, l))
copy_name_end (suc n) (c ∷ name) (o ∷ old) l =
    ground (arith, copy_name_end n name old, copy_name_end n [] old)

-- The bytes of the names in the table.
abbrev pub HasNames : List FileEntry → Type 0
HasNames table = (i : ℕ) (f : FileEntry) → get_elem? table i ≡ some f → length f.name ≡ 32

-- What the entry of a new file is: in use and empty. Its name is the text `t` as far as 31 bytes go,
-- then the bytes that the entry had before, and a zero at the end of the 32.
pub record IsNew (t : List ℕ) (f g : FileEntry) : Type 0 where
  pub used : g.used ≡ true
  pub size : g.size ≡ 0
  pub name :
      (k : ℕ)
      → k < 31
      → get_or g.name k 0 ≡ (if ltb k (length t) then get_or t k 0 else get_or f.name k 0)
  pub end : get_or g.name 31 0 ≡ 0

pub fresh_entry-IsNew :
    (t name : List ℕ) (f : FileEntry)
    → Spells t name
    → length f.name ≡ 32
    → IsNew t f (fresh_entry name f)
unfolding fresh_entry
fresh_entry-IsNew t name f v l = record {
  used = refl;
  size = refl;
  name = λ k h. copy_name_lem 31 k t name f.name v l h;
  end = copy_name_end 31 name f.name l;
}

-- ===== src/Klibc/Find.antt =====
-- `strchr` and `strrchr` find the first and the last place of a byte in a text.
use mathlib.Core.Option
use mazuki_os.Base.{
  ℕ, zero, suc, ◌+◌, ◌<◌, ◌≡◌, ◌≢◌, ◌⊎◌, inl, inr, refl, ap, sym, ◌∙◌, Bool, Option, none, some,
  List, [], ◌∷◌, arith, ◌==◌, ==_ne, ==_refl, length, get_elem?, first_where, ℕ_discrete,
  Bool-cases,
}
use mazuki_os.Klibc.Memory.{strchr, strrchr, last_match}
use mazuki_os.Klibc.Text.{Spells}

first_where_shift :
    (p : ℕ → Bool) (t : List ℕ) (i : ℕ)
    → first_where p t (suc i) ≡ Option.map suc (first_where p t i)
unfolding first_where
first_where_shift p [] i = refl
first_where_shift p (x ∷ t) i =
    let e : suc i + 1 ≡ suc (i + 1) = omega arith in
    elim (Bool-cases (p x)) [
      | inl hit ↦ rw hit refl
      | inr miss ↦ rw (miss, e) (first_where_shift p t (i + 1))
    ]

-- `strchr` of a byte other than zero returns the place of its first occurrence, or NULL if the text
-- has none; of zero, the text's end.
pub strchr_lem :
    (t s : List ℕ) (c : ℕ)
    → Spells t s
    → (c ≢ 0 → strchr s c ≡ some (first_where (λ x. x == c) t 0))
      × (c ≡ 0 → strchr s c ≡ some (some (length t)))
unfolding strchr first_where
strchr_lem t [] c v = elim v [ ]
strchr_lem [] (x ∷ s) c v = (λ nz. rw (v, ==_ne c 0 nz) refl, λ z. rw (v, z) refl)
strchr_lem (y ∷ t) (x ∷ s) c v = (
  λ nz. elim (ℕ_discrete x c) [
    | yes e ↦ rw (v.0, ==_ne x 0 v.1, e, ==_refl c) refl
    | no ne ↦
        rw (v.0, ==_ne x 0 v.1, ==_ne x c ne, (strchr_lem t s c v.2).0 nz)
          (ap some (sym (first_where_shift (λ x. x == c) t 0)))
  ],
  λ z. rw (==_ne x 0 v.1, z, ==_ne x 0 v.1, (strchr_lem t s 0 v.2).1 refl) refl,
)

-- What `last_match` adds to a match `last` found before the text at offset `i`.
abbrev LastAt : List ℕ → ℕ → ℕ → Option ℕ → Option ℕ → Type 0
LastAt t c i last r =
    ((r ≡ last) × ((j : ℕ) → get_elem? t j ≢ some c))
    ⊎ ((m : ℕ) × (r ≡ some (i + m))
        × (get_elem? t m ≡ some c)
        × ((j : ℕ) → m < j → get_elem? t j ≢ some c))

-- One byte in front of the text moves the places by one.
LastAt-cons :
    (y : ℕ) (t : List ℕ) (c i : ℕ) (last r : Option ℕ)
    → y ≢ c
    → LastAt t c (i + 1) last r
    → LastAt (y ∷ t) c i last r
LastAt-cons y t c i last r ne (inl (e, absent)) = inl (e, nowhere)
  where
    nowhere : (j : ℕ) → get_elem? (y ∷ t) j ≢ some c
    nowhere zero at = ne (ground arith)
    nowhere (suc j) at = absent j at
LastAt-cons y t c i last r ne (inr (m, e, at, after)) =
    inr (suc m, e ∙ ap some (omega arith), at, beyond)
  where
    beyond : (j : ℕ) → suc m < j → get_elem? (y ∷ t) j ≢ some c
    beyond zero lt at = absurd (omega arith)
    beyond (suc j) lt at = after j (omega arith) at

LastAt-hit :
    (t : List ℕ) (c i : ℕ) (last r : Option ℕ)
    → LastAt t c (i + 1) (some i) r
    → LastAt (c ∷ t) c i last r
LastAt-hit t c i last r (inl (e, absent)) = inr (0, e ∙ ap some (omega arith), refl, beyond)
  where
    beyond : (j : ℕ) → 0 < j → get_elem? (c ∷ t) j ≢ some c
    beyond zero lt at = absurd (omega arith)
    beyond (suc j) lt at = absent j at
LastAt-hit t c i last r (inr (m, e, at, after)) = inr (suc m, e ∙ ap some (omega arith), at, beyond)
  where
    beyond : (j : ℕ) → suc m < j → get_elem? (c ∷ t) j ≢ some c
    beyond zero lt at = absurd (omega arith)
    beyond (suc j) lt at = after j (omega arith) at

last_match_lem :
    (t s : List ℕ) (c i : ℕ) (last : Option ℕ)
    → Spells t s
    → c ≢ 0
    → (r : Option ℕ) × (last_match s c i last ≡ some r) × LastAt t c i last r
unfolding last_match
last_match_lem t [] c i last v nz = elim v [ ]
last_match_lem [] (x ∷ s) c i last v nz =
    (last, rw (v, ==_ne c 0 nz) refl, inl (refl, λ j e. absurd (cc)))
last_match_lem (y ∷ t) (x ∷ s) c i last v nz = elim (ℕ_discrete x c) [
  | yes e ↦
      let (r, is, at) = last_match_lem t s c (i + 1) (some i) v.2 nz in
      (r, rw (==_ne x 0 v.1, e, ==_refl c) is, rw (v.0, e) (LastAt-hit t c i last r at))
  | no ne ↦
      let (r, is, at) = last_match_lem t s c (i + 1) last v.2 nz in
      (
        r,
        rw (==_ne x 0 v.1, ==_ne x c ne) is,
        LastAt-cons y t c i last r (λ e. ne (omega arith)) at,
      )
]

-- `strrchr` of a byte other than zero returns NULL if the text has none, and else the place of the
-- last one.
pub strrchr_lem :
    (t s : List ℕ) (c : ℕ)
    → Spells t s
    → c ≢ 0
    → ((strrchr s c ≡ some none) × ((j : ℕ) → get_elem? t j ≢ some c))
      ⊎ ((m : ℕ) × (strrchr s c ≡ some (some m))
          × (get_elem? t m ≡ some c)
          × ((j : ℕ) → m < j → get_elem? t j ≢ some c))
unfolding strrchr
strrchr_lem t s c v nz = found (last_match_lem t s c 0 none v nz)
  where
    found :
        (r : Option ℕ) × (last_match s c 0 none ≡ some r) × LastAt t c 0 none r
        → ((last_match s c 0 none ≡ some none) × ((j : ℕ) → get_elem? t j ≢ some c))
          ⊎ ((m : ℕ) × (last_match s c 0 none ≡ some (some m))
              × (get_elem? t m ≡ some c)
              × ((j : ℕ) → m < j → get_elem? t j ≢ some c))
    found (r, is, inl (e, absent)) = inl (is ∙ ap some e, absent)
    found (r, is, inr (m, e, at, after)) =
        inr (m, is ∙ ap some (e ∙ ap some (omega arith)), at, after)

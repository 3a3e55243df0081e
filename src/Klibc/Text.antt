-- ===== src/Klibc/Text.antt =====
-- The text that a buffer spells: its bytes before the first zero.
use mazuki_os.Base.{
  ℕ, ◌<◌, ◌≡◌, ◌≢◌, refl, Bool, true, false, List, [], ◌∷◌, ◌++◌, arith, ltb, ◌==◌, if◌then◌else◌,
  length,
}

-- The buffer `s` starts with the text `t` and a zero after it.
abbrev pub Spells : List ℕ → List ℕ → Type 0
Spells t [] = ⊥
Spells [] (c ∷ s) = c ≡ 0
Spells (x ∷ t) (c ∷ s) = (x ≡ c) × (c ≢ 0) × Spells t s

-- No zero stands in the list.
abbrev pub NonZero : List ℕ → Type 0
NonZero [] = Unit
NonZero (x ∷ t) = (x ≢ 0) × NonZero t

pub Spells-NonZero : (t s : List ℕ) → Spells t s → NonZero t
Spells-NonZero t [] v = elim v [ ]
Spells-NonZero [] (c ∷ s) v = tt
Spells-NonZero (x ∷ t) (c ∷ s) v = (λ e. v.1 (ground arith), Spells-NonZero t s v.2)

-- A buffer spells at most one text.
pub Spells-unique : (t u s : List ℕ) → Spells t s → Spells u s → t ≡ u
Spells-unique t u [] v w = elim v [ ]
Spells-unique [] [] (c ∷ s) v w = refl
Spells-unique [] (y ∷ u) (c ∷ s) v w = absurd (w.1 v)
Spells-unique (x ∷ t) [] (c ∷ s) v w = absurd (v.1 w)
Spells-unique (x ∷ t) (y ∷ u) (c ∷ s) v w =
    let e : x ≡ y = omega arith in ground (arith, Spells-unique t u s v.2 w.2)

pub Spells-length : (t s : List ℕ) → Spells t s → length t < length s
Spells-length t [] v = elim v [ ]
Spells-length [] (c ∷ s) v = omega arith
Spells-length (x ∷ t) (c ∷ s) v = omega (arith, Spells-length t s v.2)

-- The text with its zero, and anything behind it.
pub Spells-append : (t s : List ℕ) → NonZero t → Spells t (t ++ 0 ∷ s)
Spells-append [] s n = refl
Spells-append (x ∷ t) s n = (refl, n.0, Spells-append t s n.1)

-- The order of texts as of lists of bytes: is `t` before `u`?
abbrev pub lex_lt : List ℕ → List ℕ → Bool
lex_lt t [] = false
lex_lt [] (y ∷ u) = true
lex_lt (x ∷ t) (y ∷ u) = if x == y then lex_lt t u else ltb x y

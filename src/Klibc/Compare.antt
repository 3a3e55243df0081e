-- ===== src/Klibc/Compare.antt =====
-- `strlen`, `strcmp`, `strncmp` and `memcmp` against the texts that the buffers spell.
use mazuki_os.Base.{
  ℕ, zero, suc, ◌≤◌, ◌≡◌, ◌↔◌, refl, ap₂, some, List, [], ◌∷◌, arith, ==_ne, length, take, ℤ, pos,
  is_neg, ℕ_discrete,
}
use mazuki_os.Klibc.Memory.{strlen, strcmp, strncmp, memcmp, byte_diff}
use mazuki_os.Klibc.Text.{Spells, lex_lt}

pub strlen_lem : (t s : List ℕ) → Spells t s → strlen s ≡ some (length t)
unfolding strlen
strlen_lem t [] v = elim v [ ]
strlen_lem [] (c ∷ s) v = rw v refl
strlen_lem (x ∷ t) (c ∷ s) v = rw (==_ne c 0 v.1, strlen_lem t s v.2) refl

byte_diff-zero : (a b : ℕ) → byte_diff a b ≡ pos 0 → a ≡ b
byte_diff-zero a b h = ground arith

-- `strcmp` of two strings returns; it returns 0 exactly for equal texts and a negative number
-- exactly where the first text is before the second.
pub strcmp_lem :
    (t u a b : List ℕ)
    → Spells t a
    → Spells u b
    → (r : ℤ) × (strcmp a b ≡ some r) × ((r ≡ pos 0) ↔ (t ≡ u)) × (is_neg r ≡ lex_lt t u)
unfolding strcmp
strcmp_lem t u [] b v w = elim v [ ]
strcmp_lem t u (c ∷ a) [] v w = elim w [ ]
strcmp_lem [] [] (c ∷ a) (d ∷ b) v w = (pos 0, ground arith, (λ z. refl, λ e. refl), refl)
strcmp_lem [] (y ∷ u) (c ∷ a) (d ∷ b) v w = (
  byte_diff c d,
  ground arith,
  (λ z. absurd (omega (arith, byte_diff-zero c d z)), λ e. absurd (cc)),
  ground arith,
)
strcmp_lem (x ∷ t) [] (c ∷ a) (d ∷ b) v w = (
  byte_diff c d,
  ground arith,
  (λ z. absurd (omega (arith, byte_diff-zero c d z)), λ e. absurd (cc)),
  ground arith,
)
strcmp_lem (x ∷ t) (y ∷ u) (c ∷ a) (d ∷ b) v w = elim (ℕ_discrete c d) [
  | yes e ↦
      let (r, is, eq, order) = strcmp_lem t u a b v.2 w.2 in
      let same : x ≡ y = omega arith in
      (r, ground arith, (λ z. ap₂ ◌∷◌ same (eq.0 z), λ z. eq.1 (ground arith)), ground arith)
  | no ne ↦ (
    byte_diff c d,
    ground arith,
    (
      λ z. absurd (ne (byte_diff-zero c d z)),
      λ z. let heads : x ≡ y = ground arith in absurd (ne (omega arith)),
    ),
    ground arith,
  )
]

-- `strncmp` of two strings returns, and returns 0 exactly where their first `n` bytes agree.
pub strncmp_lem :
    (t u a b : List ℕ) (n : ℕ)
    → Spells t a
    → Spells u b
    → (r : ℤ) × (strncmp a b n ≡ some r) × ((r ≡ pos 0) ↔ (take n t ≡ take n u))
unfolding strncmp
strncmp_lem t u a b zero v w = (pos 0, refl, (λ z. refl, λ e. refl))
strncmp_lem t u [] b (suc n) v w = elim v [ ]
strncmp_lem t u (c ∷ a) [] (suc n) v w = elim w [ ]
strncmp_lem [] [] (c ∷ a) (d ∷ b) (suc n) v w = (pos 0, ground arith, (λ z. refl, λ e. refl))
strncmp_lem [] (y ∷ u) (c ∷ a) (d ∷ b) (suc n) v w = (
  byte_diff c d,
  ground arith,
  (λ z. absurd (omega (arith, byte_diff-zero c d z)), λ e. absurd (cc)),
)
strncmp_lem (x ∷ t) [] (c ∷ a) (d ∷ b) (suc n) v w = (
  byte_diff c d,
  ground arith,
  (λ z. absurd (omega (arith, byte_diff-zero c d z)), λ e. absurd (cc)),
)
strncmp_lem (x ∷ t) (y ∷ u) (c ∷ a) (d ∷ b) (suc n) v w = elim (ℕ_discrete c d) [
  | yes e ↦
      let (r, is, eq) = strncmp_lem t u a b n v.2 w.2 in
      let same : x ≡ y = omega arith in
      (r, ground arith, (λ z. ap₂ ◌∷◌ same (eq.0 z), λ z. eq.1 (ground arith)))
  | no ne ↦ (
    byte_diff c d,
    ground arith,
    (
      λ z. absurd (ne (byte_diff-zero c d z)),
      λ z. let heads : x ≡ y = ground arith in absurd (ne (omega arith)),
    ),
  )
]

-- `memcmp` inside both buffers returns 0 exactly where the first `n` bytes agree.
pub memcmp_lem :
    (a b : List ℕ) (n : ℕ)
    → n ≤ length a
    → n ≤ length b
    → (r : ℤ) × (memcmp a b n ≡ some r) × ((r ≡ pos 0) ↔ (take n a ≡ take n b))
unfolding memcmp
memcmp_lem a b zero h k = (pos 0, refl, (λ z. refl, λ e. refl))
memcmp_lem [] b (suc n) h k = absurd (omega arith)
memcmp_lem (c ∷ a) [] (suc n) h k = absurd (omega arith)
memcmp_lem (c ∷ a) (d ∷ b) (suc n) h k = elim (ℕ_discrete c d) [
  | yes e ↦
      let (r, is, eq) = memcmp_lem a b n (omega arith) (omega arith) in
      (r, ground arith, (λ z. ap₂ ◌∷◌ e (eq.0 z), λ z. eq.1 (ground arith)))
  | no ne ↦ (
    byte_diff c d,
    ground arith,
    (
      λ z. absurd (ne (byte_diff-zero c d z)),
      λ z. let heads : c ≡ d = ground arith in absurd (ne heads),
    ),
  )
]

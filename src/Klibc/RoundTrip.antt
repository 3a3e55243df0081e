-- ===== src/Klibc/RoundTrip.antt =====
-- What `itoa` prints in base ten, `atoi` reads.
use mathlib.Core.Option
use mathlib.Core.List.{reverse, reverse-cons, reverse-append}
use native.Mathlib.Nat.{pow-suc}
use mazuki_os.Base.{
  ℕ, zero, suc, ◌+◌, ◌-◌, ◌/◌, ◌%◌, ◌^◌, ◌<◌, ◌≡◌, ◌≢◌, refl, ap, ◌∙◌, false, some, List, [], ◌∷◌,
  ◌++◌, append_assoc, arith, ==_ne, lt→ltb, ℤ, pos, negsuc, signed32, signed32_small, ℕ_discrete,
}
use mazuki_os.Klibc.Number.{glyph, digits, itoa, atoi_loop, atoi}

pub signed32_neg : (n : ℕ) → suc n < 2 ^ 31 → signed32 ((2 ^ 32 - suc n) % 2 ^ 32) ≡ negsuc n
signed32_neg n h = ground arith

-- Reading the digits of a number, the first one first, and going on behind them.
atoi_loop-digits :
    (fuel value : ℕ) (s : List ℕ)
    → value < 2 ^ fuel
    → value < 2 ^ 32
    → atoi_loop 0 (reverse (digits fuel 10 value false) ++ s) ≡ atoi_loop value s
unfolding digits atoi_loop
atoi_loop-digits zero value s h k = let e : value ≡ 0 = ground (arith, h) in rw e refl
atoi_loop-digits (suc fuel) value s h k = elim (ℕ_discrete value 0) [
  | yes e ↦ rw e refl
  | no ne ↦
      rw (==_ne value 0 ne, reverse-cons, append_assoc)
        (atoi_loop-digits fuel (value / 10) (glyph false (value % 10) ∷ s)
            (omega (arith, pow-suc 2 fuel)) (omega arith)
          ∙ rw
              (
                lt→ltb (value % 10) 10 (omega arith),
                ==_ne (48 + value % 10) 0 (omega arith),
                lt→ltb (48 + value % 10) 128 (omega arith),
              )
              (ap (λ n. atoi_loop n s) (omega arith)))
]

-- The `int`s but the least one.
abbrev pub IsSmall : ℤ → Type 0
IsSmall (pos n) = n < 2 ^ 31
IsSmall (negsuc n) = suc n < 2 ^ 31

-- A text that does not begin with a minus.
abbrev Unsigned : List ℕ → Type 0
Unsigned [] = ⊥
Unsigned (c ∷ s) = c ≢ b'-'

digits-Unsigned :
    (fuel value : ℕ) (s : List ℕ)
    → Unsigned s
    → Unsigned (reverse (digits fuel 10 value false) ++ s)
unfolding digits
digits-Unsigned zero value s u = u
digits-Unsigned (suc fuel) value s u = elim (ℕ_discrete value 0) [
  | yes e ↦ rw e u
  | no ne ↦
      rw (==_ne value 0 ne, reverse-cons, append_assoc, lt→ltb (value % 10) 10 (omega arith))
        (digits-Unsigned fuel (value / 10) ((48 + value % 10) ∷ s) (omega arith))
]

atoi-Unsigned : (s : List ℕ) → Unsigned s → atoi s ≡ Option.map signed32 (atoi_loop 0 s)
unfolding atoi
atoi-Unsigned [] u = elim u [ ]
atoi-Unsigned (c ∷ s) u = rw (==_ne c b'-' u) refl

read_back :
    (n : ℕ) (behind : List ℕ)
    → n < 2 ^ 31
    → atoi_loop 0 (reverse (digits 32 10 n false) ++ 0 ∷ behind) ≡ some n
unfolding atoi_loop
read_back n behind h = atoi_loop-digits 32 n (0 ∷ behind) (omega arith) (omega arith)

-- What `itoa` prints in base ten, `atoi` reads back, whatever stands behind it; the least `int` is
-- left out.
pub atoi-itoa : (v : ℤ) (behind : List ℕ) → IsSmall v → atoi (itoa v 10 ++ behind) ≡ some v
unfolding itoa
atoi-itoa (pos zero) behind h = unfold atoi in refl
atoi-itoa (pos (suc n)) behind h = rw append_assoc (
    atoi-Unsigned (reverse (digits 32 10 (suc n) false) ++ 0 ∷ behind)
      (digits-Unsigned 32 (suc n) (0 ∷ behind) (omega arith))
    ∙ rw (read_back (suc n) behind h) (ap some (signed32_small (suc n) h)))
atoi-itoa (negsuc n) behind h =
    rw (==_ne (suc n) (2 ^ 31) (omega arith), reverse-append, append_assoc)
      (unfold atoi in rw (read_back (suc n) behind h) (ap some (signed32_neg n h)))

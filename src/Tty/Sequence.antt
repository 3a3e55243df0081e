-- ===== src/Tty/Sequence.antt =====
-- The sequences that `parse_ansi` reads.
use mathlib.Core.List.{reverse, reverse-cons}
use native.Mathlib.Nat.{pow-suc}
use mazuki_os.Base.{
  ℕ, zero, suc, ◌+◌, ◌*◌, ◌/◌, ◌%◌, ◌^◌, ◌≤◌, ◌<◌, ◌≡◌, refl, ap, ◌∙◌, Bool, true, false, List, [],
  ◌∷◌, ◌++◌, append_assoc, arith, ==_ne, lt→ltb, le→leb, lt→leb, sym, ℕ_discrete, pos,
}
use mazuki_os.Klibc.Number.{glyph, digits, itoa}
use mazuki_os.Tty.{Tty, ansi_arg1, ansi_arg2, ansi_digit, ansi_final, parse_ansi, tty_write_char}

-- The calls for a text.
unfoldable pub write_all : List ℕ → Tty → Tty
write_all [] t = t
write_all (c ∷ s) t = write_all s (tty_write_char c t)

-- A number in base ten, as `itoa` writes it.
abbrev pub decimal_text : ℕ → List ℕ
decimal_text zero = b'0' ∷ []
decimal_text (suc n) = reverse (digits 32 10 (suc n) false)

pub itoa-decimal_text : (n : ℕ) → itoa (pos n) 10 ≡ decimal_text n ++ 0 ∷ []
unfolding itoa
itoa-decimal_text zero = refl
itoa-decimal_text (suc n) = refl

-- Inside a sequence, with the value so far of the first or the second argument.
abbrev reading : Bool → ℕ → Tty → Tty
reading false v t = record t { arg1 = v; ansi_state = 2; ansi_current_arg = ansi_arg1 }
reading true v t = record t { arg2 = v; ansi_state = 2; ansi_current_arg = ansi_arg2 }

parse_digit :
    (c : ℕ) (t : Tty)
    → t.ansi_state ≡ 2
    → b'0' ≤ c
    → c ≤ b'9'
    → tty_write_char c t ≡ ansi_digit t.ansi_current_arg c t
unfolding tty_write_char parse_ansi
parse_digit c t e lo hi = rw (e, le→leb b'0' c lo, le→leb c b'9' hi) refl

digit_step :
    (second : Bool) (v d : ℕ) (t : Tty)
    → d < 10
    → v * 10 + d < 2 ^ 32
    → tty_write_char (48 + d) (reading second v t) ≡ reading second (v * 10 + d) t
unfolding ansi_digit
digit_step false v d t h k =
    parse_digit (48 + d) (reading false v t) refl (omega arith) (omega arith)
    ∙ ap (λ n. reading false n t) (omega arith)
digit_step true v d t h k =
    parse_digit (48 + d) (reading true v t) refl (omega arith) (omega arith)
    ∙ ap (λ n. reading true n t) (omega arith)

-- The digits of a number and what stands behind them.
write_digits :
    (second : Bool) (fuel value : ℕ) (s : List ℕ) (t : Tty)
    → value < 2 ^ fuel
    → value < 2 ^ 32
    → write_all (reverse (digits fuel 10 value false) ++ s) (reading second 0 t)
      ≡ write_all s (reading second value t)
unfolding digits write_all glyph
write_digits second zero value s t h k =
    let e : value ≡ 0 = ground (arith, h) in ap (λ v. write_all s (reading second v t)) (sym e)
write_digits second (suc fuel) value s t h k = elim (ℕ_discrete value 0) [
  | yes e ↦ rw e refl
  | no ne ↦
      rw (==_ne value 0 ne, reverse-cons, append_assoc, lt→ltb (value % 10) 10 (omega arith))
        (write_digits second fuel (value / 10) ((48 + value % 10) ∷ s) t
            (omega (arith, pow-suc 2 fuel)) (omega arith)
          ∙ ap (write_all s)
              (digit_step second (value / 10) (value % 10) t (omega arith) (omega arith))
          ∙ ap (λ n. write_all s (reading second n t)) (omega arith))
]

text_digits :
    (second : Bool) (n : ℕ) (s : List ℕ) (t : Tty)
    → n < 2 ^ 32
    → write_all (decimal_text n ++ s) (reading second 0 t) ≡ write_all s (reading second n t)
unfolding write_all
text_digits second zero s t h =
    ap (write_all s) (digit_step second 0 0 t (omega arith) (omega arith))
text_digits second (suc n) s t h = write_digits second 32 (suc n) s t h h

-- A letter that ends a sequence.
abbrev pub IsFinal : ℕ → Type 0
IsFinal c = b';' < c

parse_final : (c : ℕ) (t : Tty) → t.ansi_state ≡ 2 → IsFinal c → tty_write_char c t ≡ ansi_final c t
unfolding tty_write_char parse_ansi
parse_final c t e h =
    rw (e, le→leb b'0' c (omega arith), lt→leb c b'9' (omega arith), ==_ne c b';' (omega arith))
      refl

opening :
    (s : List ℕ) (t : Tty)
    → t.ansi_state ≡ 0
    → write_all (27 ∷ b'[' ∷ s) t
      ≡ write_all s (record t { ansi_state = 2; arg1 = 0; arg2 = 0; ansi_current_arg = ansi_arg1 })
unfolding write_all tty_write_char parse_ansi
opening s t e = rw e refl

semicolon :
    (s : List ℕ) (t : Tty)
    → t.ansi_state ≡ 2
    → write_all (b';' ∷ s) t ≡ write_all s (record t { ansi_current_arg = ansi_arg2 })
unfolding write_all tty_write_char parse_ansi
semicolon s t e = rw e refl

-- Outside of a sequence, the texts of two numbers below 2 ^ 32 between `ESC [`, a semicolon and a
-- letter act as that letter does on these two numbers.
pub ansi_sequence :
    (a b c : ℕ) (t : Tty)
    → t.ansi_state ≡ 0
    → a < 2 ^ 32
    → b < 2 ^ 32
    → IsFinal c
    → write_all (27 ∷ b'[' ∷ (decimal_text a ++ b';' ∷ (decimal_text b ++ c ∷ []))) t
      ≡ ansi_final c (record t { ansi_state = 2; arg1 = a; arg2 = b; ansi_current_arg = ansi_arg2 })
ansi_sequence a b c t e h k f =
    opening (decimal_text a ++ b';' ∷ (decimal_text b ++ c ∷ [])) t e
    ∙ text_digits false a (b';' ∷ (decimal_text b ++ c ∷ [])) (record t { arg2 = 0 }) h
    ∙ semicolon (decimal_text b ++ c ∷ []) (reading false a (record t { arg2 = 0 })) refl
    ∙ text_digits true b (c ∷ []) (record t { arg1 = a }) k
    ∙ unfold write_all in parse_final c (reading true b (record t { arg1 = a })) refl f

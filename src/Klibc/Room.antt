-- ===== src/Klibc/Room.antt =====
-- The room that `itoa` needs, and what it writes for a negative number in another base than ten.
use mathlib.Core.List.{reverse, reverse-cons}
use native.Mathlib.Nat.{mod-lt, pow-zero, pow-suc, div-lt_iff_lt-mul}
use mazuki_os.Base.{
  ℕ, zero, suc, ◌+◌, ◌*◌, ◌-◌, ◌/◌, ◌%◌, ◌^◌, ◌≤◌, ◌<◌, ◌≡◌, ◌≢◌, refl, Bool, true, false, List, [],
  ◌∷◌, ◌++◌, append_assoc, arith, ◌==◌, ==_ne, length, length-append, ℤ, pos, negsuc, ℕ_discrete,
}
use mazuki_os.Klibc.Number.{glyph, digits, buffer_of, itoa}

-- The `int`s.
abbrev pub IsInt : ℤ → Type 0
IsInt (pos n) = n < 2 ^ 31
IsInt (negsuc n) = n < 2 ^ 31

digits-le-fuel :
    (fuel base value : ℕ) (negative : Bool) → length (digits fuel base value negative) ≤ fuel
unfolding digits
digits-le-fuel zero base value negative = omega arith
digits-le-fuel (suc fuel) base value negative =
    ground (arith, digits-le-fuel fuel base (value / base) negative)

-- The number of digits: at most `k` of a number below `base ^ k`.
length-digits :
    (fuel k base value : ℕ) (negative : Bool)
    → value < base ^ k
    → 0 < base
    → length (digits fuel base value negative) ≤ k
unfolding digits
length-digits zero k base value negative h b = omega arith
length-digits (suc fuel) zero base value negative h b =
    let e : value ≡ 0 = omega (arith, pow-zero base) in rw e (omega arith)
length-digits (suc fuel) (suc k) base value negative h b = elim (ℕ_discrete value 0) [
  | yes e ↦ rw e (omega arith)
  | no ne ↦ rw (==_ne value 0 ne) (
      omega (
        arith,
        length-digits fuel k base (value / base) negative
            ((div-lt_iff_lt-mul b).1 (rw pow-suc at h)) b,
      ))
]

digits_none : (m base : ℕ) (negative : Bool) → digits m base 0 negative ≡ []
unfolding digits
digits_none zero base negative = refl
digits_none (suc m) base negative = refl

div_small : (fuel base value : ℕ) → value < 2 ^ suc fuel → 2 ≤ base → value / base < 2 ^ fuel
div_small fuel base value h b =
    let more : 2 ^ fuel * 2 ≤ 2 ^ fuel * base = grind arith in
    (div-lt_iff_lt-mul (omega arith)).1 (omega (arith, pow-suc 2 fuel, more))

-- More rounds of the loop change nothing.
digits_enough :
    (fuel m base value : ℕ) (negative : Bool)
    → value < 2 ^ fuel
    → 2 ≤ base
    → digits (fuel + m) base value negative ≡ digits fuel base value negative
unfolding digits
digits_enough zero m base value negative h b =
    let e : value ≡ 0 = omega (arith, pow-zero 2) in
    let none_more : 0 + m ≡ m = omega arith in rw (e, none_more) (digits_none m base negative)
digits_enough (suc fuel) m base value negative h b =
    let e : suc fuel + m ≡ suc (fuel + m) = omega arith in
    rw (e, digits_enough fuel m base (value / base) negative (div_small fuel base value h b) b) refl

-- The number without its sign.
abbrev pub magnitude : ℤ → ℕ
magnitude (pos n) = n
magnitude (negsuc n) = suc n

magnitude_enough :
    (v : ℤ) (base m : ℕ) (negative : Bool)
    → IsInt v
    → 2 ≤ base
    → digits (32 + m) base (magnitude v) negative ≡ digits 32 base (magnitude v) negative
magnitude_enough (pos n) base m negative h b = digits_enough 32 m base n negative (omega arith) b
magnitude_enough (negsuc n) base m negative h b =
    digits_enough 32 m base (suc n) negative (omega arith) b

length-reverse : (xs : List ℕ) → length (reverse xs) ≡ length xs
length-reverse [] = refl
length-reverse (x ∷ xs) =
    rw reverse-cons (omega (arith, length-append (reverse xs) (x ∷ []), length-reverse xs))

buffer_of_room :
    (v : ℤ) (base : ℕ)
    → IsInt v
    → (length (buffer_of v base) ≤ 33) × (base ≡ 10 → length (buffer_of v base) ≤ 11)
unfolding buffer_of
buffer_of_room (pos n) base h = (
  omega (arith, digits-le-fuel 32 base n false),
  λ e. rw e (omega (arith, length-digits 32 10 10 n false (omega arith) (omega arith))),
)
buffer_of_room (negsuc n) base h = elim (ℕ_discrete base 10) [
  | yes e ↦
      let some_sign : Bool = suc n == 2 ^ 31 in
      let short : length (digits 32 10 (suc n) some_sign ++ b'-' ∷ []) ≤ 11 = omega (
        arith,
        length-append (digits 32 10 (suc n) some_sign) (b'-' ∷ []),
        length-digits 32 10 10 (suc n) some_sign (omega arith) (omega arith),
      ) in
      (rw e (omega (arith, short)), λ e. rw e short)
  | no ne ↦ (
    rw (==_ne base 10 ne) (omega (arith, digits-le-fuel 32 base (suc n) true)),
    λ e. absurd (ne e),
  )
]

itoa_room :
    (v : ℤ) (base : ℕ)
    → IsInt v
    → (length (buffer_of v base) ≤ 33)
      × (length (itoa v base) ≤ 34)
      × (base ≡ 10 → length (itoa v base) ≤ 12)
unfolding itoa
itoa_room (pos zero) base h = ((buffer_of_room (pos zero) base h).0, omega arith, λ e. omega arith)
itoa_room (pos (suc n)) base h =
    let r = buffer_of_room (pos (suc n)) base h in
    let l = length-append (reverse (buffer_of (pos (suc n)) base)) (0 ∷ []) in
    let k = length-reverse (buffer_of (pos (suc n)) base) in
    (r.0, omega (arith, l, k, r.0), λ e. omega (arith, l, k, r.1 e))
itoa_room (negsuc n) base h =
    let r = buffer_of_room (negsuc n) base h in
    let l = length-append (reverse (buffer_of (negsuc n) base)) (0 ∷ []) in
    let k = length-reverse (buffer_of (negsuc n) base) in
    (r.0, omega (arith, l, k, r.0), λ e. omega (arith, l, k, r.1 e))

-- For every `int` and every base from two on, the loop ends within 32 rounds: any number of further
-- ones writes no other digits. The digits and the sign fit into `buf`, which has 33 bytes, and the
-- text and its zero take at most 34 bytes, in base ten at most 12.
pub length-itoa :
    (v : ℤ) (base : ℕ)
    → IsInt v
    → 2 ≤ base
    → ((m : ℕ) (negative : Bool)
        → digits (32 + m) base (magnitude v) negative ≡ digits 32 base (magnitude v) negative)
      × (length (buffer_of v base) ≤ 33)
      × (length (itoa v base) ≤ 34)
      × (base ≡ 10 → length (itoa v base) ≤ 12)
length-itoa v base h b =
    let (buffer, text, decimal) = itoa_room v base h in
    (λ m negative. magnitude_enough v base m negative h b, buffer, text, decimal)

-- No byte is a letter or a digit but 0.
abbrev pub NoGlyph : List ℕ → Type 0
NoGlyph [] = Unit
NoGlyph (c ∷ s) = (c ≤ b'0') × NoGlyph s

digits-NoGlyph :
    (fuel base value : ℕ) (s : List ℕ)
    → 0 < base
    → base ≤ 49
    → NoGlyph s
    → NoGlyph (reverse (digits fuel base value true) ++ s)
unfolding digits glyph
digits-NoGlyph zero base value s p b h = h
digits-NoGlyph (suc fuel) base value s p b h = elim (ℕ_discrete value 0) [
  | yes e ↦ rw e h
  | no ne ↦
      let small : (2 ^ 32 + 48 - value % base) % 256 ≤ b'0' =
        let less : value % base < base = mod-lt value p in omega arith in
      rw (==_ne value 0 ne, reverse-cons, append_assoc)
        (digits-NoGlyph fuel base (value / base) ((2 ^ 32 + 48 - value % base) % 256 ∷ s) p b
          (small, h))
]

-- A negative `int` in a base from two to 49 but ten, such as the 16 of `%x`, is printed with no
-- letter and no digit but 0.
pub itoa-NoGlyph :
    (n base : ℕ) → n < 2 ^ 31 → base ≢ 10 → 2 ≤ base → base ≤ 49 → NoGlyph (itoa (negsuc n) base)
unfolding itoa buffer_of
itoa-NoGlyph n base small ne two few =
    rw (==_ne base 10 ne)
      (digits-NoGlyph 32 base (suc n) (0 ∷ []) (omega arith) few (omega arith, tt))

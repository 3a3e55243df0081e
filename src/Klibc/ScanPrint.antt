-- ===== src/Klibc/ScanPrint.antt =====
-- `scanf` reads the numbers that `itoa` printed.
use mathlib.Core.List.{reverse, reverse-cons, reverse-append, map}
use native.Mathlib.Nat.{pow-zero, pow-suc}
use mazuki_os.Base.{
  ℕ, zero, suc, ◌+◌, ◌/◌, ◌%◌, ◌^◌, ◌<◌, ◌≡◌, ◌≢◌, refl, ap, sym, ◌∙◌, Bool, true, false, some,
  List, [], ◌∷◌, ◌++◌, length, append-nil, append_assoc, arith, lt→ltb, ◌==◌, ==_ne, if◌then◌else◌,
  ℤ, pos, negsuc, signed32, signed32_small, ℕ_discrete,
}
use mazuki_os.Klibc.Number.{digits, buffer_of, itoa}
use mazuki_os.Klibc.RoundTrip.{IsSmall, signed32_neg}
use mazuki_os.Klibc.Line.{ArePlain, read_line, read_loop_text}
use mazuki_os.Klibc.Print.{shown}
use mazuki_os.Klibc.Scan.{
  Stored.int, store_if, skip_blanks, is_digit, decimal, scan_int, scan_conversion, scan_format,
  scanf,
}

is_digit-digit : (d : ℕ) → d < 10 → is_digit (48 + d) ≡ true
is_digit-digit d h = ground arith

decimal-step :
    (q value : ℕ) (found : Bool) (s : List ℕ)
    → q ≡ value / 10
    → value < 2 ^ 32
    → decimal q found ((48 + value % 10) ∷ s) ≡ decimal value true s
unfolding decimal
decimal-step q value found s e h =
    rw (is_digit-digit (value % 10) (omega arith)) (ap (λ v. decimal v true s) (omega arith))

-- The digits of a number are read as that number, and the scan goes on behind them.
decimal-digits :
    (fuel value : ℕ) (found : Bool) (s : List ℕ)
    → value < 2 ^ fuel
    → value < 2 ^ 32
    → decimal 0 found (reverse (digits fuel 10 value false) ++ s)
      ≡ decimal value (if value == 0 then found else true) s
unfolding digits
decimal-digits zero value found s h k = let e : value ≡ 0 = ground (arith, h) in rw e refl
decimal-digits (suc fuel) value found s h k = elim (ℕ_discrete value 0) [
  | yes e ↦ rw e refl
  | no ne ↦
      rw (==_ne value 0 ne, reverse-cons, append_assoc, lt→ltb (value % 10) 10 (omega arith))
        (decimal-digits fuel (value / 10) found ((48 + value % 10) ∷ s)
            (omega (arith, pow-suc 2 fuel)) (omega arith)
          ∙ decimal-step (value / 10) value (if value / 10 == 0 then found else true) s refl k)
]

digits_zero : (fuel : ℕ) → digits fuel 10 0 false ≡ []
unfolding digits
digits_zero zero = refl
digits_zero (suc fuel) = refl

abbrev StartsDigit : List ℕ → Type 0
StartsDigit [] = ⊥
StartsDigit (c ∷ s) = is_digit c ≡ true

digits-StartsDigit :
    (fuel value : ℕ) (s : List ℕ)
    → value < 2 ^ fuel
    → value ≢ 0
    → StartsDigit (reverse (digits fuel 10 value false) ++ s)
unfolding digits
digits-StartsDigit zero value s h nz = absurd (omega (arith, pow-zero 2))
digits-StartsDigit (suc fuel) value s h nz =
    rw (==_ne value 0 nz, reverse-cons, append_assoc, lt→ltb (value % 10) 10 (omega arith))
      (elim (ℕ_discrete (value / 10) 0) [
        | yes e ↦ rw (e, digits_zero fuel) (is_digit-digit (value % 10) (omega arith))
        | no ne ↦
            digits-StartsDigit fuel (value / 10) ((48 + value % 10) ∷ s)
              (omega (arith, pow-suc 2 fuel)) ne
      ])

skip_blanks-digit : (s : List ℕ) → StartsDigit s → skip_blanks s ≡ s
unfolding skip_blanks
skip_blanks-digit [] h = elim h [ ]
skip_blanks-digit (c ∷ s) h = ground arith

scan_int-digit :
    (s : List ℕ)
    → StartsDigit s
    → scan_int s ≡ (let d = decimal 0 false s in (store_if d.found (int (signed32 d.val)), d.rest))
unfolding scan_int
scan_int-digit [] h = elim h [ ]
scan_int-digit (c ∷ s) h =
    let no_minus : c ≢ b'-' = ground arith in
    let no_plus : c ≢ b'+' = ground arith in rw (==_ne c b'-' no_minus, ==_ne c b'+' no_plus) refl

shown-digits :
    (fuel value : ℕ) (s : List ℕ)
    → shown (reverse (digits fuel 10 value false) ++ s)
      ≡ reverse (digits fuel 10 value false) ++ shown s
unfolding digits
shown-digits zero value s = refl
shown-digits (suc fuel) value s = elim (ℕ_discrete value 0) [
  | yes e ↦ rw e refl
  | no ne ↦
      rw
        (
          ==_ne value 0 ne,
          reverse-cons,
          append_assoc,
          append_assoc,
          lt→ltb (value % 10) 10 (omega arith),
        )
        (shown-digits fuel (value / 10) ((48 + value % 10) ∷ s)
          ∙ rw (==_ne (48 + value % 10) 0 (omega arith)) refl)
]

-- The decimal text of an `int` and a blank behind it are scanned as the `int`, up to the blank.
scan_int-itoa :
    (v : ℤ) (s : List ℕ)
    → IsSmall v
    → scan_int (skip_blanks (shown (itoa v 10) ++ 32 ∷ s)) ≡ (some (int v), 32 ∷ s)
unfolding itoa buffer_of
scan_int-itoa (pos zero) s h = unfold scan_int skip_blanks in refl
scan_int-itoa (pos (suc n)) s h =
    let start = digits-StartsDigit 32 (suc n) (32 ∷ s) (omega arith) (omega arith) in
    rw
      (
        shown-digits 32 (suc n) (0 ∷ []),
        append-nil,
        skip_blanks-digit (reverse (digits 32 10 (suc n) false) ++ 32 ∷ s) start,
        scan_int-digit (reverse (digits 32 10 (suc n) false) ++ 32 ∷ s) start,
        decimal-digits 32 (suc n) false (32 ∷ s) (omega arith) (omega arith),
      )
      (unfold decimal in rw (==_ne (suc n) 0 (omega arith), signed32_small (suc n) h) refl)
scan_int-itoa (negsuc n) s h =
    rw
      (
        ==_ne (suc n) (2 ^ 31) (omega arith),
        reverse-append,
        shown-digits 32 (suc n) (0 ∷ []),
        append-nil,
      )
      (unfold scan_int skip_blanks decimal in
        rw
          (
            decimal-digits 32 (suc n) false (32 ∷ s) (omega arith) (omega arith),
            ==_ne (suc n) 0 (omega arith),
          )
          (ap (λ w. (some (int w), 32 ∷ s)) (signed32_neg n h)))

-- A format of one `%d` and a blank for each number, the line that prints them so, and the result.
abbrev pub formats : List ℤ → List ℕ
formats [] = []
formats (v ∷ vs) = b'%' ∷ b'd' ∷ 32 ∷ formats vs

abbrev pub line_of : List ℤ → List ℕ
line_of [] = []
line_of (v ∷ vs) = shown (itoa v 10) ++ 32 ∷ line_of vs

abbrev pub AreSmall : List ℤ → Type 0
AreSmall [] = Unit
AreSmall (v ∷ vs) = IsSmall v × AreSmall vs

scan_format_int :
    (fmt p : List ℕ)
    → scan_format (b'%' ∷ b'd' ∷ fmt) p
      ≡ (let (stored, p') = scan_int (skip_blanks p) in stored ∷ scan_format fmt p')
unfolding scan_format scan_conversion
scan_format_int fmt p = refl

scan_format_blank :
    (vs : List ℤ) (p : List ℕ) → scan_format (32 ∷ formats vs) p ≡ scan_format (formats vs) p
unfolding scan_format
scan_format_blank [] p = refl
scan_format_blank (v ∷ vs) p = refl

-- A blank in front of the line changes nothing for a `%d`.
scan_format_ahead :
    (vs : List ℤ) (p : List ℕ) → scan_format (formats vs) (32 ∷ p) ≡ scan_format (formats vs) p
unfolding skip_blanks
scan_format_ahead [] p = unfold scan_format in refl
scan_format_ahead (v ∷ vs) p =
    scan_format_int (32 ∷ formats vs) (32 ∷ p) ∙ sym (scan_format_int (32 ∷ formats vs) p)

scan_format-itoa :
    (vs : List ℤ) (s : List ℕ)
    → AreSmall vs
    → scan_format (formats vs) (line_of vs ++ s) ≡ map (λ v. some (int v)) vs
scan_format-itoa [] s h = unfold scan_format in refl
scan_format-itoa (v ∷ vs) s h =
    scan_format_int (32 ∷ formats vs) (line_of (v ∷ vs) ++ s)
    ∙ rw (append_assoc, scan_int-itoa v (line_of vs ++ s) h.0)
        (ap (λ rest. some (int v) ∷ rest)
          (scan_format_blank vs (32 ∷ line_of vs ++ s)
            ∙ scan_format_ahead vs (line_of vs ++ s)
            ∙ scan_format-itoa vs s h.1))

digits-ArePlain :
    (fuel value : ℕ) (s : List ℕ)
    → ArePlain s
    → ArePlain (reverse (digits fuel 10 value false) ++ s)
unfolding digits
digits-ArePlain zero value s p = p
digits-ArePlain (suc fuel) value s p = elim (ℕ_discrete value 0) [
  | yes e ↦ rw e p
  | no ne ↦
      rw (==_ne value 0 ne, reverse-cons, append_assoc, lt→ltb (value % 10) 10 (omega arith))
        (digits-ArePlain fuel (value / 10) ((48 + value % 10) ∷ s)
          ((omega arith, omega arith, omega arith, omega arith), p))
]

itoa-ArePlain : (v : ℤ) (s : List ℕ) → IsSmall v → ArePlain s → ArePlain (shown (itoa v 10) ++ s)
unfolding itoa buffer_of
itoa-ArePlain (pos zero) s h p = ((omega arith, omega arith, omega arith, omega arith), p)
itoa-ArePlain (pos (suc n)) s h p =
    rw (shown-digits 32 (suc n) (0 ∷ []), append-nil) (digits-ArePlain 32 (suc n) s p)
itoa-ArePlain (negsuc n) s h p =
    rw
      (
        ==_ne (suc n) (2 ^ 31) (omega arith),
        reverse-append,
        shown-digits 32 (suc n) (0 ∷ []),
        append-nil,
      )
      ((omega arith, omega arith, omega arith, omega arith), digits-ArePlain 32 (suc n) s p)

line_of-ArePlain : (vs : List ℤ) → AreSmall vs → ArePlain (line_of vs)
line_of-ArePlain [] h = tt
line_of-ArePlain (v ∷ vs) h =
    itoa-ArePlain v (32 ∷ line_of vs) h.0
      ((omega arith, omega arith, omega arith, omega arith), line_of-ArePlain vs h.1)

shown-ArePlain : (t : List ℕ) → ArePlain t → shown (t ++ 10 ∷ []) ≡ t ++ 10 ∷ []
shown-ArePlain [] p = refl
shown-ArePlain (c ∷ t) p = rw (==_ne c 0 p.0.3, shown-ArePlain t p.1) refl

-- `scanf` with a `%d` for each of the numbers stores all of them, in order, if the keys are what
-- `itoa` prints of them, a blank behind each and then a return, and the line with its newline is
-- shorter than the buffer of 128 bytes; the least `int` is left out. The line is echoed, and the
-- keys behind it are left.
pub scanf-itoa :
    (vs : List ℤ) (behind : List ℕ)
    → AreSmall vs
    → length (line_of vs) + 1 < 128
    → let line = line_of vs ++ 10 ∷ [] in
      scanf (formats vs) (line_of vs ++ 10 ∷ behind)
      ≡ some (map (λ v. some (int v)) vs, record { line = line; echo = line; keys = behind })
unfolding scanf read_line
scanf-itoa vs behind h room =
    let plain = line_of-ArePlain vs h in
    rw
      (
        read_loop_text 127 (line_of vs) behind [] plain (omega arith),
        shown-ArePlain (line_of vs) plain,
        scan_format-itoa vs (10 ∷ []) h,
      )
      refl

-- ===== src/Klibc/Number.antt =====
-- `itoa` and `atoi`. An `int` of 32 bits is a ℤ in `itoa` and a bit pattern below 2 ^ 32 in the
-- sums of `atoi`, which wrap.
use mathlib.Core.Option
use mathlib.Core.List.{reverse}
use mazuki_os.Base.{
  ℕ, zero, suc, ◌+◌, ◌-◌, ◌*◌, ◌/◌, ◌%◌, ◌^◌, Bool, true, false, Option, none, some, List, [], ◌∷◌,
  ◌++◌, ltb, ◌==◌, if◌then◌else◌, ℤ, pos, negsuc, signed32,
}

-- `(rem < 10) ? ('0' + rem) : ('A' + rem - 10)`, of the remainder `-rem` if `negative`, as a byte: a
-- `char` wraps.
unfoldable pub glyph : Bool → ℕ → ℕ
glyph false rem = if ltb rem 10 then 48 + rem else (65 + rem - 10) % 256
glyph true rem = (2 ^ 32 + 48 - rem) % 256

-- `while (value)`: the digits in `buf`, the last one first. Division rounds towards zero, so that
-- magnitude and sign go apart; the fuel 32 is enough for 32 bits and a base from two on. With base 0
-- the C faults and with base 1 its loop does not end; these are outside the model.
unfoldable pub digits : ℕ → ℕ → ℕ → Bool → List ℕ
unfolding glyph
digits zero base value negative = []
digits (suc fuel) base value negative =
    let rest = digits fuel base (value / base) negative in
    if value == 0 then [] else glyph negative (value % base) ∷ rest

-- The sign that base 10 writes; `-value` of the least `int` is that `int` again.
unfoldable pub buffer_of : ℤ → ℕ → List ℕ
buffer_of (pos n) base = digits 32 base n false
buffer_of (negsuc n) base =
    if base == 10
    then digits 32 base (suc n) (suc n == 2 ^ 31) ++ b'-' ∷ []
    else digits 32 base (suc n) true

-- What is written to `str`, with the zero at its end.
unfoldable pub itoa : ℤ → ℕ → List ℕ
unfolding buffer_of
itoa (pos zero) base = b'0' ∷ 0 ∷ []
itoa (pos (suc n)) base = reverse (buffer_of (pos (suc n)) base) ++ 0 ∷ []
itoa (negsuc n) base = reverse (buffer_of (negsuc n) base) ++ 0 ∷ []

-- A `char` is signed.
abbrev pub char_value : ℕ → ℕ
char_value c = if ltb c 128 then c else 2 ^ 32 - 256 + c

-- The loop of `atoi` from `str[i]` on.
unfoldable pub atoi_loop : ℕ → List ℕ → Option ℕ
atoi_loop res [] = none
atoi_loop res (c ∷ s) =
    let rest = atoi_loop ((res * 10 + (char_value c + 2 ^ 32 - 48)) % 2 ^ 32) s in
    if c == 0 then some res else rest

unfoldable pub atoi : List ℕ → Option ℤ
unfolding atoi_loop
atoi [] = none
atoi (c ∷ s) =
    if c == b'-'
    then Option.map (λ res. signed32 ((2 ^ 32 - res) % 2 ^ 32)) (atoi_loop 0 s)
    else Option.map signed32 (atoi_loop 0 (c ∷ s))

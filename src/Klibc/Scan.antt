-- ===== src/Klibc/Scan.antt =====
-- `scanf`: the line that it reads, and what each conversion stores behind its argument, `none`
-- where it stores nothing. The sums wrap at 32 bits; a `%s` has room for its word.
use mathlib.Core.Option
use mazuki_os.Klibc.Line.{Entered, read_line}
use mazuki_os.Klibc.Print.{shown}
use mazuki_os.Base.{
  ℕ, ◌+◌, ◌-◌, ◌*◌, ◌%◌, ◌^◌, Bool, true, false, ◌&&◌, ◌||◌, Option, none, some, List, [], ◌∷◌, leb,
  ◌==◌, if◌then◌else◌, ℤ, signed32,
}

-- What is stored: an `int`, an `unsigned`, a word without its zero, or a `char`.
pub data Stored : Type 0 where
  int : ℤ → Stored
  unsigned : ℕ → Stored
  word : List ℕ → Stored
  char : ℕ → Stored

abbrev pub is_blank : ℕ → Bool
is_blank c = (c == 32) || (c == 9)

unfoldable pub skip_blanks : List ℕ → List ℕ
skip_blanks [] = []
skip_blanks (c ∷ p) = let rest = skip_blanks p in if is_blank c then rest else c ∷ p

-- `val`, `found` and `p` of a loop over digits.
pub record Digits : Type 0 where
  pub val : ℕ
  pub found : Bool
  pub rest : List ℕ

abbrev pub is_digit : ℕ → Bool
is_digit c = leb b'0' c && leb c b'9'

unfoldable pub decimal : ℕ → Bool → List ℕ → Digits
decimal val found [] = record { val = val; found = found; rest = [] }
decimal val found (c ∷ p) =
    let further = decimal ((val * 10 + (c - b'0')) % 2 ^ 32) true p in
    if is_digit c then further else record { val = val; found = found; rest = c ∷ p }

abbrev pub is_lower_hex : ℕ → Bool
is_lower_hex c = leb b'a' c && leb c b'f'

abbrev pub is_upper_hex : ℕ → Bool
is_upper_hex c = leb b'A' c && leb c b'F'

abbrev pub hex_digit : ℕ → ℕ
hex_digit c =
    if is_digit c then c - b'0' else if is_lower_hex c then c - b'a' + 10 else c - b'A' + 10

unfoldable pub hexadecimal : ℕ → Bool → List ℕ → Digits
hexadecimal val found [] = record { val = val; found = found; rest = [] }
hexadecimal val found (c ∷ p) =
    let further = hexadecimal ((val * 16 + hex_digit c) % 2 ^ 32) true p in
    if is_digit c || is_lower_hex c || is_upper_hex c
    then further
    else record { val = val; found = found; rest = c ∷ p }

-- `val * sign` as an `int`.
abbrev pub negated : ℕ → ℤ
negated val = signed32 ((2 ^ 32 - val) % 2 ^ 32)

abbrev pub store_if : Bool → Stored → Option Stored
store_if found x = if found then some x else none

-- `%d` behind the blanks.
unfoldable pub scan_int : List ℕ → Option Stored × List ℕ
unfolding decimal
scan_int [] = (none, [])
scan_int (c ∷ p) =
    if c == b'-'
    then (let d = decimal 0 false p in (store_if d.found (int (negated d.val)), d.rest))
    else if c == b'+'
    then (let d = decimal 0 false p in (store_if d.found (int (signed32 d.val)), d.rest))
    else (let d = decimal 0 false (c ∷ p) in (store_if d.found (int (signed32 d.val)), d.rest))

-- `while (*p && *p != ' ' && *p != '\t' && *p != '\n')`: the word and the rest.
unfoldable pub scan_word : List ℕ → List ℕ × List ℕ
scan_word [] = ([], [])
scan_word (c ∷ p) =
    let (w, rest) = scan_word p in if is_blank c || (c == 10) then ([], c ∷ p) else (c ∷ w, rest)

abbrev pub scan_string : List ℕ → Option Stored × List ℕ
scan_string [] = (none, [])
scan_string (c ∷ p) = let (w, rest) = scan_word (c ∷ p) in (some (word w), rest)

abbrev pub scan_char : List ℕ → Option Stored × List ℕ
scan_char [] = (none, [])
scan_char (c ∷ p) = (some (char c), p)

abbrev pub scan_unsigned : Digits → Option Stored × List ℕ
scan_unsigned d = (store_if d.found (unsigned d.val), d.rest)

-- The conversion behind a `%`; any other character converts nothing and takes no argument.
unfoldable pub scan_conversion : ℕ → List ℕ → Option (Option Stored × List ℕ)
scan_conversion c p =
    if c == b'd'
    then some (scan_int (skip_blanks p))
    else if c == b'u'
    then some (scan_unsigned (decimal 0 false (skip_blanks p)))
    else if c == b'x'
    then some (scan_unsigned (hexadecimal 0 false (skip_blanks p)))
    else if c == b's'
    then some (scan_string (skip_blanks p))
    else if c == b'c'
    then some (scan_char p)
    else none

-- The loop over the format, given by its text: characters outside a conversion are passed over, and match nothing in
-- the line.
unfoldable pub scan_format : List ℕ → List ℕ → List (Option Stored)
scan_format [] p = []
scan_format (c ∷ []) p = []
scan_format (c ∷ d ∷ fmt) p =
    let plain = scan_format (d ∷ fmt) p in
    let converted : List (Option Stored) = elim (scan_conversion d p) [
      | none ↦ scan_format fmt p
      | some (stored, p') ↦ stored ∷ scan_format fmt p'
    ] in
    if c == b'%' then converted else plain

-- `MAX_INPUT`, the size of the buffer of `scanf`.
abbrev pub max_input : ℕ
max_input = 128

-- The line is read from the keys into the buffer, at most 127 bytes of it, and scanned as far as its
-- first zero; `none` is a call that still waits for a key. `assigned` is the number of what is
-- stored.
unfoldable pub scanf : List ℕ → List ℕ → Option (List (Option Stored) × Entered)
unfolding scan_format read_line
scanf fmt keys =
    Option.map (λ (e : Entered). (scan_format fmt (shown e.line), e)) (read_line max_input keys)

-- ===== src/Klibc/Print.antt =====
-- `printf`, `print_str` and `print_num`: the bytes given to `tty_write_char`, in order.
use mathlib.Core.Option
use mazuki_os.Base.{
  ℕ, ◌-◌, ◌%◌, ◌≡◌, ◌≢◌, refl, ap, ◌∙◌, Option, none, some, List, [], ◌∷◌, ◌++◌, ◌==◌, ==_ne,
  if◌then◌else◌, ℤ, pos, negsuc,
}
use mazuki_os.Klibc.Number.{itoa}

-- An argument behind the format: a string, by its text, or an `int`.
pub data Arg : Type 0 where
  text : List ℕ → Arg
  int : ℤ → Arg

-- `for (j = 0; buf[j]; j++)`: the bytes before the zero.
abbrev pub shown : List ℕ → List ℕ
shown [] = []
shown (c ∷ s) = let rest = shown s in if c == 0 then [] else c ∷ rest

-- `(char)` of an `int`.
abbrev pub char_of : ℤ → ℕ
char_of (pos n) = n % 256
char_of (negsuc n) = 255 - n % 256

unfoldable pub print_str : List ℕ → List ℕ
print_str s = shown s

unfoldable pub print_num : ℤ → List ℕ
print_num n = shown (itoa n 10)

-- The next argument, which must be of the type that `va_arg` names.
abbrev next_text : List Arg → Option (List ℕ × List Arg)
next_text (text s ∷ args) = some (shown s, args)
next_text _ = none

abbrev next_int : (ℤ → List ℕ) → List Arg → Option (List ℕ × List Arg)
next_int f (int v ∷ args) = some (f v, args)
next_int f _ = none

-- The character behind a `%`: what it prints, and the arguments left.
unfoldable pub convert : ℕ → List Arg → Option (List ℕ × List Arg)
convert c args =
    if c == b's'
    then next_text args
    else if c == b'd'
    then next_int (λ v. shown (itoa v 10)) args
    else if c == b'x'
    then next_int (λ v. shown (itoa v 16)) args
    else if c == b'c'
    then next_int (λ v. char_of v ∷ []) args
    else if c == b'%'
    then some (b'%' ∷ [], args)
    else some ([], args)

-- The format is given by its text, the bytes before its zero. A `%` at its end is printed.
unfoldable pub printf : List ℕ → List Arg → Option (List ℕ)
printf [] args = some []
printf (c ∷ []) args = some (c ∷ [])
printf (c ∷ d ∷ fmt) args =
    let plain = Option.map (λ out. c ∷ out) (printf (d ∷ fmt) args) in
    let converted : Option (List ℕ) = elim (convert d args) [
      | none ↦ none
      | some (out, args') ↦ Option.map (λ rest. out ++ rest) (printf fmt args')
    ] in
    if c == b'%' then converted else plain

-- What a format says, piece by piece.
pub data Piece : Type 0 where
  lit : ℕ → Piece
  str : List ℕ → Piece
  dec hex chr : ℤ → Piece
  percent : Piece

abbrev pub IsPiece : Piece → Type 0
IsPiece (lit c) = c ≢ b'%'
IsPiece _ = Unit

abbrev pub format_of : Piece → List ℕ
format_of (lit c) = c ∷ []
format_of (str t) = b'%' ∷ b's' ∷ []
format_of (dec v) = b'%' ∷ b'd' ∷ []
format_of (hex v) = b'%' ∷ b'x' ∷ []
format_of (chr v) = b'%' ∷ b'c' ∷ []
format_of percent = b'%' ∷ b'%' ∷ []

abbrev pub args_of : Piece → List Arg
args_of (lit c) = []
args_of (str t) = text t ∷ []
args_of (dec v) = int v ∷ []
args_of (hex v) = int v ∷ []
args_of (chr v) = int v ∷ []
args_of percent = []

abbrev pub out_of : Piece → List ℕ
out_of (lit c) = c ∷ []
out_of (str t) = shown t
out_of (dec v) = shown (itoa v 10)
out_of (hex v) = shown (itoa v 16)
out_of (chr v) = char_of v ∷ []
out_of percent = b'%' ∷ []

abbrev pub joined {ℓ} : {A : Type ℓ} → (Piece → List A) → List Piece → List A
joined f [] = []
joined f (p ∷ ps) = f p ++ joined f ps

abbrev pub ArePieces : List Piece → Type 0
ArePieces [] = Unit
ArePieces (p ∷ ps) = IsPiece p × ArePieces ps

printf-lit :
    (c : ℕ) (fmt : List ℕ) (args : List Arg)
    → c ≢ b'%'
    → printf (c ∷ fmt) args ≡ Option.map (λ out. c ∷ out) (printf fmt args)
unfolding printf
printf-lit c [] args ne = refl
printf-lit c (d ∷ fmt) args ne = rw (==_ne c b'%' ne) refl

-- `printf` of a format made of literal bytes and conversions, with an argument of the right type
-- for each conversion, prints what the pieces say, one behind the other.
pub printf_lem :
    (ps : List Piece)
    → ArePieces ps
    → printf (joined format_of ps) (joined args_of ps) ≡ some (joined out_of ps)
unfolding printf convert
printf_lem [] h = refl
printf_lem (lit c ∷ ps) h =
    unfold printf in
    (printf-lit c (joined format_of ps) (joined args_of ps) h.0
      ∙ ap (Option.map (λ out. c ∷ out)) (printf_lem ps h.1))
printf_lem (str t ∷ ps) h = rw (printf_lem ps h.1) refl
printf_lem (dec v ∷ ps) h = rw (printf_lem ps h.1) refl
printf_lem (hex v ∷ ps) h = rw (printf_lem ps h.1) refl
printf_lem (chr v ∷ ps) h = rw (printf_lem ps h.1) refl
printf_lem (percent ∷ ps) h = rw (printf_lem ps h.1) refl

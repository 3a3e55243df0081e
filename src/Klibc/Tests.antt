-- ===== src/Klibc/Tests.antt =====
-- Witnesses for klibc.c.
use mathlib.Core.List.{map}
use mazuki_os.Base.{
  ℕ, ◌+◌, ◌<◌, ◌++◌, Bool, ◌≡◌, ◌≤◌, arith, some, [], ◌∷◌, List, length, pos, negsuc,
}
use mazuki_os.Klibc.Number.{digits, buffer_of, itoa}
use mazuki_os.Klibc.Room.{length-itoa, NoGlyph, itoa-NoGlyph}
use mazuki_os.Klibc.Print.{
  Piece.lit, Piece.dec, Piece.percent, printf, joined, format_of, args_of, out_of, printf_lem,
}
use mazuki_os.Klibc.Scan.{Stored.int, scanf}
use mazuki_os.Klibc.ScanPrint.{formats, line_of, scanf-itoa}

abbrev ab : List ℕ
ab = b'a' ∷ b'b' ∷ []

abbrev aba : List ℕ
aba = b'a' ∷ b'b' ∷ b'a' ∷ []

-- The buffers of the two texts.
abbrev ab_buffer : List ℕ
ab_buffer = b'a' ∷ b'b' ∷ 0 ∷ []

abbrev aba_buffer : List ℕ
aba_buffer = b'a' ∷ b'b' ∷ b'a' ∷ 0 ∷ 5 ∷ []

length-itoa_example :
    ((m : ℕ) (negative : Bool) → digits (32 + m) 10 42 negative ≡ digits 32 10 42 negative)
    × (length (buffer_of (negsuc 41) 10) ≤ 33)
    × (length (itoa (negsuc 41) 10) ≤ 34)
    × (◌≡◌ {A = ℕ} 10 10 → length (itoa (negsuc 41) 10) ≤ 12)
length-itoa_example = length-itoa (negsuc 41) 10 (omega arith) (omega arith)

itoa-NoGlyph_example : NoGlyph (itoa (negsuc 254) 16)
itoa-NoGlyph_example = itoa-NoGlyph 254 16 (omega arith) (omega arith) (omega arith) (omega arith)

printf_lem_example :
    printf
      (joined format_of (lit b'x' ∷ dec (negsuc 4) ∷ percent ∷ []))
      (joined args_of (lit b'x' ∷ dec (negsuc 4) ∷ percent ∷ []))
    ≡ some (joined out_of (lit b'x' ∷ dec (negsuc 4) ∷ percent ∷ []))
printf_lem_example =
    printf_lem (lit b'x' ∷ dec (negsuc 4) ∷ percent ∷ []) (omega arith, (tt, (tt, tt)))

short_line : length (line_of (pos 7 ∷ negsuc 11 ∷ [])) + 1 < 128
unfolding itoa buffer_of digits
short_line = omega arith

scanf-itoa_example :
    let line = line_of (pos 7 ∷ negsuc 11 ∷ []) ++ 10 ∷ [] in
    scanf (formats (pos 7 ∷ negsuc 11 ∷ [])) (line_of (pos 7 ∷ negsuc 11 ∷ []) ++ 10 ∷ b'q' ∷ [])
    ≡ some (
      map (λ v. some (int v)) (pos 7 ∷ negsuc 11 ∷ []),
      record { line = line; echo = line; keys = b'q' ∷ [] },
    )
scanf-itoa_example =
    scanf-itoa (pos 7 ∷ negsuc 11 ∷ []) (b'q' ∷ []) (omega arith, (omega arith, tt)) short_line

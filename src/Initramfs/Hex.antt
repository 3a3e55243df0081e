-- ===== src/Initramfs/Hex.antt =====
-- `parse_hex_ascii` reads what the headers of an archive hold: eight digits.
use mazuki_os.Base.{
  ℕ, zero, suc, ◌+◌, ◌-◌, ◌*◌, ◌/◌, ◌%◌, ◌^◌, ◌<◌, ◌≡◌, refl, ap, ◌∙◌, some, List, [], ◌∷◌, ◌++◌,
  append_assoc, arith, ltb, if◌then◌else◌,
}
use native.Mathlib.Nat.{pow-suc}
use mazuki_os.Initramfs.{hex_value, parse_hex, parse_hex_ascii}

-- A digit as the archive has it: small letters.
abbrev pub hex_digit_of : ℕ → ℕ
hex_digit_of d = if ltb d 10 then b'0' + d else b'a' + (d - 10)

-- The last `n` digits of a number.
unfoldable pub hex_text : ℕ → ℕ → List ℕ
hex_text zero value = []
hex_text (suc n) value = hex_text n (value / 16) ++ hex_digit_of (value % 16) ∷ []

hex_value-hex_digit_of : (d : ℕ) → d < 16 → hex_value (hex_digit_of d) ≡ some d
unfolding hex_value
hex_value-hex_digit_of d h = ground arith

-- After `n` digits the loop stands behind them, with their value.
parse_hex-append :
    (n value : ℕ) (s : List ℕ) (m : ℕ)
    → value < 16 ^ n
    → value < 2 ^ 32
    → parse_hex (n + m) (hex_text n value ++ s) 0 ≡ parse_hex m s value
unfolding hex_text parse_hex
parse_hex-append zero value s m h k =
    ap (λ i. parse_hex i s 0) {x = 0 + m} {y = m} (omega arith)
    ∙ ap (parse_hex m s) (omega (arith, h))
parse_hex-append (suc n) value s m h k =
    let digit = hex_digit_of (value % 16) in
    let whole : (value / 16 * 16 + value % 16) % 2 ^ 32 ≡ value = omega (arith, k) in
    rw (append_assoc) (
      ap (λ i. parse_hex i (hex_text n (value / 16) ++ digit ∷ s) 0) {x = suc n + m} {y = n + suc m}
        (omega arith)
      ∙ parse_hex-append n (value / 16) (digit ∷ s) (suc m) (omega (arith, h, pow-suc 16 n))
          (omega (arith, k))
      ∙ rw (hex_value-hex_digit_of (value % 16) (omega arith), parse_hex, whole) refl)

-- The eight digits of a number of 32 bits are read as that number, whatever stands behind them.
pub parse_hex_ascii-hex_text :
    (value : ℕ) (s : List ℕ)
    → value < 2 ^ 32
    → parse_hex_ascii (hex_text 8 value ++ s) 8 ≡ some value
unfolding parse_hex_ascii parse_hex
parse_hex_ascii-hex_text value s h = parse_hex-append 8 value s 0 h h

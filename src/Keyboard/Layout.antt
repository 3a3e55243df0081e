-- ===== src/Keyboard/Layout.antt =====
-- The two tables of characters against each other.
use mazuki_os.Base.{
  ℕ, zero, suc, ◌-◌, ◌≤◌, ◌<◌, ◌≡◌, ◌↔◌, refl, Bool, true, false, ◌&&◌, not, arith, leb, ◌==◌,
  if◌then◌else◌,
}
use mazuki_os.Keyboard.{char_for, scancode_table, scancode_shift_table}

abbrev is_letter : ℕ → Bool
is_letter c = leb b'a' c && leb c b'z'

-- At one key: both tables have a character or neither has, and a letter is shifted to its capital.
abbrev agrees : ℕ → Bool
agrees sc =
    let low = char_for false sc in
    let high = char_for true sc in
    (if low == 0 then high == 0 else not (high == 0))
    && (if is_letter low then high == low - 32 else true)

every : ℕ → (ℕ → Bool) → Bool
every zero p = true
every (suc n) p = p n && every n p

every-at : (n : ℕ) (p : ℕ → Bool) (k : ℕ) → every n p ≡ true → k < n → p k ≡ true
unfolding every
every-at zero p k all lt = absurd (omega arith)
every-at (suc n) p k all lt = ground (arith, every-at n p k)

table : every 128 agrees ≡ true
unfolding every char_for scancode_table scancode_shift_table
table = refl

agrees_parts :
    (low high : ℕ)
    → ((if low == 0 then high == 0 else not (high == 0))
        && (if is_letter low then high == low - 32 else true))
      ≡ true
    → ((low ≡ 0) ↔ (high ≡ 0)) × (b'a' ≤ low → low ≤ b'z' → high ≡ low - 32)
agrees_parts low high e = ground arith

-- For each of the 128 keys: it has a character with shift exactly if it has one without, and a key
-- for a small letter gives its capital with shift.
pub char_for-shift :
    (sc : ℕ)
    → sc < 128
    → ((char_for false sc ≡ 0) ↔ (char_for true sc ≡ 0))
      × (b'a' ≤ char_for false sc
          → char_for false sc ≤ b'z'
          → char_for true sc ≡ char_for false sc - 32)
char_for-shift sc h =
    agrees_parts (char_for false sc) (char_for true sc) (every-at 128 agrees sc table h)

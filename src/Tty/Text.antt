-- ===== src/Tty/Text.antt =====
-- Characters on the text screen.
use mazuki_os.Base.{
  ℕ, zero, suc, ◌+◌, ◌-◌, ◌*◌, ◌≤◌, ◌<◌, ◌≡◌, refl, sym, ap, ◌∙◌, false, ◌&&◌, List, [], ◌∷◌, arith,
  length, get_or, set, ltb, leb, lt→leb, le→leb, lt→ltb, le→ltb, dec_lt, if◌then◌else◌, ℕ_discrete,
  get_or-set_self, get_or-set_ne, length-set,
}
use mazuki_os.Vga.{vga_width, vga_height, cell, scrolled, vga_scroll}
use mazuki_os.Tty.{Tty, graphic, tty_write_char}
use mazuki_os.Tty.Sequence.{write_all}
use mazuki_os.Tty.Typed.{
  IsPrintable, plain, typed, draw_inside, tty_newline_last, wrapped, draw_last,
}

-- In the text mode, a printable character in the last cell of the screen scrolls it by two lines:
-- `vga_raw_putc` and `tty_newline` do so one after the other.
pub tty_write_char-last :
    (c : ℕ) (t : Tty)
    → graphic t ≡ false
    → t.ansi_state ≡ 0
    → IsPrintable c
    → t.tty_x ≡ 79
    → t.tty_y ≡ 24
    → let blank = cell t.tty_color 32 in
      let s = tty_write_char c t in
      (s.vga.vga_buffer
        ≡ scrolled blank (scrolled blank (set t.vga.vga_buffer 1999 (cell t.tty_color c))))
      × (s.tty_x ≡ 0)
      × (s.tty_y ≡ 24)
tty_write_char-last c t g e p x y =
    let all = plain c t e p ∙ draw_last c t g x y ∙ tty_newline_last (wrapped c t) g y in
    (
      ap (λ (s : Tty). s.vga.vga_buffer) all ∙ unfold vga_scroll in refl,
      ap (λ (s : Tty). s.tty_x) all,
      ap (λ (s : Tty). s.tty_y) all,
    )

-- The texts of printable ASCII characters.
abbrev pub AllPrintable : List ℕ → Type 0
AllPrintable [] = Unit
AllPrintable (c ∷ s) = IsPrintable c × (c < 128) × AllPrintable s

-- The cell at `i` when a text stands in the cells from `at` on: the colour in the high byte, the
-- character in the low one.
abbrev pub text_cell : ℕ → List ℕ → ℕ → List ℕ → ℕ → ℕ
text_cell color s at cells i =
    if leb at i && ltb i (at + length s)
    then color * 256 + get_or s (i - at) 0
    else get_or cells i 0

-- The same with the cell as `vga_raw_putc` makes it.
abbrev drawn_cell : ℕ → List ℕ → ℕ → List ℕ → ℕ → ℕ
drawn_cell color s at cells i =
    if leb at i && ltb i (at + length s) then cell color (get_or s (i - at) 0) else get_or cells i 0

drawn_cell_in :
    (color : ℕ) (s : List ℕ) (at : ℕ) (cells : List ℕ) (i : ℕ)
    → at ≤ i
    → i < at + length s
    → drawn_cell color s at cells i ≡ cell color (get_or s (i - at) 0)
drawn_cell_in color s at cells i ge lt = rw (le→leb at i ge, lt→ltb i (at + length s) lt) refl

drawn_cell_before :
    (color : ℕ) (s : List ℕ) (at : ℕ) (cells : List ℕ) (i : ℕ)
    → i < at
    → drawn_cell color s at cells i ≡ get_or cells i 0
drawn_cell_before color s at cells i lt = rw (lt→leb at i lt) refl

drawn_cell_behind :
    (color : ℕ) (s : List ℕ) (at : ℕ) (cells : List ℕ) (i : ℕ)
    → at + length s ≤ i
    → drawn_cell color s at cells i ≡ get_or cells i 0
drawn_cell_behind color s at cells i ge =
    rw (le→leb at i (omega arith), le→ltb i (at + length s) ge) refl

one_cell :
    (color c : ℕ) (s : List ℕ) (at : ℕ) (cells : List ℕ) (i : ℕ)
    → at < length cells
    → drawn_cell color s (at + 1) (set cells at (cell color c)) i
      ≡ drawn_cell color (c ∷ s) at cells i
one_cell color c s at cells i h = elim (ℕ_discrete at i) [
  | yes e ↦
      drawn_cell_before color s (at + 1) (set cells at (cell color c)) i (omega arith)
      ∙ ap (λ k. get_or (set cells at (cell color c)) k 0) (sym e)
      ∙ get_or-set_self cells at (cell color c) 0 h
      ∙ ap (λ k. cell color (get_or (c ∷ s) k 0)) {x = 0} {y = i - at} (omega arith)
      ∙ sym (drawn_cell_in color (c ∷ s) at cells i (omega arith) (omega arith))
  | no ne ↦ elim (dec_lt i at) [
    | yes lt ↦
        drawn_cell_before color s (at + 1) (set cells at (cell color c)) i (omega arith)
        ∙ get_or-set_ne cells at i (cell color c) 0 ne
        ∙ sym (drawn_cell_before color (c ∷ s) at cells i lt)
    | no ge ↦ elim (dec_lt i (at + 1 + length s)) [
      | yes inside ↦
          drawn_cell_in color s (at + 1) (set cells at (cell color c)) i (omega arith) inside
          ∙ ap (λ k. cell color (get_or (c ∷ s) k 0)) {x = suc (i - (at + 1))} {y = i - at}
              (omega arith)
          ∙ sym (drawn_cell_in color (c ∷ s) at cells i (omega arith) (omega arith))
      | no behind ↦
          drawn_cell_behind color s (at + 1) (set cells at (cell color c)) i (omega arith)
          ∙ get_or-set_ne cells at i (cell color c) 0 ne
          ∙ sym (drawn_cell_behind color (c ∷ s) at cells i (omega arith))
    ]
  ]
]

write_all-drawn :
    (s : List ℕ) (t : Tty)
    → graphic t ≡ false
    → t.ansi_state ≡ 0
    → AllPrintable s
    → t.tty_x + length s < vga_width
    → t.tty_y < vga_height
    → length t.vga.vga_buffer ≡ vga_height * vga_width
    → ((i : ℕ)
        → get_or (write_all s t).vga.vga_buffer i 0
          ≡ drawn_cell t.tty_color s (t.tty_y * vga_width + t.tty_x) t.vga.vga_buffer i)
      × ((write_all s t).tty_x ≡ t.tty_x + length s)
      × ((write_all s t).tty_y ≡ t.tty_y)
unfolding write_all
write_all-drawn [] t g e p x y h = (λ i. no_text i, omega arith, refl)
  where
    no_text :
        (i : ℕ)
        → get_or t.vga.vga_buffer i 0
          ≡ drawn_cell t.tty_color [] (t.tty_y * vga_width + t.tty_x) t.vga.vga_buffer i
    no_text i = elim (dec_lt i (t.tty_y * vga_width + t.tty_x)) [
      | yes lt ↦ sym (drawn_cell_before t.tty_color [] _ t.vga.vga_buffer i lt)
      | no ge ↦ sym (drawn_cell_behind t.tty_color [] _ t.vga.vga_buffer i (omega arith))
    ]
write_all-drawn (c ∷ s) t g e p x y h =
    let at = t.tty_y * vga_width + t.tty_x in
    let (cells, x', y') =
      write_all-drawn s (typed c t) g e p.2 (omega arith) y
        (length-set t.vga.vga_buffer at (cell t.tty_color c) ∙ h) in
    let all : write_all (c ∷ s) t ≡ write_all s (typed c t) =
      ap (write_all s) (plain c t e p.0 ∙ draw_inside c t g (omega arith) y) in
    (
      λ i.
          ap (λ (r : Tty). get_or r.vga.vga_buffer i 0) all
          ∙ cells i
          ∙ ap (λ k. drawn_cell t.tty_color s k (set t.vga.vga_buffer at (cell t.tty_color c)) i)
              (omega arith)
          ∙ one_cell t.tty_color c s at t.vga.vga_buffer i (omega arith),
      ap (λ (r : Tty). r.tty_x) all ∙ x' ∙ omega arith,
      ap (λ (r : Tty). r.tty_y) all ∙ y',
    )

get_or-AllPrintable : (s : List ℕ) (k : ℕ) → AllPrintable s → get_or s k 0 < 128
get_or-AllPrintable [] k p = omega arith
get_or-AllPrintable (c ∷ s) zero p = p.1
get_or-AllPrintable (c ∷ s) (suc k) p = get_or-AllPrintable s k p.2

drawn_cell-text_cell :
    (color : ℕ) (s : List ℕ) (at : ℕ) (cells : List ℕ) (i : ℕ)
    → AllPrintable s
    → drawn_cell color s at cells i ≡ text_cell color s at cells i
drawn_cell-text_cell color s at cells i p = ground (arith, get_or-AllPrintable s (i - at) p)

-- In the text mode and outside a sequence, a text of printable characters below 128 that ends before
-- the last column of the cursor's line stands in the cells from the cursor on, each cell the colour
-- of the time times 256 plus the character; the other cells keep their values and the cursor stands
-- behind the text.
pub write_all-text :
    (s : List ℕ) (t : Tty)
    → graphic t ≡ false
    → t.ansi_state ≡ 0
    → AllPrintable s
    → t.tty_x + length s < vga_width
    → t.tty_y < vga_height
    → length t.vga.vga_buffer ≡ vga_height * vga_width
    → ((i : ℕ)
        → get_or (write_all s t).vga.vga_buffer i 0
          ≡ text_cell t.tty_color s (t.tty_y * vga_width + t.tty_x) t.vga.vga_buffer i)
      × ((write_all s t).tty_x ≡ t.tty_x + length s)
      × ((write_all s t).tty_y ≡ t.tty_y)
write_all-text s t g e p x y h =
    let (cells, x', y') = write_all-drawn s t g e p x y h in
    let at = t.tty_y * vga_width + t.tty_x in
    (λ i. cells i ∙ drawn_cell-text_cell t.tty_color s at t.vga.vga_buffer i p, x', y')

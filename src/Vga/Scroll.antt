-- ===== src/Vga/Scroll.antt =====
-- What the loops of vga.c leave in the buffer.
use mazuki_os.Base.{
  ℕ, zero, suc, ◌+◌, ◌-◌, ◌*◌, ◌≤◌, ◌<◌, ◌≡◌, refl, ◌∙◌, List, arith, length, get_or, set,
  length-set, get_or-set_self, get_or-set_ne, for_each, ℕ_discrete, dec_lt, ap,
}
use mazuki_os.Vga.{vga_width, vga_height, copy_row, fill, scrolled}

-- `fill` writes its `n` cells and no other.
pub length-fill :
    (n first blank : ℕ) (cells : List ℕ) → length (fill n first blank cells) ≡ length cells
unfolding fill for_each
length-fill zero first blank cells = refl
length-fill (suc n) first blank cells =
    length-fill n (first + 1) blank (set cells first blank) ∙ length-set cells first blank

pub get_or-fill_ne :
    (n first blank : ℕ) (cells : List ℕ) (i : ℕ)
    → (first ≤ i → first + n ≤ i)
    → get_or (fill n first blank cells) i 0 ≡ get_or cells i 0
unfolding fill for_each
get_or-fill_ne zero first blank cells i out = refl
get_or-fill_ne (suc n) first blank cells i out =
    get_or-fill_ne n (first + 1) blank (set cells first blank) i (λ le. ground arith)
    ∙ get_or-set_ne cells first i blank 0 (ground arith)

pub get_or-fill :
    (n first blank : ℕ) (cells : List ℕ) (i : ℕ)
    → first ≤ i
    → i < first + n
    → i < length cells
    → get_or (fill n first blank cells) i 0 ≡ blank
unfolding fill for_each
get_or-fill zero first blank cells i ge lt h = absurd (omega arith)
get_or-fill (suc n) first blank cells i ge lt h = elim (ℕ_discrete first i) [
  | yes e ↦
      get_or-fill_ne n (first + 1) blank (set cells first blank) i (λ le. absurd (omega arith))
      ∙ rw e (get_or-set_self cells i blank 0 h)
  | no ne ↦
      get_or-fill n (first + 1) blank (set cells first blank) i (omega arith) (omega arith)
        (omega (arith, length-set cells first blank))
]

-- One step of the loop of `copy_row`.
abbrev step : ℕ → ℕ → List ℕ → List ℕ
step y x cells = set cells ((y - 1) * vga_width + x) (get_or cells (y * vga_width + x) 0)

length-for_each :
    (body : ℕ → List ℕ → List ℕ) (n first : ℕ) (cells : List ℕ)
    → ((i : ℕ) (s : List ℕ) → length (body i s) ≡ length s)
    → length (for_each n first body cells) ≡ length cells
unfolding for_each
length-for_each body zero first cells keeps = refl
length-for_each body (suc n) first cells keeps =
    length-for_each body n (first + 1) (body first cells) keeps ∙ keeps first cells

pub length-copy_row : (y : ℕ) (cells : List ℕ) → length (copy_row y cells) ≡ length cells
unfolding copy_row
length-copy_row y cells =
    length-for_each (step y) vga_width 0 cells
      (λ x s. length-set s ((y - 1) * vga_width + x) (get_or s (y * vga_width + x) 0))

pub length-scrolled : (blank : ℕ) (cells : List ℕ) → length (scrolled blank cells) ≡ length cells
unfolding scrolled
length-scrolled blank cells =
    length-fill vga_width ((vga_height - 1) * vga_width) blank
      (for_each (vga_height - 1) 1 copy_row cells)
    ∙ length-for_each copy_row (vga_height - 1) 1 cells length-copy_row

-- A cell below the row that is written keeps its value, and so does one above.
copied_ne :
    (y n x : ℕ) (cells : List ℕ) (i : ℕ)
    → ((y - 1) * 80 + x ≤ i → (y - 1) * 80 + x + n ≤ i)
    → get_or (for_each n x (step y) cells) i 0 ≡ get_or cells i 0
unfolding for_each
copied_ne y zero x cells i out = refl
copied_ne y (suc n) x cells i out =
    copied_ne y n (x + 1) (step y x cells) i (λ le. ground arith)
    ∙ get_or-set_ne cells ((y - 1) * 80 + x) i (get_or cells (y * 80 + x) 0) 0 (ground arith)

copied :
    (y n x : ℕ) (cells : List ℕ) (i : ℕ)
    → 1 ≤ y
    → x + n ≤ 80
    → (y - 1) * 80 + x ≤ i
    → i < (y - 1) * 80 + x + n
    → i < length cells
    → get_or (for_each n x (step y) cells) i 0 ≡ get_or cells (i + 80) 0
unfolding for_each
copied y zero x cells i one room ge lt h = absurd (omega arith)
copied y (suc n) x cells i one room ge lt h = elim (ℕ_discrete ((y - 1) * 80 + x) i) [
  | yes e ↦
      copied_ne y n (x + 1) (step y x cells) i (λ le. absurd (omega arith))
      ∙ ap (λ k. get_or (set cells k (get_or cells (y * 80 + x) 0)) i 0) e
      ∙ get_or-set_self cells i (get_or cells (y * 80 + x) 0) 0 h
      ∙ ap (λ k. get_or cells k 0) (omega arith)
  | no ne ↦
      copied y n (x + 1) (step y x cells) i one (omega arith) (omega arith) (omega arith)
        (omega (arith, length-set cells ((y - 1) * 80 + x) (get_or cells (y * 80 + x) 0)))
      ∙ get_or-set_ne cells ((y - 1) * 80 + x) (i + 80) (get_or cells (y * 80 + x) 0) 0
          (omega arith)
]

copy_row_ne :
    (y : ℕ) (cells : List ℕ) (i : ℕ)
    → ((y - 1) * 80 ≤ i → (y - 1) * 80 + 80 ≤ i)
    → get_or (copy_row y cells) i 0 ≡ get_or cells i 0
unfolding copy_row
copy_row_ne y cells i out = copied_ne y 80 0 cells i (λ le. omega (arith, out (omega arith)))

rows_above :
    (n y : ℕ) (cells : List ℕ) (i : ℕ)
    → i < (y - 1) * 80
    → get_or (for_each n y copy_row cells) i 0 ≡ get_or cells i 0
unfolding for_each
rows_above zero y cells i lt = refl
rows_above (suc n) y cells i lt =
    rows_above n (y + 1) (copy_row y cells) i (omega arith)
    ∙ copy_row_ne y cells i (λ le. absurd (omega arith))

-- The rows from `y` on, `n` of them, go up by one.
rows :
    (n y : ℕ) (cells : List ℕ) (i : ℕ)
    → 1 ≤ y
    → (y - 1) * 80 ≤ i
    → i < (y - 1) * 80 + n * 80
    → i < length cells
    → get_or (for_each n y copy_row cells) i 0 ≡ get_or cells (i + 80) 0
unfolding for_each
rows zero y cells i one ge lt h = absurd (omega arith)
rows (suc n) y cells i one ge lt h = elim (dec_lt i (y * 80)) [
  | yes here ↦
      rows_above n (y + 1) (copy_row y cells) i (omega arith)
      ∙ unfold copy_row in copied y 80 0 cells i one (omega arith) (omega arith) (omega arith) h
  | no below ↦
      rows n (y + 1) (copy_row y cells) i (omega arith) (omega arith) (omega arith)
        (omega (arith, length-copy_row y cells))
      ∙ copy_row_ne y cells (i + 80) (λ le. omega arith)
]

moved :
    (blank : ℕ) (cells : List ℕ) (i : ℕ)
    → length cells ≡ vga_height * vga_width
    → i < (vga_height - 1) * vga_width
    → get_or (scrolled blank cells) i 0 ≡ get_or cells (i + vga_width) 0
unfolding scrolled
moved blank cells i h lt =
    get_or-fill_ne 80 1920 blank (for_each 24 1 copy_row cells) i (λ le. absurd (omega arith))
    ∙ rows 24 1 cells i (omega arith) (omega arith) (omega arith) (omega arith)

wiped :
    (blank : ℕ) (cells : List ℕ) (i : ℕ)
    → length cells ≡ vga_height * vga_width
    → (vga_height - 1) * vga_width ≤ i
    → i < vga_height * vga_width
    → get_or (scrolled blank cells) i 0 ≡ blank
unfolding scrolled
wiped blank cells i h ge lt =
    get_or-fill 80 1920 blank (for_each 24 1 copy_row cells) i ge (omega arith)
      (omega (arith, length-for_each copy_row 24 1 cells length-copy_row))

-- For a buffer of 25 lines, the loops of `vga_scroll` move each line up by one and leave the last
-- one blank, and the buffer keeps its size.
pub scrolled_lem :
    (blank : ℕ) (cells : List ℕ)
    → length cells ≡ vga_height * vga_width
    → (length (scrolled blank cells) ≡ vga_height * vga_width)
      × ((i : ℕ)
          → i < (vga_height - 1) * vga_width
          → get_or (scrolled blank cells) i 0 ≡ get_or cells (i + vga_width) 0)
      × ((i : ℕ)
          → (vga_height - 1) * vga_width ≤ i
          → i < vga_height * vga_width
          → get_or (scrolled blank cells) i 0 ≡ blank)
scrolled_lem blank cells h = (
  length-scrolled blank cells ∙ h,
  λ i lt. moved blank cells i h lt,
  λ i ge lt. wiped blank cells i h ge lt,
)

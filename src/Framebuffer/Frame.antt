-- ===== src/Framebuffer/Frame.antt =====
-- Which bytes of the screen a character touches.
use mazuki_os.Base.{
  ℕ, ◌+◌, ◌*◌, ◌/◌, ◌%◌, ◌^◌, ◌≤◌, ◌<◌, ◌≡◌, ◌⊎◌, refl, ap, subst, ◌∙◌, Bool, true, false, ◌||◌,
  not, List, arith, get_or, set, leb, ◌==◌, ℕ_discrete, dec_lt, get_or-set_ne, for_each-Kept,
  by_test, leb→lt,
}
use mazuki_os.Framebuffer.{
  Framebuffer, glyph_of, off_screen, color_value, font_width, font_height, bytes_per_pixel,
  put_bytes, put_pixel, draw_glyph, framebuffer_columns, framebuffer_rows, framebuffer_available,
  framebuffer_draw_char,
}

mul_le : (a b p : ℕ) → a ≤ b → a * p ≤ b * p
mul_le a b p h = grind arith

mul_step : (a b p : ℕ) → a < b → a * p + p ≤ b * p
mul_step a b p h = grind arith

-- The bytes that are kept: all but those of `n` from `at` on.
put_bytes-Kept :
    (n at value : ℕ) (m : List ℕ) (i : ℕ)
    → (at ≤ i → at + n ≤ i)
    → get_or (put_bytes n at value m) i 0 ≡ get_or m i 0
unfolding put_bytes
put_bytes-Kept n at value m i out =
    for_each-Kept (λ (r : List ℕ). get_or r i 0 ≡ get_or m i 0) n 0
      (λ k r. set r (at + k) (value / 2 ^ (8 * k) % 256)) m
      (λ k r ge lt e.
        get_or-set_ne r (at + k) i (value / 2 ^ (8 * k) % 256) 0 (λ z. grind arith) ∙ e)
      refl

-- The colour depths that `framebuffer_init` takes.
abbrev pub IsDepth : ℕ → Type 0
IsDepth bpp = (bpp ≡ 15) ⊎ ((bpp ≡ 16) ⊎ ((bpp ≡ 24) ⊎ (bpp ≡ 32)))

sizes :
    (bpp : ℕ)
    → IsDepth bpp
    → ((bpp == 32) ≡ true → (bpp + 7) / 8 ≡ 4)
      × ((bpp == 32) ≡ false → (bpp == 24) ≡ true → (bpp + 7) / 8 ≡ 3)
      × ((bpp == 32) ≡ false → (bpp == 24) ≡ false → (bpp + 7) / 8 ≡ 2)
sizes bpp d = ground arith

abbrev offset : Framebuffer → ℕ → ℕ → ℕ
offset fb x y = y * fb.framebuffer_pitch + x * bytes_per_pixel fb

put_pixel-Kept :
    (fb : Framebuffer) (x y value : ℕ) (m : List ℕ) (i : ℕ)
    → IsDepth fb.framebuffer_bpp
    → (offset fb x y % 2 ^ 32 ≤ i → offset fb x y % 2 ^ 32 + bytes_per_pixel fb ≤ i)
    → get_or (put_pixel fb x y value m) i 0 ≡ get_or m i 0
unfolding put_pixel
put_pixel-Kept fb x y value m i d out =
    let at = offset fb x y % 2 ^ 32 in
    let (four, three, two) = sizes fb.framebuffer_bpp d in
    let Same = λ (r : List ℕ). get_or r i 0 ≡ get_or m i 0 in
    let part : (n : ℕ) → bytes_per_pixel fb ≡ n → Same (put_bytes n at value m) =
      λ n e. put_bytes-Kept n at value m i (subst (λ k. at ≤ i → at + k ≤ i) e out) in
    by_test Same (fb.framebuffer_bpp == 32) (λ e. part 4 (four e))
      (λ e.
        by_test Same (fb.framebuffer_bpp == 24) (λ f. part 3 (three e f)) (λ f. part 2 (two e f)))

-- A mode whose lines fit in the pitch and whose pixels have 32-bit offsets.
pub record IsMode (fb : Framebuffer) : Type 0 where
  pub depth : IsDepth fb.framebuffer_bpp
  pub line_in : fb.framebuffer_width * bytes_per_pixel fb ≤ fb.framebuffer_pitch
  pub small : fb.framebuffer_height * fb.framebuffer_pitch ≤ 2 ^ 32

distances :
    (pitch bytes xb y ox oy : ℕ)
    → xb + bytes ≤ pitch
    → ox < pitch
    → (oy ≡ y → xb ≤ ox → xb + bytes ≤ ox)
    → y * pitch + xb + bytes ≤ 2 ^ 32
    → (y * pitch + xb) % 2 ^ 32 ≤ oy * pitch + ox
    → (y * pitch + xb) % 2 ^ 32 + bytes ≤ oy * pitch + ox
distances pitch bytes xb y ox oy xb_in o_in out small le = elim (ℕ_discrete bytes 0) [
  | yes none ↦ omega arith
  | no some ↦
      let plain : (y * pitch + xb) % 2 ^ 32 ≡ y * pitch + xb = omega arith in
      elim (ℕ_discrete oy y) [
        | yes e ↦
            let same : oy * pitch ≡ y * pitch = ap (λ k. k * pitch) e in
            omega (arith, out e (omega (arith, plain, same)), plain, same)
        | no ne ↦ elim (dec_lt oy y) [
          | yes lt ↦ absurd (omega (arith, plain, mul_step oy y pitch lt))
          | no ge ↦
              let above : y < oy = omega (arith, ne, ge) in
              omega (arith, plain, mul_step y oy pitch above)
        ]
      ]
]

-- The byte at offset `ox` of line `oy` is none of the pixel's.
pixel_apart :
    (fb : Framebuffer) (x y ox oy : ℕ)
    → IsMode fb
    → x < fb.framebuffer_width
    → y < fb.framebuffer_height
    → ox < fb.framebuffer_pitch
    → (oy ≡ y → x * bytes_per_pixel fb ≤ ox → x * bytes_per_pixel fb + bytes_per_pixel fb ≤ ox)
    → offset fb x y % 2 ^ 32 ≤ oy * fb.framebuffer_pitch + ox
    → offset fb x y % 2 ^ 32 + bytes_per_pixel fb ≤ oy * fb.framebuffer_pitch + ox
pixel_apart fb x y ox oy v x_in y_in o_in out le =
    let across = mul_step x fb.framebuffer_width (bytes_per_pixel fb) x_in in
    let down = mul_step y fb.framebuffer_height fb.framebuffer_pitch y_in in
    distances fb.framebuffer_pitch (bytes_per_pixel fb) (x * bytes_per_pixel fb) y ox oy
      (omega (arith, across, v.line_in)) o_in out (omega (arith, down, v.small, across, v.line_in))
      le

-- Offset `ox` of line `oy` lies outside the cell of a character.
abbrev pub Outside : Framebuffer → ℕ → ℕ → ℕ → ℕ → Type 0
Outside fb column row ox oy =
    row * font_height ≤ oy
    → oy < row * font_height + font_height
    → column * font_width * bytes_per_pixel fb ≤ ox
    → (column * font_width + font_width) * bytes_per_pixel fb ≤ ox

draw_glyph-Kept :
    (fb : Framebuffer) (column row : ℕ) (glyph : List ℕ) (foreground background : ℕ) (m : List ℕ)
    (ox oy : ℕ)
    → IsMode fb
    → column < framebuffer_columns fb
    → row < framebuffer_rows fb
    → ox < fb.framebuffer_pitch
    → Outside fb column row ox oy
    → get_or
        (draw_glyph fb column row glyph foreground background m)
        (oy * fb.framebuffer_pitch + ox)
        0
      ≡ get_or m (oy * fb.framebuffer_pitch + ox) 0
unfolding draw_glyph
draw_glyph-Kept fb column row glyph foreground background m ox oy v c r o_in out =
    let Same = λ (t : List ℕ).
      get_or t (oy * fb.framebuffer_pitch + ox) 0 ≡ get_or m (oy * fb.framebuffer_pitch + ox) 0 in
    for_each-Kept Same font_height 0 _ m
      (λ y t y_ge y_lt e.
        for_each-Kept Same font_width 0 _ t
          (λ x u x_ge x_lt f.
            put_pixel-Kept fb (column * font_width + x) (row * font_height + y) _ u
              (oy * fb.framebuffer_pitch + ox) v.depth
              (pixel_apart fb (column * font_width + x) (row * font_height + y) ox oy v
                (omega arith) (omega arith) o_in (cell_pixel y x y_lt x_lt))
            ∙ f)
          e)
      refl
  where
    cell_pixel :
        (y x : ℕ)
        → y < font_height
        → x < font_width
        → oy ≡ row * font_height + y
        → (column * font_width + x) * bytes_per_pixel fb ≤ ox
        → (column * font_width + x) * bytes_per_pixel fb + bytes_per_pixel fb ≤ ox
    cell_pixel y x y_lt x_lt at ge =
        let b = bytes_per_pixel fb in
        let first = mul_le (column * font_width) (column * font_width + x) b (omega arith) in
        let last =
          mul_step (column * font_width + x) (column * font_width + font_width) b (omega arith) in
        omega (arith, last, out (omega arith) (omega arith) (omega (arith, first, ge)))

not_any : (a b c : Bool) → (a || (b || c)) ≡ false → (b ≡ false) × (c ≡ false)
not_any a b c e = ground arith

-- In a mode whose lines fit in the pitch, a character is drawn in the pixels of its cell alone: the
-- bytes of the screen that belong to none of them keep their values, also those below the last line.
pub framebuffer_draw_char-Frame :
    (column row c color : ℕ) (fb : Framebuffer) (ox oy : ℕ)
    → IsMode fb
    → ox < fb.framebuffer_pitch
    → Outside fb column row ox oy
    → get_or (framebuffer_draw_char column row c color fb).memory (oy * fb.framebuffer_pitch + ox) 0
      ≡ get_or fb.memory (oy * fb.framebuffer_pitch + ox) 0
unfolding framebuffer_draw_char
framebuffer_draw_char-Frame column row c color fb ox oy v o_in out =
    let i = oy * fb.framebuffer_pitch + ox in
    let drawn =
      draw_glyph fb column row (glyph_of c) (color_value (color % 16) fb)
        (color_value (color / 16 % 16) fb) fb.memory in
    by_test (λ (r : Framebuffer). get_or r.memory i 0 ≡ get_or fb.memory i 0)
      (off_screen column row fb) {x = fb} {y = record fb { memory = drawn }} (λ _. refl)
      (λ e.
        let (c_in, r_in) =
          not_any (not (framebuffer_available fb)) (leb (framebuffer_columns fb) column)
            (leb (framebuffer_rows fb) row) e in
        draw_glyph-Kept fb column row (glyph_of c) (color_value (color % 16) fb)
          (color_value (color / 16 % 16) fb) fb.memory ox oy v
          (leb→lt (framebuffer_columns fb) column c_in) (leb→lt (framebuffer_rows fb) row r_in) o_in
          out)

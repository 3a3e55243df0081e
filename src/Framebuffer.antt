-- ===== src/Framebuffer.antt =====
-- sys/kernel/drivers/framebuffer.c with its header: the pixels of a graphic screen. `memory` is the
-- memory from the address `framebuffer` on, one number for a byte; the other fields are the static
-- variables.
mod Font
pub mod Frame
unfoldable pub use Font.*
use mazuki_os.Base.{
  ℕ, ◌+◌, ◌-◌, ◌*◌, ◌/◌, ◌%◌, ◌^◌, Bool, true, false, not, ◌&&◌, ◌||◌, Option, none, some, List, [],
  ◌∷◌, ltb, leb, ◌==◌, if◌then◌else◌, get_or, set, for_each, bit_or,
}

abbrev pub font_width : ℕ
font_width = 8

abbrev pub font_height : ℕ
font_height = 8

-- The fields that the driver reads of the boot loader's tag.
pub record Tag : Type 0 where
  pub framebuffer_addr : ℕ
  pub pitch : ℕ
  pub width : ℕ
  pub height : ℕ
  pub bpp : ℕ
  pub type : ℕ
  pub red_field_position : ℕ
  pub red_mask_size : ℕ
  pub green_field_position : ℕ
  pub green_mask_size : ℕ
  pub blue_field_position : ℕ
  pub blue_mask_size : ℕ

pub record Framebuffer : Type 0 where
  pub framebuffer : ℕ
  pub framebuffer_pitch : ℕ
  pub framebuffer_width : ℕ
  pub framebuffer_height : ℕ
  pub framebuffer_bpp : ℕ
  pub framebuffer_type : ℕ
  pub red_position : ℕ
  pub green_position : ℕ
  pub blue_position : ℕ
  pub red_mask : ℕ
  pub green_mask : ℕ
  pub blue_mask : ℕ
  pub memory : List ℕ

abbrev row : ℕ → ℕ → ℕ → List ℕ
row r g b = r ∷ g ∷ b ∷ []

unfoldable pub palette : List (List ℕ)
palette =
    row 0 0 0
    ∷ row 0 0 170
    ∷ row 0 170 0
    ∷ row 0 170 170
    ∷ row 170 0 0
    ∷ row 170 0 170
    ∷ row 170 85 0
    ∷ row 170 170 170
    ∷ row 85 85 85
    ∷ row 85 85 255
    ∷ row 85 255 85
    ∷ row 85 255 255
    ∷ row 255 85 85
    ∷ row 255 85 255
    ∷ row 255 255 85
    ∷ row 255 255 255
    ∷ []

-- A shift by `8 - mask` with a mask above 8 is undefined in C; here it is a shift by 0.
unfoldable pub color_value : ℕ → Framebuffer → ℕ
color_value color fb =
    let entry = get_or palette (color % 16) [] in
    let r = get_or entry 0 0 in
    let g = get_or entry 1 0 in
    let b = get_or entry 2 0 in
    if (fb.framebuffer_bpp == 15) || (fb.framebuffer_bpp == 16)
    then bit_or 32
        (bit_or 32 (r / 2 ^ (8 - fb.red_mask) * 2 ^ fb.red_position % 2 ^ 32)
          (g / 2 ^ (8 - fb.green_mask) * 2 ^ fb.green_position % 2 ^ 32))
        (b / 2 ^ (8 - fb.blue_mask) * 2 ^ fb.blue_position % 2 ^ 32)
    else bit_or 32
        (bit_or 32 (r * 2 ^ fb.red_position % 2 ^ 32) (g * 2 ^ fb.green_position % 2 ^ 32))
        (b * 2 ^ fb.blue_position % 2 ^ 32)

abbrev pub bytes_per_pixel : Framebuffer → ℕ
bytes_per_pixel fb = (fb.framebuffer_bpp + 7) / 8

-- The `n` low bytes of a value, from `at` on, the lowest first.
unfoldable pub put_bytes : ℕ → ℕ → ℕ → List ℕ → List ℕ
put_bytes n at value = for_each n 0 (λ k m. set m (at + k) (value / 2 ^ (8 * k) % 256))

-- The bytes that `put_pixel` writes.
unfoldable pub put_pixel : Framebuffer → ℕ → ℕ → ℕ → List ℕ → List ℕ
put_pixel fb x y value m =
    let at = (y * fb.framebuffer_pitch + x * bytes_per_pixel fb) % 2 ^ 32 in
    if fb.framebuffer_bpp == 32
    then put_bytes 4 at value m
    else if fb.framebuffer_bpp == 24
    then put_bytes 3 at value m
    else put_bytes 2 at value m

-- The tag is taken if it is there and the screen is of a kind that the driver can draw on.
abbrev pub accepts : Tag → Bool
accepts tag =
    (tag.type == 1)
    && leb font_width tag.width
    && leb font_height tag.height
    && ((tag.bpp == 15) || (tag.bpp == 16) || (tag.bpp == 24) || (tag.bpp == 32))

unfoldable pub framebuffer_init : Option Tag → Framebuffer → Framebuffer
framebuffer_init none fb = fb
framebuffer_init (some tag) fb = if not (accepts tag) then fb else record {
  framebuffer = tag.framebuffer_addr % 2 ^ 32;
  framebuffer_pitch = tag.pitch;
  framebuffer_width = tag.width;
  framebuffer_height = tag.height;
  framebuffer_bpp = tag.bpp;
  framebuffer_type = tag.type;
  red_position = tag.red_field_position;
  green_position = tag.green_field_position;
  blue_position = tag.blue_field_position;
  red_mask = tag.red_mask_size;
  green_mask = tag.green_mask_size;
  blue_mask = tag.blue_mask_size;
  memory = fb.memory;
}

abbrev pub framebuffer_available : Framebuffer → Bool
framebuffer_available fb = not (fb.framebuffer == 0) && (fb.framebuffer_type == 1)

abbrev pub framebuffer_columns : Framebuffer → ℕ
framebuffer_columns fb = fb.framebuffer_width / font_width

abbrev pub framebuffer_rows : Framebuffer → ℕ
framebuffer_rows fb = fb.framebuffer_height / font_height

-- The two nested loops over the lines from `first` on.
unfoldable pub paint : Framebuffer → ℕ → ℕ → ℕ → List ℕ → List ℕ
paint fb n first value =
    for_each n first (λ y. for_each fb.framebuffer_width 0 (λ x. put_pixel fb x y value))

unfoldable pub framebuffer_clear : ℕ → Framebuffer → Framebuffer
framebuffer_clear color fb = if not (framebuffer_available fb) then fb else record fb {
  memory = paint fb fb.framebuffer_height 0 (color_value (color / 16) fb) fb.memory;
}

-- The bytes of the lines from the ninth on go up by the height of a character.
unfoldable pub lift : Framebuffer → List ℕ → List ℕ
lift fb = for_each (fb.framebuffer_height - font_height) font_height (λ y.
    for_each (fb.framebuffer_width * bytes_per_pixel fb) 0 (λ x m.
      set m (((y - font_height) * fb.framebuffer_pitch + x) % 2 ^ 32)
        (get_or m ((y * fb.framebuffer_pitch + x) % 2 ^ 32) 0)))

-- `framebuffer_init` takes no screen that is lower than a character, so that the differences are not
-- below 0.
unfoldable pub framebuffer_scroll : ℕ → Framebuffer → Framebuffer
framebuffer_scroll color fb = if not (framebuffer_available fb) then fb else record fb {
  memory =
      paint fb font_height (fb.framebuffer_height - font_height) (color_value (color / 16) fb)
        (lift fb fb.memory);
}

-- `y < 7 && x > 0 && x < 6 && (glyph[y] & (1 << (5 - x)))`
abbrev pub is_foreground : List ℕ → ℕ → ℕ → Bool
is_foreground glyph x y = ltb y 7 && ltb 0 x && ltb x 6 && (get_or glyph y 0 / 2 ^ (5 - x) % 2 == 1)

unfoldable pub draw_glyph : Framebuffer → ℕ → ℕ → List ℕ → ℕ → ℕ → List ℕ → List ℕ
draw_glyph fb column row_at glyph foreground background = for_each font_height 0 (λ y.
    for_each font_width 0 (λ x.
      put_pixel fb (column * font_width + x) (row_at * font_height + y)
        (if is_foreground glyph x y then foreground else background)))

-- The guard at the start of `framebuffer_draw_char`.
abbrev pub off_screen : ℕ → ℕ → Framebuffer → Bool
off_screen column row_at fb =
    not (framebuffer_available fb)
    || (leb (framebuffer_columns fb) column || leb (framebuffer_rows fb) row_at)

unfoldable pub framebuffer_draw_char : ℕ → ℕ → ℕ → ℕ → Framebuffer → Framebuffer
framebuffer_draw_char column row_at c color fb =
    if off_screen column row_at fb then fb else record fb {
      memory =
          draw_glyph fb column row_at (glyph_of c) (color_value (color % 16) fb)
            (color_value (color / 16 % 16) fb) fb.memory;
    }

abbrev pub framebuffer_erase_char : ℕ → ℕ → ℕ → Framebuffer → Framebuffer
framebuffer_erase_char column row_at color fb = framebuffer_draw_char column row_at b' ' color fb

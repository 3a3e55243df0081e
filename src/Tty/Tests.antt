-- ===== src/Tty/Tests.antt =====
-- Witnesses for tty.c, vga.c and framebuffer.c.
use mazuki_os.Base.{
  ℕ, ◌+◌, ◌*◌, ◌≡◌, ◌<◌, ◌≤◌, refl, inr, List, [], ◌∷◌, ◌++◌, arith, length, get_or, set, replicate,
  length-replicate, codes,
}
use mazuki_os.Vga.{vga_width, vga_height, cell, scrolled}
use mazuki_os.Vga.Scroll.{scrolled_lem}
use mazuki_os.Framebuffer.{Framebuffer, framebuffer_draw_char}
use mazuki_os.Framebuffer.Frame.{IsMode, framebuffer_draw_char-Frame}
use mazuki_os.Tty.{Tty, null, ansi_arg2, tty_width, tab_loop, ansi_final, tty_write_char}
use mazuki_os.Tty.Keeps.{IsSound}
use mazuki_os.Tty.Sound.{tty_write_char-IsSound}
use mazuki_os.Tty.Tab.{tab_stop, tty_write_char-tab}
use mazuki_os.Tty.Sequence.{write_all, decimal_text, ansi_sequence}
use mazuki_os.Tty.Text.{text_cell, write_all-text, tty_write_char-last}

-- A graphic screen of `width` by `height` pixels of four bytes, at the address `base`.
abbrev screen_at : ℕ → ℕ → ℕ → Framebuffer
screen_at base width height = record {
  framebuffer = base;
  framebuffer_pitch = width * 4;
  framebuffer_width = width;
  framebuffer_height = height;
  framebuffer_bpp = 32;
  framebuffer_type = 1;
  red_position = 16;
  green_position = 8;
  blue_position = 0;
  red_mask = 8;
  green_mask = 8;
  blue_mask = 8;
  memory = replicate (width * height * 4) 7;
}

abbrev empty_cells : List ℕ
empty_cells = replicate 2000 3872

-- The text mode, with the cursor at a place.
abbrev text_at : ℕ → ℕ → Tty
text_at x y = record {
  vga = record { vga_buffer = empty_cells; cursor_x = 0; cursor_y = 0; hardware = 0 };
  screen = screen_at 0 0 0;
  tty_x = x;
  tty_y = y;
  tty_color = 15;
  ansi_state = 0;
  arg1 = 0;
  arg2 = 0;
  ansi_current_arg = null;
}

text_at-IsSound : (x y : ℕ) → x < 80 → y < 25 → IsSound (text_at x y)
text_at-IsSound x y x_in y_in = record {
  buffer = length-replicate {A = ℕ} 2000 3872;
  width_small = omega arith;
  height_small = omega arith;
  x_in = x_in;
  y_in = y_in;
  color_in = omega arith;
  state_in = omega arith;
}

tty_write_char-IsSound_example : IsSound (tty_write_char 10 (text_at 3 24))
tty_write_char-IsSound_example =
    tty_write_char-IsSound 10 (text_at 3 24) (text_at-IsSound 3 24 (omega arith) (omega arith))

ansi_sequence_example :
    write_all (27 ∷ b'[' ∷ (decimal_text 31 ++ b';' ∷ (decimal_text 34 ++ b'm' ∷ []))) (text_at 3 4)
    ≡ ansi_final b'm' (record (text_at 3 4) {
      ansi_state = 2;
      arg1 = 31;
      arg2 = 34;
      ansi_current_arg = ansi_arg2;
    })
ansi_sequence_example =
    ansi_sequence 31 34 b'm' (text_at 3 4) refl (omega arith) (omega arith) (omega arith)

tty_write_char-tab_example :
    ((tty_write_char 9 (text_at 75 4)).tty_x ≡ tab_stop (tty_width (text_at 75 4)) 75)
    × (tab_loop (8 + 5) (text_at 75 4) ≡ tty_write_char 9 (text_at 75 4))
tty_write_char-tab_example =
    tty_write_char-tab 5 (text_at 75 4) (text_at-IsSound 75 4 (omega arith) (omega arith)) refl

abbrev greeting : List ℕ
greeting = codes "ok"

write_all-text_example :
    ((i : ℕ)
      → get_or (write_all greeting (text_at 3 4)).vga.vga_buffer i 0
        ≡ text_cell 15 greeting (4 * vga_width + 3) empty_cells i)
    × ((write_all greeting (text_at 3 4)).tty_x ≡ 3 + length greeting)
    × ((write_all greeting (text_at 3 4)).tty_y ≡ 4)
write_all-text_example =
    write_all-text greeting (text_at 3 4) refl refl
      (omega arith, omega arith, (omega arith, omega arith, tt)) (omega arith) (omega arith)
      (length-replicate {A = ℕ} 2000 3872)

tty_write_char-last_example :
    ((tty_write_char b'x' (text_at 79 24)).vga.vga_buffer
      ≡ scrolled (cell 15 32) (scrolled (cell 15 32) (set empty_cells 1999 (cell 15 b'x'))))
    × ((tty_write_char b'x' (text_at 79 24)).tty_x ≡ 0)
    × ((tty_write_char b'x' (text_at 79 24)).tty_y ≡ 24)
tty_write_char-last_example =
    tty_write_char-last b'x' (text_at 79 24) refl refl (omega arith) refl refl

scrolled_lem_example :
    (length (scrolled 3872 empty_cells) ≡ vga_height * vga_width)
    × ((i : ℕ) → i < 1920 → get_or (scrolled 3872 empty_cells) i 0 ≡ get_or empty_cells (i + 80) 0)
    × ((i : ℕ) → 1920 ≤ i → i < 2000 → get_or (scrolled 3872 empty_cells) i 0 ≡ 3872)
scrolled_lem_example = scrolled_lem 3872 empty_cells (length-replicate {A = ℕ} 2000 3872)

-- Two characters side by side; the byte stands in the second one.
screen_at-IsMode : IsMode (screen_at 4096 16 8)
screen_at-IsMode = record {
  depth = inr (inr (inr refl));
  line_in = omega arith;
  small = omega arith;
}

framebuffer_draw_char-Frame_example :
    get_or (framebuffer_draw_char 0 0 b'a' 15 (screen_at 4096 16 8)).memory (2 * 64 + 40) 0
    ≡ get_or (screen_at 4096 16 8).memory (2 * 64 + 40) 0
framebuffer_draw_char-Frame_example =
    framebuffer_draw_char-Frame 0 0 b'a' 15 (screen_at 4096 16 8) 40 2 screen_at-IsMode
      (omega arith) (λ a b c. omega arith)

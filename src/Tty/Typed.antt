-- ===== src/Tty/Typed.antt =====
-- What a printable character does to the state in the text mode.
use mazuki_os.Base.{ℕ, ◌+◌, ◌*◌, ◌%◌, ◌^◌, ◌≤◌, ◌<◌, ◌≡◌, refl, false, arith, set, ==_ne, lt→leb}
use mazuki_os.Vga.{
  Vga, cell, scrolled, vga_raw_putc, vga_scroll, advance, scroll_below, vga_update_cursor,
}
use mazuki_os.Tty.{
  Tty, graphic, tty_scroll, tty_newline, parse_ansi, draw, write_other, tty_write_char,
}

-- A character that is drawn: no control character.
abbrev pub IsPrintable : ℕ → Type 0
IsPrintable c = 32 ≤ c

pub plain : (c : ℕ) (t : Tty) → t.ansi_state ≡ 0 → IsPrintable c → tty_write_char c t ≡ draw c t
unfolding tty_write_char parse_ansi write_other
plain c t e h =
    rw
      (
        e,
        ==_ne c 27 (omega arith),
        ==_ne c 9 (omega arith),
        ==_ne c 10 (omega arith),
        ==_ne c 13 (omega arith),
        ==_ne c 8 (omega arith),
      )
      refl

-- Before the end of a line the character is written and the cursor goes on by one.
pub putc_inside :
    (c color : ℕ) (v : Vga)
    → v.cursor_x + 1 < 80
    → v.cursor_y < 25
    → vga_raw_putc c color v ≡ record {
      vga_buffer = set v.vga_buffer (v.cursor_y * 80 + v.cursor_x) (cell color c);
      cursor_x = v.cursor_x + 1;
      cursor_y = v.cursor_y;
      hardware = v.cursor_y * 80 + (v.cursor_x + 1);
    }
unfolding vga_raw_putc advance scroll_below vga_update_cursor
putc_inside c color v x y =
    let small : (v.cursor_x + 1) % 2 ^ 16 ≡ v.cursor_x + 1 = omega arith in
    let at : (v.cursor_y * 80 + (v.cursor_x + 1)) % 2 ^ 16 ≡ v.cursor_y * 80 + (v.cursor_x + 1) =
      omega arith in
    rw (small, lt→leb 80 (v.cursor_x + 1) x, lt→leb 25 v.cursor_y y, at) refl

-- At the end of the last line the screen scrolls.
putc_last :
    (c color : ℕ) (v : Vga)
    → v.cursor_x ≡ 79
    → v.cursor_y ≡ 24
    → vga_raw_putc c color v ≡ record {
      vga_buffer = scrolled (cell color 32) (set v.vga_buffer 1999 (cell color c));
      cursor_x = 0;
      cursor_y = 24;
      hardware = 1920;
    }
unfolding vga_raw_putc advance scroll_below vga_update_cursor vga_scroll
putc_last c color v x y = rw (x, y) refl

-- The state behind a character that is not in the last column.
abbrev pub typed : ℕ → Tty → Tty
typed c t = record t {
  vga = record {
    vga_buffer = set t.vga.vga_buffer (t.tty_y * 80 + t.tty_x) (cell t.tty_color c);
    cursor_x = t.tty_x + 1;
    cursor_y = t.tty_y;
    hardware = t.tty_y * 80 + (t.tty_x + 1);
  };
  tty_x = t.tty_x + 1;
}

pub draw_inside :
    (c : ℕ) (t : Tty) → graphic t ≡ false → t.tty_x + 1 < 80 → t.tty_y < 25 → draw c t ≡ typed c t
unfolding draw
draw_inside c t g x y =
    let sx : t.tty_x % 2 ^ 16 ≡ t.tty_x = omega arith in
    let sy : t.tty_y % 2 ^ 16 ≡ t.tty_y = omega arith in
    let nx : (t.tty_x + 1) % 2 ^ 32 ≡ t.tty_x + 1 = omega arith in
    let mx : (t.tty_x + 1) % 2 ^ 16 ≡ t.tty_x + 1 = omega arith in
    rw
      (
        g,
        sx,
        sy,
        nx,
        putc_inside c t.tty_color (record t.vga { cursor_x = t.tty_x; cursor_y = t.tty_y }) x y,
        g,
        lt→leb 80 (t.tty_x + 1) x,
        mx,
      )
      refl

pub tty_newline_last :
    (t : Tty)
    → graphic t ≡ false
    → t.tty_y ≡ 24
    → tty_newline t ≡ record t {
      vga = record (vga_scroll t.tty_color t.vga) { cursor_x = 0; cursor_y = 24 };
      tty_x = 0;
      tty_y = 24;
    }
unfolding tty_newline tty_scroll
tty_newline_last t g y = rw (y, g, g) refl

-- The state in which `tty_newline` is called behind the last cell.
abbrev pub wrapped : ℕ → Tty → Tty
wrapped c t = record t {
  vga = record {
    vga_buffer = scrolled (cell t.tty_color 32) (set t.vga.vga_buffer 1999 (cell t.tty_color c));
    cursor_x = 0;
    cursor_y = 24;
    hardware = 1920;
  };
  tty_x = 80;
}

pub draw_last :
    (c : ℕ) (t : Tty)
    → graphic t ≡ false
    → t.tty_x ≡ 79
    → t.tty_y ≡ 24
    → draw c t ≡ tty_newline (wrapped c t)
unfolding draw
draw_last c t g x y =
    rw
      (
        g,
        x,
        y,
        putc_last c t.tty_color (record t.vga { cursor_x = 79; cursor_y = 24 }) refl refl,
        g,
      )
      refl

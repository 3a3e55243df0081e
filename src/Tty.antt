-- ===== src/Tty.antt =====
-- sys/kernel/tty.c: the terminal over the text screen of vga.c or the graphic one of
-- framebuffer.c, whichever `framebuffer_available` chooses.
pub mod Keeps
pub mod Sound
pub mod Tab
pub mod Sequence
pub mod Typed
pub mod Text
mod Tests
use mazuki_os.Base.{
  ℕ, zero, suc, ◌+◌, ◌-◌, ◌*◌, ◌/◌, ◌%◌, ◌^◌, Bool, true, false, not, ◌&&◌, ◌||◌, List, [], ◌∷◌,
  ltb, leb, ◌==◌, if◌then◌else◌, get_or,
}
use mazuki_os.Vga.{Vga, vga_width, vga_height, vga_scroll, vga_clear, vga_raw_putc}
use mazuki_os.Framebuffer.{
  Framebuffer, framebuffer_available, framebuffer_columns, framebuffer_rows, framebuffer_clear,
  framebuffer_scroll, framebuffer_draw_char, framebuffer_erase_char,
}

-- What `ansi_current_arg` points to.
pub data AnsiArg : Type 0 where
  null : AnsiArg
  ansi_arg1 : AnsiArg
  ansi_arg2 : AnsiArg

-- The arguments are `int`s of 32 bits, which wrap; no comparison in the source tells a negative one
-- from one above 2 ^ 31, so a pattern below 2 ^ 32 stands for it.
pub record Tty : Type 0 where
  pub vga : Vga
  pub screen : Framebuffer
  pub tty_x : ℕ
  pub tty_y : ℕ
  pub tty_color : ℕ
  pub ansi_state : ℕ
  pub arg1 : ℕ
  pub arg2 : ℕ
  pub ansi_current_arg : AnsiArg

abbrev pub ansi_to_vga : List ℕ
ansi_to_vga = 0 ∷ 4 ∷ 2 ∷ 6 ∷ 1 ∷ 5 ∷ 3 ∷ 7 ∷ 8 ∷ 12 ∷ 10 ∷ 14 ∷ 9 ∷ 13 ∷ 11 ∷ []

abbrev pub graphic : Tty → Bool
graphic t = framebuffer_available t.screen

abbrev pub tty_width : Tty → ℕ
tty_width t = if graphic t then framebuffer_columns t.screen else vga_width

abbrev pub tty_height : Tty → ℕ
tty_height t = if graphic t then framebuffer_rows t.screen else vga_height

-- The cursor of vga.c has 16 bits.
abbrev pub tty_sync : Tty → Tty
tty_sync t = record t {
  vga = record t.vga { cursor_x = t.tty_x % 2 ^ 16; cursor_y = t.tty_y % 2 ^ 16 };
}

unfoldable pub tty_scroll : Tty → Tty
tty_scroll t =
    let s =
      if graphic t
      then record t { screen = framebuffer_scroll t.tty_color t.screen }
      else record t { vga = vga_scroll t.tty_color t.vga } in
    record s { tty_y = tty_height s - 1 }

unfoldable pub tty_newline : Tty → Tty
tty_newline t =
    let below = record t { tty_x = 0; tty_y = (t.tty_y + 1) % 2 ^ 32 } in
    tty_sync (if leb (tty_height below) below.tty_y then tty_scroll below else below)

-- `*ansi_current_arg = *ansi_current_arg * 10 + c - '0'` for the digit `c`. The pointer is set
-- before a digit can come.
unfoldable pub ansi_digit : AnsiArg → ℕ → Tty → Tty
ansi_digit null c t = t
ansi_digit ansi_arg1 c t = record t { arg1 = (t.arg1 * 10 + (c - b'0')) % 2 ^ 32 }
ansi_digit ansi_arg2 c t = record t { arg2 = (t.arg2 * 10 + (c - b'0')) % 2 ^ 32 }

-- `(tty_color & 0xF0) | ansi_to_vga[k]`
abbrev pub foreground : ℕ → ℕ → ℕ
foreground color k = color / 16 * 16 + get_or ansi_to_vga k 0

-- The colour after the letter `m`, from the first argument and then from the second.
abbrev pub first_color : ℕ → ℕ → ℕ
first_color arg color =
    if arg == 0
    then 15
    else if leb 30 arg && leb arg 37
    then foreground color (arg - 30)
    else if leb 90 arg && leb arg 97
    then foreground color (arg - 90)
    else color

abbrev pub second_color : ℕ → ℕ → ℕ
second_color arg color = if leb 30 arg && leb arg 37 then foreground color (arg - 30) else color

unfoldable pub ansi_clear : Tty → Tty
ansi_clear t =
    let s =
      if graphic t
      then record t { screen = framebuffer_clear t.tty_color t.screen }
      else record t { vga = vga_clear t.tty_color t.vga } in
    record s { tty_x = 0; tty_y = 0 }

-- The character that ends a sequence.
unfoldable pub ansi_final : ℕ → Tty → Tty
ansi_final c t =
    let s =
      if (c == b'J') && ((t.arg1 == 0) || (t.arg1 == 2))
      then ansi_clear t
      else if (c == b'H') || (c == b'f')
      then record t { tty_x = 0; tty_y = 0 }
      else if c == b'm'
      then record t { tty_color = second_color t.arg2 (first_color t.arg1 t.tty_color) }
      else t in
    tty_sync (record s { ansi_state = 0 })

-- Whether the character belongs to a sequence, and the state behind it; 27 is the escape.
unfoldable pub parse_ansi : ℕ → Tty → Bool × Tty
parse_ansi c t =
    if t.ansi_state == 0
    then (if not (c == 27)
        then (false, t)
        else (true, record t { ansi_state = 1; arg1 = 0; arg2 = 0; ansi_current_arg = ansi_arg1 }))
    else if t.ansi_state == 1
    then (true, record t { ansi_state = if c == b'[' then 2 else 0 })
    else if t.ansi_state == 2
    then (if leb b'0' c && leb c b'9'
        then (true, ansi_digit t.ansi_current_arg c t)
        else if c == b';'
        then (true, record t { ansi_current_arg = ansi_arg2 })
        else (true, ansi_final c t))
    else (true, record t { ansi_state = 0 })

-- The blank at the cursor, which stays.
unfoldable pub erase : Tty → Tty
erase t =
    if graphic t
    then record t { screen = framebuffer_erase_char t.tty_x t.tty_y t.tty_color t.screen }
    else record t { vga = vga_raw_putc b' ' t.tty_color (tty_sync t).vga }

unfoldable pub tty_backspace : Tty → Tty
tty_backspace t =
    let back =
      if ltb 0 t.tty_x
      then record t { tty_x = t.tty_x - 1 }
      else if ltb 0 t.tty_y
      then record t { tty_y = t.tty_y - 1; tty_x = tty_width t - 1 }
      else t in
    tty_sync (erase back)

-- The end of `tty_write_char`: the character at the cursor.
unfoldable pub draw : ℕ → Tty → Tty
draw c t =
    let drawn =
      if graphic t
      then record t { screen = framebuffer_draw_char t.tty_x t.tty_y c t.tty_color t.screen }
      else record t { vga = vga_raw_putc c t.tty_color (tty_sync t).vga } in
    let next = record drawn { tty_x = (t.tty_x + 1) % 2 ^ 32 } in
    if leb (tty_width next) next.tty_x then tty_newline next else tty_sync next

-- A character that is no part of a sequence; 8 is the backspace, and the tabulator is not among
-- them.
unfoldable pub write_other : ℕ → Tty → Tty
write_other c t =
    if c == 10
    then tty_newline t
    else if c == 13
    then tty_sync (record t { tty_x = 0 })
    else if c == 8
    then tty_backspace t
    else draw c t

-- The call `tty_write_char(' ')` of the tabulator.
unfoldable pub write_blank : Tty → Tty
write_blank t = let (handled, s) = parse_ansi b' ' t in if handled then s else write_other b' ' s

-- `do tty_write_char(' '); while (tty_x && (tty_x & 7));` at most `n` times.
unfoldable pub tab_loop : ℕ → Tty → Tty
tab_loop zero t = t
tab_loop (suc n) t =
    let s = write_blank t in let rest = tab_loop n s in if s.tty_x % 8 == 0 then s else rest

unfoldable pub tty_write_char : ℕ → Tty → Tty
tty_write_char c t =
    let (handled, s) = parse_ansi c t in
    if handled then s else if c == 9 then tab_loop 8 s else write_other c s

-- ===== src/Vga.antt =====
-- sys/kernel/drivers/vga.c: the text screen of 80 by 25 cells. A cell is the 16-bit word at its
-- place of `vga_buffer`; what `outb` has sent to the two cursor ports is the field `hardware`.
pub mod Scroll
pub mod Length
use mazuki_os.Base.{
  ℕ, ◌+◌, ◌-◌, ◌*◌, ◌%◌, ◌^◌, List, [], ◌∷◌, ltb, leb, ◌==◌, if◌then◌else◌, get_or, set, for_each,
}

abbrev pub vga_width : ℕ
vga_width = 80

abbrev pub vga_height : ℕ
vga_height = 25

pub record Vga : Type 0 where
  pub vga_buffer : List ℕ
  pub cursor_x : ℕ
  pub cursor_y : ℕ
  pub hardware : ℕ

-- `(color << 8) | c`: a `char` is signed, so that one from 128 on sets all the bits of the colour.
abbrev pub cell : ℕ → ℕ → ℕ
cell color c = if ltb c 128 then color * 256 + c else 65280 + c

-- Both bytes of the position.
unfoldable pub vga_update_cursor : Vga → Vga
vga_update_cursor v = record v { hardware = (v.cursor_y * vga_width + v.cursor_x) % 2 ^ 16 }

-- The loop over `x` of `vga_scroll`.
unfoldable pub copy_row : ℕ → List ℕ → List ℕ
copy_row y =
    for_each vga_width 0
      (λ x cells. set cells ((y - 1) * vga_width + x) (get_or cells (y * vga_width + x) 0))

-- `n` cells from `first` on are blank.
unfoldable pub fill : ℕ → ℕ → ℕ → List ℕ → List ℕ
fill n first blank = for_each n first (λ i cells. set cells i blank)

unfoldable pub scrolled : ℕ → List ℕ → List ℕ
scrolled blank cells =
    fill vga_width ((vga_height - 1) * vga_width) blank (for_each (vga_height - 1) 1 copy_row cells)

unfoldable pub vga_scroll : ℕ → Vga → Vga
vga_scroll color v = record v {
  vga_buffer = scrolled (cell color b' ') v.vga_buffer;
  cursor_y = vga_height - 1;
}

unfoldable pub vga_clear : ℕ → Vga → Vga
vga_clear color v = vga_update_cursor (record v {
  vga_buffer = fill (vga_width * vga_height) 0 (cell color b' ') v.vga_buffer;
  cursor_x = 0;
  cursor_y = 0;
})

-- The cursor behind a cell: `cursor_x` goes back to 0 at the end of the line.
unfoldable pub advance : Vga → Vga
advance v =
    let next = (v.cursor_x + 1) % 2 ^ 16 in
    if leb vga_width next
    then record v { cursor_x = 0; cursor_y = (v.cursor_y + 1) % 2 ^ 16 }
    else record v { cursor_x = next }

-- `if (cursor_y >= VGA_HEIGHT) vga_scroll(color);`
unfoldable pub scroll_below : ℕ → Vga → Vga
scroll_below color v = if leb vga_height v.cursor_y then vga_scroll color v else v

unfoldable pub vga_raw_putc : ℕ → ℕ → Vga → Vga
vga_raw_putc c color v =
    let at = v.cursor_y * vga_width + v.cursor_x in
    vga_update_cursor
      (scroll_below color (advance (record v { vga_buffer = set v.vga_buffer at (cell color c) })))

abbrev pub vga_putc : ℕ → Vga → Vga
vga_putc c v = vga_raw_putc c 15 v

-- Up to the zero at the end of the text.
unfoldable pub print_bsod_str : List ℕ → Vga → Vga
print_bsod_str [] v = v
print_bsod_str (c ∷ s) v =
    let shown =
      if c == 10
      then vga_update_cursor
          (scroll_below 31 (record v { cursor_x = 0; cursor_y = (v.cursor_y + 1) % 2 ^ 16 }))
      else vga_raw_putc c 31 v in
    let rest = print_bsod_str s shown in if c == 0 then v else rest

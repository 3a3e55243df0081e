-- ===== src/Vga/Length.antt =====
-- No operation of vga.c changes the size of the buffer.
use mazuki_os.Base.{ℕ, ◌+◌, ◌*◌, ◌≡◌, refl, ◌∙◌, arith, length, set, length-set, leb, by_test}
use mazuki_os.Vga.{
  Vga, vga_width, vga_height, vga_scroll, vga_clear, vga_raw_putc, vga_update_cursor, advance,
  scroll_below, cell,
}
use mazuki_os.Vga.Scroll.{length-scrolled, length-fill}

pub length-vga_scroll :
    (color : ℕ) (v : Vga) → length (vga_scroll color v).vga_buffer ≡ length v.vga_buffer
unfolding vga_scroll
length-vga_scroll color v = length-scrolled (cell color b' ') v.vga_buffer

pub length-vga_clear :
    (color : ℕ) (v : Vga) → length (vga_clear color v).vga_buffer ≡ length v.vga_buffer
unfolding vga_clear vga_update_cursor
length-vga_clear color v = length-fill (vga_width * vga_height) 0 (cell color b' ') v.vga_buffer

length-advance : (v : Vga) → length (advance v).vga_buffer ≡ length v.vga_buffer
unfolding advance
length-advance v = ground arith

length-scroll_below :
    (color : ℕ) (v : Vga) → length (scroll_below color v).vga_buffer ≡ length v.vga_buffer
unfolding scroll_below
length-scroll_below color v =
    by_test (λ (w : Vga). length w.vga_buffer ≡ length v.vga_buffer) (leb vga_height v.cursor_y)
      (λ e. length-vga_scroll color v) (λ e. refl)

pub length-vga_raw_putc :
    (c color : ℕ) (v : Vga) → length (vga_raw_putc c color v).vga_buffer ≡ length v.vga_buffer
unfolding vga_raw_putc vga_update_cursor
length-vga_raw_putc c color v =
    let at = v.cursor_y * vga_width + v.cursor_x in
    let w = record v { vga_buffer = set v.vga_buffer at (cell color c) } in
    length-scroll_below color (advance w)
    ∙ length-advance w
    ∙ length-set v.vga_buffer at (cell color c)

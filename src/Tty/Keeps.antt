-- ===== src/Tty/Keeps.antt =====
-- What the operations on the screen keep: its size, the colour and the parser's state.
use mazuki_os.Base.{
  ℕ, ◌+◌, ◌-◌, ◌*◌, ◌%◌, ◌^◌, ◌<◌, ◌≡◌, refl, ◌∙◌, Bool, true, false, not, List, arith, length, ltb,
  leb, if◌then◌else◌, by_test, ap, leb→lt,
}
use mazuki_os.Vga.{Vga, vga_width, vga_height, vga_scroll, vga_raw_putc}
use mazuki_os.Vga.Length.{length-vga_scroll, length-vga_raw_putc}
use mazuki_os.Framebuffer.{
  Framebuffer, framebuffer_available, framebuffer_columns, framebuffer_rows, framebuffer_clear,
  framebuffer_scroll, framebuffer_draw_char,
}
use mazuki_os.Tty.{
  Tty, graphic, tty_width, tty_height, tty_sync, tty_scroll, tty_newline, erase, tty_backspace,
  draw,
}

-- The cursor on the screen, the colour in a byte and the text buffer whole.
pub record IsSound (t : Tty) : Type 0 where
  pub buffer : length t.vga.vga_buffer ≡ vga_height * vga_width
  pub width_small : tty_width t < 2 ^ 32
  pub height_small : tty_height t < 2 ^ 32
  pub x_in : t.tty_x < tty_width t
  pub y_in : t.tty_y < tty_height t
  pub color_in : t.tty_color < 256
  pub state_in : t.ansi_state < 3

-- What an operation on the screen leaves as it was.
pub record Kept (t s : Tty) : Type 0 where
  pub buffer : length s.vga.vga_buffer ≡ length t.vga.vga_buffer
  pub width : tty_width s ≡ tty_width t
  pub height : tty_height s ≡ tty_height t
  pub color : s.tty_color ≡ t.tty_color
  pub state : s.ansi_state ≡ t.ansi_state

Kept-trans : {t s r : Tty} → Kept t s → Kept s r → Kept t r
Kept-trans a b = record {
  buffer = b.buffer ∙ a.buffer;
  width = b.width ∙ a.width;
  height = b.height ∙ a.height;
  color = b.color ∙ a.color;
  state = b.state ∙ a.state;
}

pub Kept-IsSound :
    {t s : Tty} → IsSound t → Kept t s → s.tty_x < tty_width t → s.tty_y < tty_height t → IsSound s
Kept-IsSound v k x y = record {
  buffer = k.buffer ∙ v.buffer;
  width_small = omega (arith, v.width_small, k.width);
  height_small = omega (arith, v.height_small, k.height);
  x_in = omega (arith, x, k.width);
  y_in = omega (arith, y, k.height);
  color_in = omega (arith, v.color_in, k.color);
  state_in = omega (arith, v.state_in, k.state);
}

-- The drawing operations change the pixels alone.
abbrev pub SameSize : Framebuffer → Framebuffer → Type 0
SameSize a b =
    (framebuffer_available b ≡ framebuffer_available a)
    × (framebuffer_columns b ≡ framebuffer_columns a)
    × (framebuffer_rows b ≡ framebuffer_rows a)

guarded :
    (b : Bool) (fb : Framebuffer) (m : List ℕ)
    → SameSize fb (if b then fb else record fb { memory = m })
guarded true fb m = (refl, refl, refl)
guarded false fb m = (refl, refl, refl)

pub moved : {t s : Tty} {x y : ℕ} → Kept t s → Kept t (record s { tty_x = x; tty_y = y })
moved k = record {
  buffer = k.buffer;
  width = k.width;
  height = k.height;
  color = k.color;
  state = k.state;
}

-- A new screen of the same size.
screen-Kept :
    (t : Tty) (fb : Framebuffer) → SameSize t.screen fb → Kept t (record t { screen = fb })
screen-Kept t fb (a, c, r) = record {
  buffer = refl;
  width = rw (a, c) refl;
  height = rw (a, r) refl;
  color = refl;
  state = refl;
}

vga-Kept :
    (t : Tty) (v : Vga)
    → length v.vga_buffer ≡ length t.vga.vga_buffer
    → Kept t (record t { vga = v })
vga-Kept t v e = record { buffer = e; width = refl; height = refl; color = refl; state = refl }

-- What changes the pixels or the text buffer keeps the cursor.
abbrev pub Drawn : Tty → Tty → Type 0
Drawn t s = Kept t s × (s.tty_x ≡ t.tty_x) × (s.tty_y ≡ t.tty_y)

pub Kept-refl : (t : Tty) → Kept t t
Kept-refl t = record { buffer = refl; width = refl; height = refl; color = refl; state = refl }

pub same_clear : (color : ℕ) (fb : Framebuffer) → SameSize fb (framebuffer_clear color fb)
unfolding framebuffer_clear
same_clear color fb = guarded (not (framebuffer_available fb)) fb _

pub same_draw :
    (column row c color : ℕ) (fb : Framebuffer)
    → SameSize fb (framebuffer_draw_char column row c color fb)
unfolding framebuffer_draw_char
same_draw column row c color fb = guarded _ fb _

same_scroll : (color : ℕ) (fb : Framebuffer) → SameSize fb (framebuffer_scroll color fb)
unfolding framebuffer_scroll
same_scroll color fb = guarded (not (framebuffer_available fb)) fb _

-- Either screen is drawn on.
pub chosen :
    (t : Tty) (fb : Framebuffer) (v : Vga)
    → SameSize t.screen fb
    → length v.vga_buffer ≡ length t.vga.vga_buffer
    → Drawn t (if graphic t then record t { screen = fb } else record t { vga = v })
chosen t fb v same e =
    by_test (Drawn t) (graphic t) (λ b. (screen-Kept t fb same, refl, refl))
      (λ b. (vga-Kept t v e, refl, refl))

pub tty_scroll-Kept :
    (t : Tty)
    → Kept t (tty_scroll t)
      × ((tty_scroll t).tty_x ≡ t.tty_x)
      × ((tty_scroll t).tty_y ≡ tty_height t - 1)
unfolding tty_scroll
tty_scroll-Kept t =
    let (k, x, y) =
      chosen t (framebuffer_scroll t.tty_color t.screen) (vga_scroll t.tty_color t.vga)
        (same_scroll t.tty_color t.screen) (length-vga_scroll t.tty_color t.vga) in
    (moved k, x, ap (λ h. h - 1) k.height)

-- The cursor is on the screen.
abbrev pub On : Tty → Tty → Type 0
On t s = Kept t s × (s.tty_x < tty_width t) × (s.tty_y < tty_height t)

sync-Kept : (t : Tty) → Kept t (tty_sync t)
sync-Kept t = vga-Kept t _ refl

pub On-sync : {t s : Tty} → On t s → On t (tty_sync s)
On-sync {s = s} (k, x, y) = (Kept-trans k (sync-Kept s), x, y)

pub tty_newline-On : (t : Tty) → 0 < tty_width t → 0 < tty_height t → On t (tty_newline t)
unfolding tty_newline
tty_newline-On t w h =
    let below = record t { tty_x = 0; tty_y = (t.tty_y + 1) % 2 ^ 32 } in
    let (k, x, y) = tty_scroll-Kept below in
    On-sync (
      by_test (On t) (leb (tty_height below) below.tty_y)
        (λ e. (Kept-trans (moved (Kept-refl t)) k, omega (arith, x, w), omega (arith, y, h)))
        (λ e. (moved (Kept-refl t), w, ground arith)))

On-trans : {t s r : Tty} → Kept t s → On s r → On t r
On-trans k (l, x, y) = (Kept-trans k l, omega (arith, x, k.width), omega (arith, y, k.height))

pub draw-On :
    (c : ℕ) (t : Tty)
    → 0 < tty_width t
    → 0 < tty_height t
    → t.tty_y < tty_height t
    → On t (draw c t)
unfolding draw
draw-On c t w h y =
    let (k, x', y') =
      chosen t (framebuffer_draw_char t.tty_x t.tty_y c t.tty_color t.screen)
        (vga_raw_putc c t.tty_color (tty_sync t).vga)
        (same_draw t.tty_x t.tty_y c t.tty_color t.screen)
        (length-vga_raw_putc c t.tty_color (tty_sync t).vga) in
    behind t _ ((t.tty_x + 1) % 2 ^ 32) w h y (k, y')
  where
    behind :
        (t drawn : Tty) (x : ℕ)
        → 0 < tty_width t
        → 0 < tty_height t
        → t.tty_y < tty_height t
        → Kept t drawn × (drawn.tty_y ≡ t.tty_y)
        → On t (
            let next = record drawn { tty_x = x } in
            if leb (tty_width next) next.tty_x then tty_newline next else tty_sync next)
    behind t drawn x w h y (k, e) =
        let next = record drawn { tty_x = x } in
        by_test (On t) (leb (tty_width next) x)
          (λ _.
            On-trans (moved k)
              (tty_newline-On next (omega (arith, w, k.width)) (omega (arith, h, k.height))))
          (λ b.
            On-sync
              (moved k, omega (arith, leb→lt (tty_width next) x b, k.width), omega (arith, y, e)))

pub tty_backspace-On : (t : Tty) → IsSound t → On t (tty_backspace t)
unfolding tty_backspace erase
tty_backspace-On t v =
    let back =
      if ltb 0 t.tty_x
      then record t { tty_x = t.tty_x - 1 }
      else if ltb 0 t.tty_y
      then record t { tty_y = t.tty_y - 1; tty_x = tty_width t - 1 }
      else t in
    let (k, x, y) = earlier in
    let (l, x', y') =
      chosen back (framebuffer_draw_char back.tty_x back.tty_y b' ' back.tty_color back.screen)
        (vga_raw_putc b' ' back.tty_color (tty_sync back).vga)
        (same_draw back.tty_x back.tty_y b' ' back.tty_color back.screen)
        (length-vga_raw_putc b' ' back.tty_color (tty_sync back).vga) in
    On-sync (Kept-trans k l, omega (arith, x, x'), omega (arith, y, y'))
  where
    earlier : On t (
        if ltb 0 t.tty_x
        then record t { tty_x = t.tty_x - 1 }
        else if ltb 0 t.tty_y
        then record t { tty_y = t.tty_y - 1; tty_x = tty_width t - 1 }
        else t)
    earlier =
        by_test (On t) (ltb 0 t.tty_x) (λ _. (moved (Kept-refl t), omega (arith, v.x_in), v.y_in))
          (λ _.
            by_test (On t) (ltb 0 t.tty_y)
              (λ _. (moved (Kept-refl t), omega (arith, v.x_in), omega (arith, v.y_in)))
              (λ _. (Kept-refl t, v.x_in, v.y_in)))

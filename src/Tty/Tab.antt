-- ===== src/Tty/Tab.antt =====
-- The tabulator's loop in `tty_write_char`.
use mazuki_os.Base.{
  ℕ, zero, suc, ◌+◌, ◌*◌, ◌/◌, ◌%◌, ◌^◌, ◌≤◌, ◌<◌, ◌≡◌, ◌≢◌, refl, sym, ap, ap₂, ◌∙◌, Bool, true,
  false, arith, by_test, ltb, leb, if◌then◌else◌, ==_ne, ℕ_discrete,
}
use mazuki_os.Tty.{
  Tty, tty_width, tty_height, tty_sync, tty_newline, draw, write_other, write_blank, parse_ansi,
  tab_loop, tty_write_char, graphic, tty_scroll,
}
use mazuki_os.Vga.{vga_raw_putc}
use mazuki_os.Framebuffer.{framebuffer_draw_char}
use mazuki_os.Tty.Sound.{write_blank-IsSound}
use mazuki_os.Vga.Length.{length-vga_raw_putc}
use mazuki_os.Tty.Keeps.{IsSound, draw-On, chosen, same_draw, tty_scroll-Kept}

tty_newline-x : (t : Tty) → (tty_newline t).tty_x ≡ 0
unfolding tty_newline
tty_newline-x t =
    let below = record t { tty_x = 0; tty_y = (t.tty_y + 1) % 2 ^ 32 } in
    by_test (λ (s : Tty). s.tty_x ≡ 0) (leb (tty_height below) below.tty_y) {x = tty_scroll below}
      {y = below} (λ _. (tty_scroll-Kept below).1) (λ _. refl)

-- The column behind a character.
abbrev right : ℕ → ℕ → ℕ
right width x = if leb width (x + 1) then 0 else x + 1

ended-x :
    (t drawn : Tty) (x : ℕ)
    → tty_width drawn ≡ tty_width t
    → (let next = record drawn { tty_x = x } in
        if leb (tty_width next) x then tty_newline next else tty_sync next).tty_x
      ≡ (if leb (tty_width t) x then 0 else x)
ended-x t drawn x e =
    let next = record drawn { tty_x = x } in
    by_test (λ (s : Tty). s.tty_x ≡ (if leb (tty_width t) x then 0 else x)) (leb (tty_width next) x)
      (λ b. tty_newline-x next ∙ at (tty_width t) (tty_width drawn) true e b)
      (λ b. at (tty_width t) (tty_width drawn) false e b)
  where
    at :
        (w w' : ℕ) (b : Bool)
        → w' ≡ w
        → leb w' x ≡ b
        → (if b then 0 else x) ≡ (if leb w x then 0 else x)
    at w w' b e f = ap (λ (b : Bool). if b then 0 else x) (sym f ∙ ap (λ w. leb w x) e)

draw-x : (c : ℕ) (t : Tty) → IsSound t → (draw c t).tty_x ≡ right (tty_width t) t.tty_x
unfolding draw
draw-x c t v =
    let fb = framebuffer_draw_char t.tty_x t.tty_y c t.tty_color t.screen in
    let v' = vga_raw_putc c t.tty_color (tty_sync t).vga in
    let (k, x', y') =
      chosen t fb v' (same_draw t.tty_x t.tty_y c t.tty_color t.screen)
        (length-vga_raw_putc c t.tty_color (tty_sync t).vga) in
    let small : (t.tty_x + 1) % 2 ^ 32 ≡ t.tty_x + 1 = omega (arith, v.x_in, v.width_small) in
    ended-x t (if graphic t then record t { screen = fb } else record t { vga = v' })
      ((t.tty_x + 1) % 2 ^ 32) k.width
    ∙ ap (λ x. if leb (tty_width t) x then 0 else x) small

-- Outside a sequence a blank is drawn.
blank : (t : Tty) → t.ansi_state ≡ 0 → write_blank t ≡ draw b' ' t
unfolding write_blank parse_ansi write_other
blank t e = rw e refl

write_blank-x :
    (t : Tty)
    → IsSound t
    → t.ansi_state ≡ 0
    → ((write_blank t).tty_x ≡ right (tty_width t) t.tty_x)
      × ((write_blank t).ansi_state ≡ 0)
      × (tty_width (write_blank t) ≡ tty_width t)
write_blank-x t v e =
    let (k, x, y) = draw-On b' ' t (omega (arith, v.x_in)) (omega (arith, v.y_in)) v.y_in in
    rw (blank t e) (draw-x b' ' t v, k.state ∙ e, k.width)

-- The column of the next tab stop, or 0 where the line ends first.
abbrev pub tab_stop : ℕ → ℕ → ℕ
tab_stop width x = if ltb (x / 8 * 8 + 8) width then x / 8 * 8 + 8 else 0

right-tab_stop :
    (width x : ℕ)
    → x < width
    → (right width x % 8 ≡ 0 → right width x ≡ tab_stop width x)
      × (right width x % 8 ≢ 0
          → (tab_stop width (right width x) ≡ tab_stop width x) × (right width x % 8 ≡ x % 8 + 1))
right-tab_stop width x h = ground arith

stop : (n : ℕ) (t : Tty) → (write_blank t).tty_x % 8 ≡ 0 → tab_loop (suc n) t ≡ write_blank t
unfolding tab_loop
stop n t e = rw e refl

go_on :
    (n : ℕ) (t : Tty)
    → (write_blank t).tty_x % 8 ≢ 0
    → tab_loop (suc n) t ≡ tab_loop n (write_blank t)
unfolding tab_loop
go_on n t ne = rw (==_ne ((write_blank t).tty_x % 8) 0 ne) refl

-- The loop that has enough rounds stops at the next tab stop, and more rounds change nothing.
loop :
    (m n : ℕ) (t : Tty)
    → IsSound t
    → t.ansi_state ≡ 0
    → 8 ≤ m + t.tty_x % 8
    → (tab_loop (m + n) t ≡ tab_loop m t) × ((tab_loop m t).tty_x ≡ tab_stop (tty_width t) t.tty_x)
loop zero n t v e h = absurd (omega arith)
loop (suc m) n t v e h =
    let (x, e', w) = write_blank-x t v e in
    let (stops, goes) = right-tab_stop (tty_width t) t.tty_x v.x_in in
    let more : tab_loop (suc m + n) t ≡ tab_loop (suc (m + n)) t =
      ap (λ k. tab_loop k t) (omega arith) in
    elim (ℕ_discrete ((write_blank t).tty_x % 8) 0) [
      | yes at ↦ (
        more ∙ stop (m + n) t at ∙ sym (stop m t at),
        rw (stop m t at) (x ∙ stops (omega (arith, at, x))),
      )
      | no ne ↦
          let (same, next) = goes (λ z. ne (omega (arith, z, x))) in
          let (again, there) =
            loop m n (write_blank t) (write_blank-IsSound t v) e' (omega (arith, x, next)) in
          (
            more ∙ go_on (m + n) t ne ∙ again ∙ sym (go_on m t ne),
            rw (go_on m t ne) (there ∙ ap₂ tab_stop w x ∙ same),
          )
    ]

-- Outside a sequence, a tabulator leaves the cursor at the next column that 8 divides, or at the
-- first column where the line ends before, and more than the eight rounds of its loop would change
-- nothing.
pub tty_write_char-tab :
    (n : ℕ) (t : Tty)
    → IsSound t
    → t.ansi_state ≡ 0
    → ((tty_write_char 9 t).tty_x ≡ tab_stop (tty_width t) t.tty_x)
      × (tab_loop (8 + n) t ≡ tty_write_char 9 t)
tty_write_char-tab n t v e =
    let (more, at) = loop 8 n t v e (omega arith) in rw (plain t e) (at, more)
  where
    plain : (t : Tty) → t.ansi_state ≡ 0 → tty_write_char 9 t ≡ tab_loop 8 t
    plain t e = unfold tty_write_char parse_ansi in rw e refl

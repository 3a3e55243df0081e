-- ===== src/Tty/Sound.antt =====
-- Every character keeps the cursor on the screen, the colour in a byte and the buffers whole.
use mazuki_os.Base.{
  ℕ, zero, suc, ◌-◌, ◌%◌, ◌<◌, Bool, not, ◌&&◌, ◌||◌, arith, get_or, leb, ◌==◌, if◌then◌else◌,
  by_test,
}
use mazuki_os.Vga.{vga_clear}
use mazuki_os.Framebuffer.{framebuffer_clear}
use mazuki_os.Tty.{
  Tty, AnsiArg, null, ansi_arg1, ansi_arg2, tty_sync, ansi_digit, first_color, second_color,
  foreground, ansi_to_vga, ansi_clear, ansi_final, parse_ansi, write_other, write_blank, tab_loop,
  tty_write_char,
}
use mazuki_os.Vga.Length.{length-vga_clear}
use mazuki_os.Tty.Keeps.{
  IsSound, Kept-IsSound, Kept-refl, On, On-sync, chosen, draw-On, moved, same_clear,
  tty_backspace-On, tty_newline-On,
}

On-IsSound : {t s : Tty} → IsSound t → On t s → IsSound s
On-IsSound v (k, x, y) = Kept-IsSound v k x y

write_other-IsSound : (c : ℕ) (t : Tty) → IsSound t → IsSound (write_other c t)
unfolding write_other
write_other-IsSound c t v =
    by_test IsSound (c == 10)
      (λ _. On-IsSound v (tty_newline-On t (omega (arith, v.x_in)) (omega (arith, v.y_in))))
      (λ _.
        by_test IsSound (c == 13)
          (λ _. On-IsSound v (On-sync (moved (Kept-refl t), omega (arith, v.x_in), v.y_in)))
          (λ _.
            by_test IsSound (c == 8) (λ _. On-IsSound v (tty_backspace-On t v))
              (λ _.
                On-IsSound v (draw-On c t (omega (arith, v.x_in)) (omega (arith, v.y_in)) v.y_in))))

-- New values of the parser.
parser-IsSound :
    {t : Tty} (state a b : ℕ) (p : AnsiArg)
    → IsSound t
    → state < 3
    → IsSound (record t { ansi_state = state; arg1 = a; arg2 = b; ansi_current_arg = p })
parser-IsSound state a b p v h = record {
  buffer = v.buffer;
  width_small = v.width_small;
  height_small = v.height_small;
  x_in = v.x_in;
  y_in = v.y_in;
  color_in = v.color_in;
  state_in = h;
}

color-IsSound :
    (t : Tty) (color : ℕ) → IsSound t → color < 256 → IsSound (record t { tty_color = color })
color-IsSound t color v h = record {
  buffer = v.buffer;
  width_small = v.width_small;
  height_small = v.height_small;
  x_in = v.x_in;
  y_in = v.y_in;
  color_in = h;
  state_in = v.state_in;
}

color-small : (k : ℕ) → get_or ansi_to_vga k 0 < 16
color-small k = ground arith

foreground-small : (color k : ℕ) → color < 256 → foreground color k < 256
foreground-small color k h = omega (arith, color-small k)

abbrev Byte : ℕ → Type 0
Byte color = color < 256

first-small : (a color : ℕ) → color < 256 → first_color a color < 256
first-small a color h =
    by_test Byte (a == 0) (λ _. omega arith)
      (λ _.
        by_test Byte (leb 30 a && leb a 37) (λ _. foreground-small color (a - 30) h)
          (λ _.
            by_test Byte (leb 90 a && leb a 97) (λ _. foreground-small color (a - 90) h) (λ _. h)))

second-small : (b color : ℕ) → color < 256 → second_color b color < 256
second-small b color h =
    by_test Byte (leb 30 b && leb b 37) (λ _. foreground-small color (b - 30) h) (λ _. h)

ansi_clear-On : (t : Tty) → IsSound t → On t (ansi_clear t)
unfolding ansi_clear
ansi_clear-On t v =
    let (k, x, y) =
      chosen t (framebuffer_clear t.tty_color t.screen) (vga_clear t.tty_color t.vga)
        (same_clear t.tty_color t.screen) (length-vga_clear t.tty_color t.vga) in
    (moved k, omega (arith, v.x_in), omega (arith, v.y_in))

ended-IsSound : (s : Tty) → IsSound s → IsSound (tty_sync (record s { ansi_state = 0 }))
ended-IsSound s v =
    let w = parser-IsSound 0 s.arg1 s.arg2 s.ansi_current_arg v (omega arith) in
    On-IsSound w (On-sync (Kept-refl (record s { ansi_state = 0 }), v.x_in, v.y_in))

ansi_final-IsSound : (c : ℕ) (t : Tty) → IsSound t → IsSound (ansi_final c t)
unfolding ansi_final
ansi_final-IsSound c t v = ended-IsSound _ (
    by_test IsSound ((c == b'J') && ((t.arg1 == 0) || (t.arg1 == 2)))
      (λ _. On-IsSound v (ansi_clear-On t v))
      (λ _.
        by_test IsSound ((c == b'H') || (c == b'f'))
          (λ _. On-IsSound v (moved (Kept-refl t), omega (arith, v.x_in), omega (arith, v.y_in)))
          (λ _.
            by_test IsSound (c == b'm')
              (λ _.
                color-IsSound t _ v
                  (second-small t.arg2 _ (first-small t.arg1 t.tty_color v.color_in)))
              (λ _. v))))

ansi_digit-IsSound : (p : AnsiArg) (c : ℕ) (t : Tty) → IsSound t → IsSound (ansi_digit p c t)
unfolding ansi_digit
ansi_digit-IsSound null c t v = v
ansi_digit-IsSound ansi_arg1 c t v =
    parser-IsSound t.ansi_state _ t.arg2 t.ansi_current_arg v v.state_in
ansi_digit-IsSound ansi_arg2 c t v =
    parser-IsSound t.ansi_state t.arg1 _ t.ansi_current_arg v v.state_in

abbrev SoundBehind : Bool × Tty → Type 0
SoundBehind p = IsSound p.1

parse_ansi-IsSound : (c : ℕ) (t : Tty) → IsSound t → IsSound (parse_ansi c t).1
unfolding parse_ansi
parse_ansi-IsSound c t v =
    by_test SoundBehind (t.ansi_state == 0)
      (λ _.
        by_test SoundBehind (not (c == 27)) (λ _. v)
          (λ _. parser-IsSound 1 0 0 ansi_arg1 v (omega arith)))
      (λ _.
        by_test SoundBehind (t.ansi_state == 1)
          (λ _.
            parser-IsSound (if c == b'[' then 2 else 0) t.arg1 t.arg2 t.ansi_current_arg v
              (ground arith))
          (λ _.
            by_test SoundBehind (t.ansi_state == 2)
              (λ _.
                by_test SoundBehind (leb b'0' c && leb c b'9')
                  (λ _. ansi_digit-IsSound t.ansi_current_arg c t v)
                  (λ _.
                    by_test SoundBehind (c == b';')
                      (λ _. parser-IsSound t.ansi_state t.arg1 t.arg2 ansi_arg2 v v.state_in)
                      (λ _. ansi_final-IsSound c t v)))
              (λ _. parser-IsSound 0 t.arg1 t.arg2 t.ansi_current_arg v (omega arith))))

pub write_blank-IsSound : (t : Tty) → IsSound t → IsSound (write_blank t)
unfolding write_blank
write_blank-IsSound t v =
    let w = parse_ansi-IsSound b' ' t v in
    by_test IsSound (parse_ansi b' ' t).0 (λ _. w)
      (λ _. write_other-IsSound b' ' (parse_ansi b' ' t).1 w)

tab_loop-IsSound : (n : ℕ) (t : Tty) → IsSound t → IsSound (tab_loop n t)
unfolding tab_loop
tab_loop-IsSound zero t v = v
tab_loop-IsSound (suc n) t v =
    let w = write_blank-IsSound t v in
    by_test IsSound ((write_blank t).tty_x % 8 == 0) (λ _. w)
      (λ _. tab_loop-IsSound n (write_blank t) w)

-- Any character, with the sequence it stands in, leaves the cursor on the screen, the colour in a
-- byte, the parser in one of its three states and the text buffer at its size; the screen may be the
-- text screen or a graphic one.
pub tty_write_char-IsSound : (c : ℕ) (t : Tty) → IsSound t → IsSound (tty_write_char c t)
unfolding tty_write_char
tty_write_char-IsSound c t v =
    let s = (parse_ansi c t).1 in
    let w = parse_ansi-IsSound c t v in
    by_test IsSound (parse_ansi c t).0 (λ _. w)
      (λ _. by_test IsSound (c == 9) (λ _. tab_loop-IsSound 8 s w) (λ _. write_other-IsSound c s w))

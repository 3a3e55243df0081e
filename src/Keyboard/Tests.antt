-- ===== src/Keyboard/Tests.antt =====
-- Witnesses for keyboard.c.
use mazuki_os.Base.{ℕ, ◌≡◌, arith, [], ◌∷◌, ◌++◌, List, length-replicate}
use mazuki_os.Keyboard.{kbd_buffer_size, zeroed_keyboard}
use mazuki_os.Keyboard.Queue.{IsSound, pending}
use mazuki_os.Keyboard.History.{Event, interrupt, getc, run, keyboard_fifo}

zeroed-IsSound : IsSound zeroed_keyboard
zeroed-IsSound = record {
  storage = length-replicate {A = ℕ} kbd_buffer_size 0;
  head_in = omega arith;
  tail_in = omega arith;
}

-- Shift down, the key A, shift up, the key A, and two reads.
abbrev two_letters : List Event
two_letters = interrupt 1 42 ∷ interrupt 1 30 ∷ interrupt 1 170 ∷ interrupt 1 30 ∷ getc ∷ getc ∷ []

keyboard_fifo_example :
    (pending zeroed_keyboard ++ (run two_letters zeroed_keyboard).accepts
      ≡ (run two_letters zeroed_keyboard).returns
        ++ pending (run two_letters zeroed_keyboard).keyboard)
    × IsSound (run two_letters zeroed_keyboard).keyboard
keyboard_fifo_example = keyboard_fifo two_letters zeroed_keyboard zeroed-IsSound

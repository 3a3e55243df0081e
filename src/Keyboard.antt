-- ===== src/Keyboard.antt =====
-- sys/kernel/drivers/keyboard.c: from scancodes to the characters that `keyboard_getc` returns. The
-- bytes that `inb` reads from the two ports are arguments.
pub mod Queue
pub mod History
pub mod Layout
mod Tests
use mazuki_os.Base.{
  ℕ, ◌+◌, ◌/◌, ◌%◌, Bool, true, false, ◌||◌, Option, none, some, List, [], ◌∷◌, ◌++◌, ◌==◌,
  if◌then◌else◌, get_or, set, replicate, codes,
}

abbrev pub kbd_buffer_size : ℕ
kbd_buffer_size = 256

-- The static variables.
pub record Keyboard : Type 0 where
  pub kbd_buffer : List ℕ
  pub kbd_head : ℕ
  pub kbd_tail : ℕ
  pub shift : Bool

abbrev pub zeroed_keyboard : Keyboard
zeroed_keyboard = record {
  kbd_buffer = replicate kbd_buffer_size 0;
  kbd_head = 0;
  kbd_tail = 0;
  shift = false;
}

-- The entries written in the source; the other ones of the 128 are 0.
unfoldable pub scancode_table : List ℕ
scancode_table =
    0
    ∷ 27
    ∷ (codes "1234567890-="
        ++ (8
            ∷ 9
            ∷ (codes "qwertyuiop[]"
                ++ (10
                    ∷ 0
                    ∷ (codes "asdfghjkl;'`"
                        ++ (0 ∷ 92 ∷ (codes "zxcvbnm,./" ++ (0 ∷ 42 ∷ 0 ∷ 32 ∷ 0 ∷ []))))))))

-- 34 is the double quote.
unfoldable pub scancode_shift_table : List ℕ
scancode_shift_table =
    0
    ∷ 27
    ∷ (codes "!@#$%^&*()_+"
        ++ (8
            ∷ 9
            ∷ (codes "QWERTYUIOP{}"
                ++ (10
                    ∷ 0
                    ∷ (codes "ASDFGHJKL:"
                        ++ (34
                            ∷ 126
                            ∷ 0
                            ∷ 124
                            ∷ (codes "ZXCVBNM<>?" ++ (0 ∷ 42 ∷ 0 ∷ 32 ∷ 0 ∷ []))))))))

-- A character that finds the buffer full is dropped.
unfoldable pub kbd_push : ℕ → Keyboard → Keyboard
kbd_push c k =
    let next = (k.kbd_head + 1) % kbd_buffer_size in
    if next == k.kbd_tail
    then k
    else record k { kbd_buffer = set k.kbd_buffer k.kbd_head c; kbd_head = next }

abbrev pub is_shift_key : ℕ → Bool
is_shift_key sc = (sc == 42) || (sc == 54)

-- The character of a key, 0 for none.
unfoldable pub char_for : Bool → ℕ → ℕ
char_for shift sc = if shift then get_or scancode_shift_table sc 0 else get_or scancode_table sc 0

-- `sc & 0x80` tells a release from a press, `sc & 0x7F` is the key.
unfoldable pub keyboard_handler_c : ℕ → ℕ → Keyboard → Keyboard
unfolding kbd_push
keyboard_handler_c status sc k =
    if status % 2 == 0
    then k
    else if sc / 128 % 2 == 1
    then (if is_shift_key (sc % 128) then record k { shift = false } else k)
    else if is_shift_key sc
    then record k { shift = true }
    else if char_for k.shift sc == 0
    then k
    else kbd_push (char_for k.shift sc) k

-- `none` waits in the loop until a character comes.
unfoldable pub keyboard_getc : Keyboard → Option (ℕ × Keyboard)
keyboard_getc k =
    if k.kbd_head == k.kbd_tail
    then none
    else some (
      get_or k.kbd_buffer k.kbd_tail 0,
      record k { kbd_tail = (k.kbd_tail + 1) % kbd_buffer_size },
    )

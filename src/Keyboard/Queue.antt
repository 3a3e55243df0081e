-- ===== src/Keyboard/Queue.antt =====
-- The keyboard's buffer as a queue of the characters that wait.
use mazuki_os.Base.{
  ℕ, ◌+◌, ◌-◌, ◌%◌, ◌≤◌, ◌<◌, ◌≡◌, ◌≢◌, ◌⊎◌, inl, inr, refl, ap, ◌∙◌, Bool, true, false, none, some,
  List, [], ◌∷◌, ◌++◌, arith, ◌==◌, ==_ne, length, get_or, set, length-set, ℕ_discrete, Bool-cases,
}
use mazuki_os.Ring.{Ring, put, skip}
use mazuki_os.Ring.Contents.{
  IsValid, window, contents, put-contents, contents-cons, length-contents,
}
use mazuki_os.Keyboard.{Keyboard, kbd_buffer_size, kbd_push, keyboard_getc}

-- Both positions lie in the buffer.
pub record IsSound (k : Keyboard) : Type 0 where
  pub storage : length k.kbd_buffer ≡ kbd_buffer_size
  pub head_in : k.kbd_head < kbd_buffer_size
  pub tail_in : k.kbd_tail < kbd_buffer_size

-- The buffer as a ring from the tail to the head.
abbrev ring : Keyboard → Ring ℕ
ring k = record {
  cells = k.kbd_buffer;
  read_pos = k.kbd_tail;
  write_pos = k.kbd_head;
  count = (k.kbd_head + kbd_buffer_size - k.kbd_tail) % kbd_buffer_size;
}

-- The characters that wait, oldest first.
abbrev pub pending : Keyboard → List ℕ
pending k = contents 0 kbd_buffer_size (ring k)

ring-IsValid : (k : Keyboard) → IsSound k → IsValid kbd_buffer_size (ring k)
ring-IsValid k v = record {
  storage = v.storage;
  reads_in = v.tail_in;
  count_in = omega arith;
  writes_at = omega (arith, v.head_in, v.tail_in);
}

-- How many characters wait.
waiting : (k : Keyboard) → IsSound k → length (pending k) ≡ (ring k).count
waiting k v = length-contents 0 kbd_buffer_size (ring k)

abbrev full : Keyboard → Bool
full k = (k.kbd_head + 1) % kbd_buffer_size == k.kbd_tail

full_iff :
    (k : Keyboard)
    → IsSound k
    → (full k ≡ true → (ring k).count ≡ 255) × (full k ≡ false → (ring k).count < 255)
full_iff k v = (
  λ e.
      let at : (k.kbd_head + 1) % 256 ≡ k.kbd_tail = ground arith in
      omega (arith, at, v.head_in, v.tail_in),
  λ e.
      let ne : (k.kbd_head + 1) % 256 ≢ k.kbd_tail = ground arith in
      omega (arith, ne, v.head_in, v.tail_in),
)

abbrev pushed : ℕ → Keyboard → Keyboard
pushed c k = record k {
  kbd_buffer = set k.kbd_buffer k.kbd_head c;
  kbd_head = (k.kbd_head + 1) % kbd_buffer_size;
}

ring-pushed :
    (c : ℕ) (k : Keyboard)
    → IsSound k
    → (ring k).count < 255
    → ring (pushed c k) ≡ put kbd_buffer_size (ring k) c
unfolding put
ring-pushed c k v h =
    ap
      (λ (n : ℕ).
        let r : Ring ℕ = record {
          cells = set k.kbd_buffer k.kbd_head c;
          read_pos = k.kbd_tail;
          write_pos = (k.kbd_head + 1) % kbd_buffer_size;
          count = n;
        } in
        r)
      (omega (arith, v.head_in, v.tail_in))

-- `kbd_push` appends the character if fewer than 255 wait, and else changes nothing; more than 255
-- never wait.
pub kbd_push_lem :
    (c : ℕ) (k : Keyboard)
    → IsSound k
    → IsSound (kbd_push c k)
      × (length (pending k) < 255 → pending (kbd_push c k) ≡ pending k ++ c ∷ [])
      × (length (pending k) ≡ 255 → kbd_push c k ≡ k)
      × (length (pending k) ≤ 255)
unfolding kbd_push
kbd_push_lem c k v = elim (Bool-cases (full k)) [
  | inl e ↦
      let count = (full_iff k v).0 e in
      rw (e, waiting k v, count) (v, λ lt. absurd (omega arith), λ same. refl, omega arith)
  | inr e ↦
      let room = (full_iff k v).1 e in
      let appended : pending (pushed c k) ≡ pending k ++ c ∷ [] =
        ap (contents 0 kbd_buffer_size) (ring-pushed c k v room)
        ∙ put-contents 0 c (ring-IsValid k v) (omega arith) in
      rw e (
        record {
          storage = length-set k.kbd_buffer k.kbd_head c ∙ v.storage;
          head_in = omega arith;
          tail_in = v.tail_in;
        },
        λ lt. appended,
        λ same. absurd (omega (arith, waiting k v)),
        omega (arith, waiting k v),
      )
]

abbrev popped : Keyboard → Keyboard
popped k = record k { kbd_tail = (k.kbd_tail + 1) % kbd_buffer_size }

ring-popped :
    (k : Keyboard)
    → IsSound k
    → k.kbd_head ≢ k.kbd_tail
    → skip kbd_buffer_size (ring k) ≡ ring (popped k)
unfolding skip
ring-popped k v ne =
    ap
      (λ (n : ℕ).
        let r : Ring ℕ = record {
          cells = k.kbd_buffer;
          read_pos = (k.kbd_tail + 1) % kbd_buffer_size;
          write_pos = k.kbd_head;
          count = n;
        } in
        r)
      (omega (arith, v.head_in, v.tail_in))

-- `keyboard_getc` waits exactly if no character does; else it returns the oldest one and leaves the
-- others in order.
pub keyboard_getc_lem :
    (k : Keyboard)
    → IsSound k
    → ((keyboard_getc k ≡ none) × (pending k ≡ []))
      ⊎ ((c : ℕ) × (k' : Keyboard) × (keyboard_getc k ≡ some (c, k'))
          × (pending k ≡ c ∷ pending k')
          × IsSound k'
          × (k'.shift ≡ k.shift))
unfolding keyboard_getc
keyboard_getc_lem k v = elim (ℕ_discrete k.kbd_head k.kbd_tail) [
  | yes e ↦
      let nothing : (ring k).count ≡ 0 = omega (arith, v.tail_in) in
      inl (rw e (ground arith), ap (window 0 kbd_buffer_size k.kbd_buffer k.kbd_tail) nothing)
  | no ne ↦ inr (
    get_or k.kbd_buffer k.kbd_tail 0,
    popped k,
    rw (==_ne k.kbd_head k.kbd_tail ne) refl,
    contents-cons 0 kbd_buffer_size (ring k) (omega (arith, v.head_in, v.tail_in))
        ∙ ap (λ (r : Ring ℕ). get_or k.kbd_buffer k.kbd_tail 0 ∷ contents 0 kbd_buffer_size r)
            (ring-popped k v ne),
    record { storage = v.storage; head_in = v.head_in; tail_in = omega arith },
    refl,
  )
]

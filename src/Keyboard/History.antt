-- ===== src/Keyboard/History.antt =====
-- Interrupts and calls of `keyboard_getc` in any order: what is typed is what is read.
use mazuki_os.Base.{
  ℕ, ◌/◌, ◌%◌, ◌≡◌, ◌⊎◌, inl, inr, refl, ap, Bool, true, false, none, some, List, [], ◌∷◌, ◌++◌,
  append_assoc, append-nil, arith, ltb, ltb→lt, ltb→le, ◌==◌, if◌then◌else◌, length, Bool-cases,
}
use mazuki_os.Keyboard.{
  Keyboard, kbd_push, is_shift_key, char_for, keyboard_handler_c, keyboard_getc,
}
use mazuki_os.Keyboard.Queue.{IsSound, pending, kbd_push_lem, keyboard_getc_lem}

-- The two bytes that an interrupt reads, or a call that does not wait if nothing is there.
pub data Event : Type 0 where
  interrupt : ℕ → ℕ → Event
  getc : Event

-- Whether a shift key is taken as down after an interrupt.
abbrev pub shift_after : ℕ → ℕ → Bool → Bool
shift_after status sc shift =
    if status % 2 == 0
    then shift
    else if sc / 128 % 2 == 1
    then (if is_shift_key (sc % 128) then false else shift)
    else if is_shift_key sc
    then true
    else shift

-- The character that an interrupt means, if any.
abbrev pub typed : ℕ → ℕ → Bool → List ℕ
typed status sc shift =
    if status % 2 == 0
    then []
    else if sc / 128 % 2 == 1
    then []
    else if is_shift_key sc
    then []
    else if char_for shift sc == 0
    then []
    else char_for shift sc ∷ []

-- The characters that find room: with 255 waiting there is none.
abbrev pub accepted : List ℕ → Keyboard → List ℕ
accepted cs k = if ltb (length (pending k)) 255 then cs else []

kbd_push-accepted :
    (c : ℕ) (k : Keyboard) → IsSound k → pending (kbd_push c k) ≡ pending k ++ accepted (c ∷ []) k
kbd_push-accepted c k v =
    let p = kbd_push_lem c k v in
    elim (Bool-cases (ltb (length (pending k)) 255)) [
      | inl room ↦ rw room (p.1 (ltb→lt (length (pending k)) 255 room))
      | inr full ↦
          rw (full, append-nil)
            (ap pending (p.2 (omega (arith, ltb→le (length (pending k)) 255 full, p.3))))
    ]

kbd_push-shift : (c : ℕ) (k : Keyboard) → (kbd_push c k).shift ≡ k.shift
unfolding kbd_push
kbd_push-shift c k = ground arith

nothing_typed : (k k' : Keyboard) → pending k' ≡ pending k → pending k' ≡ pending k ++ accepted [] k
nothing_typed k k' e = elim (Bool-cases (ltb (length (pending k)) 255)) [
  | inl room ↦ rw (room, append-nil) e
  | inr full ↦ rw (full, append-nil) e
]

reshifted : (b : Bool) (k : Keyboard) → IsSound k → IsSound (record k { shift = b })
reshifted b k v = record { storage = v.storage; head_in = v.head_in; tail_in = v.tail_in }

-- What one interrupt leaves.
abbrev Handled : ℕ → ℕ → Keyboard → Keyboard → Type 0
Handled status sc k k' =
    IsSound k'
    × (k'.shift ≡ shift_after status sc k.shift)
    × (pending k' ≡ pending k ++ accepted (typed status sc k.shift) k)

handler_lem :
    (status sc : ℕ) (k : Keyboard)
    → IsSound k
    → Handled status sc k (keyboard_handler_c status sc k)
unfolding keyboard_handler_c
handler_lem status sc k v = elim (Bool-cases (status % 2 == 0)) [
  | inl idle ↦ rw idle (v, refl, nothing_typed k k refl)
  | inr ready ↦ rw ready (elim (Bool-cases (sc / 128 % 2 == 1)) [
    | inl release ↦ rw release (released (Bool-cases (is_shift_key (sc % 128))))
    | inr press ↦ rw press (elim (Bool-cases (is_shift_key sc)) [
      | inl shift_key ↦
          rw shift_key (reshifted true k v, refl, nothing_typed k (record k { shift = true }) refl)
      | inr other ↦ rw other (elim (Bool-cases (char_for k.shift sc == 0)) [
        | inl no_char ↦ rw no_char (v, refl, nothing_typed k k refl)
        | inr a_char ↦ rw a_char (
          (kbd_push_lem (char_for k.shift sc) k v).0,
          kbd_push-shift (char_for k.shift sc) k,
          kbd_push-accepted (char_for k.shift sc) k v,
        )
      ])
    ])
  ])
]
  where
    released :
        (is_shift_key (sc % 128) ≡ true) ⊎ (is_shift_key (sc % 128) ≡ false)
        → let k' = if is_shift_key (sc % 128) then record k { shift = false } else k in
          IsSound k'
          × (k'.shift ≡ (if is_shift_key (sc % 128) then false else k.shift))
          × (pending k' ≡ pending k ++ accepted [] k)
    released (inl e) =
        rw e (reshifted false k v, refl, nothing_typed k (record k { shift = false }) refl)
    released (inr e) = rw e (v, refl, nothing_typed k k refl)

-- The state after some events, with the characters that were put into the buffer and those that
-- the calls returned, in order.
pub record Session : Type 0 where
  pub accepts : List ℕ
  pub returns : List ℕ
  pub keyboard : Keyboard

unfoldable pub run : List Event → Keyboard → Session
run [] k = record { accepts = []; returns = []; keyboard = k }
run (interrupt status sc ∷ es) k =
    let s = run es (keyboard_handler_c status sc k) in
    record s { accepts = accepted (typed status sc k.shift) k ++ s.accepts }
run (getc ∷ es) k =
    let waits = run es k in
    let later : Session = elim (keyboard_getc k) [
      | none ↦ waits
      | some (c, k') ↦ (let s = run es k' in record s { returns = c ∷ s.returns })
    ] in
    later

-- Over any sequence of interrupts and calls, what waited before, followed by all characters that
-- found room, is all that `keyboard_getc` returned, followed by what waits at the end; an interrupt
-- finds room whenever fewer than 255 characters wait.
pub keyboard_fifo :
    (es : List Event) (k : Keyboard)
    → IsSound k
    → let s = run es k in
      (pending k ++ s.accepts ≡ s.returns ++ pending s.keyboard) × IsSound s.keyboard
unfolding run
keyboard_fifo [] k v = (rw append-nil refl, v)
keyboard_fifo (interrupt status sc ∷ es) k v =
    let h = handler_lem status sc k v in
    let rest = keyboard_fifo es (keyboard_handler_c status sc k) h.0 in
    (rw (← append_assoc, ← h.2) rest.0, rest.1)
keyboard_fifo (getc ∷ es) k v = elim (keyboard_getc_lem k v) [
  | inl (e, empty) ↦ rw (e, run) (keyboard_fifo es k v)
  | inr (c, k', e, next, v', same) ↦
      let rest = keyboard_fifo es k' v' in rw (e, run, next) (ap (λ xs. c ∷ xs) rest.0, rest.1)
]

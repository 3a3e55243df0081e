-- ===== src/Klibc/Line.antt =====
-- `internal_kernel_read_line` and `fgets`: editing a line of the keys that `keyboard_getc` returns.
-- The keys are a list; `none` is a call that still waits for a key when the list ends.
use mathlib.Core.Option
use mathlib.Core.List.{reverse, reverse-cons}
use mazuki_os.Base.{
  ℕ, suc, ◌+◌, ◌-◌, ◌≤◌, ◌<◌, ◌≡◌, ◌≢◌, refl, ◌||◌, Option, none, some, List, [], ◌∷◌, ◌++◌,
  append_assoc, arith, ltb, ltb→lt, lt→ltb, ◌==◌, ==_ne, if◌then◌else◌, length, length-append,
  Bool-cases, inl, inr,
}

-- The line, the bytes echoed to the terminal, and the keys not read.
pub record Entered : Type 0 where
  pub line : List ℕ
  pub echo : List ℕ
  pub keys : List ℕ

abbrev pub echoes : ℕ → Option Entered → Option Entered
echoes c = Option.map (λ (e : Entered). record e { echo = c ∷ e.echo })

-- A backspace takes the last byte away, if there is one.
abbrev pub erase_last : List ℕ → List ℕ
erase_last [] = []
erase_last (x ∷ typed) = typed

-- The loop, with the bytes so far, the last one first, and `limit` = `max_len - 1`.
unfoldable pub read_loop : ℕ → List ℕ → List ℕ → Option Entered
read_loop limit [] typed =
    if ltb (length typed) limit
    then none
    else some (record { line = reverse typed; echo = []; keys = [] })
read_loop limit (c ∷ keys) typed =
    let erased = read_loop limit keys (erase_last typed) in
    let added = echoes c (read_loop limit keys (c ∷ typed)) in
    if ltb (length typed) limit
    then (if (c == 10) || (c == 13)
        then some (record { line = reverse (10 ∷ typed); echo = 10 ∷ []; keys = keys })
        else if c == 8
        then (if ltb 0 (length typed) then echoes 8 erased else erased)
        else added)
    else some (record { line = reverse typed; echo = []; keys = c ∷ keys })

-- The zero behind the line is left out.
unfoldable pub read_line : ℕ → List ℕ → Option Entered
read_line max_len keys = read_loop (max_len - 1) keys []

-- The bytes before the first newline, carriage return or zero.
unfoldable pub chop : List ℕ → List ℕ
chop [] = []
chop (c ∷ s) = let rest = chop s in if (c == 10) || (c == 13) || (c == 0) then [] else c ∷ rest

-- `fgets` with a buffer and a positive size: the text it leaves there.
unfoldable pub fgets : ℕ → List ℕ → Option Entered
unfolding read_line chop
fgets size keys =
    Option.map (λ (e : Entered). record e { line = chop e.line }) (read_line size keys)

-- A key that is neither the end of a line, nor a backspace, nor zero.
abbrev pub IsPlain : ℕ → Type 0
IsPlain c = (c ≢ 10) × (c ≢ 13) × (c ≢ 8) × (c ≢ 0)

abbrev pub ArePlain : List ℕ → Type 0
ArePlain [] = Unit
ArePlain (c ∷ s) = IsPlain c × ArePlain s

pub length-reverse : (xs : List ℕ) → length (reverse xs) ≡ length xs
length-reverse [] = refl
length-reverse (x ∷ xs) =
    rw reverse-cons (omega (arith, length-append (reverse xs) (x ∷ []), length-reverse xs))

echoes_line :
    (c : ℕ) (r : Option Entered) {e : Entered}
    → echoes c r ≡ some e
    → (before : Entered) × (r ≡ some before) × (e.line ≡ before.line)
echoes_line c none h = absurd (cc)
echoes_line c (some before) h = (before, refl, ground arith)

reversed_room :
    (typed : List ℕ) (limit : ℕ) (e : Entered)
    → length typed ≤ limit
    → reverse typed ≡ e.line
    → length e.line ≤ limit
reversed_room typed limit e h same = rw (← same) (omega (arith, length-reverse typed))

-- One key that is read where there is room.
key_room :
    (limit c : ℕ) (keys typed : List ℕ) (e : Entered)
    → length typed < limit
    → ((typed : List ℕ) (e : Entered)
        → length typed ≤ limit
        → read_loop limit keys typed ≡ some e
        → length e.line ≤ limit)
    → read_loop limit (c ∷ keys) typed ≡ some e
    → length e.line ≤ limit
unfolding read_loop
key_room limit c keys typed e h rest is = elim (Bool-cases ((c == 10) || (c == 13))) [
  | inl end ↦
      reversed_room (10 ∷ typed) limit e (omega arith)
        (ground (arith, lt→ltb (length typed) limit h, end, is))
  | inr more ↦ elim (Bool-cases (c == 8)) [
    | inl back ↦ elim (Bool-cases (ltb 0 (length typed))) [
      | inl some_typed ↦
          let (before, was, line) =
            echoes_line 8 (read_loop limit keys (erase_last typed)) {e = e}
              (ground (arith, lt→ltb (length typed) limit h, more, back, some_typed, is)) in
          rw line (rest (erase_last typed) before (erased typed (omega arith)) was)
      | inr nothing ↦
          rest (erase_last typed) e (erased typed (omega arith))
            (ground (arith, lt→ltb (length typed) limit h, more, back, nothing, is))
    ]
    | inr other ↦
        let (before, was, line) =
          echoes_line c (read_loop limit keys (c ∷ typed)) {e = e}
            (ground (arith, lt→ltb (length typed) limit h, more, other, is)) in
        rw line (rest (c ∷ typed) before (omega arith) was)
  ]
]
  where
    erased : (xs : List ℕ) → length xs ≤ limit → length (erase_last xs) ≤ limit
    erased [] h = h
    erased (x ∷ xs) h = omega arith

-- A line never takes more than `limit` bytes of the buffer.
read_loop_room :
    (limit : ℕ) (keys typed : List ℕ) (e : Entered)
    → length typed ≤ limit
    → read_loop limit keys typed ≡ some e
    → length e.line ≤ limit
unfolding read_loop
read_loop_room limit [] typed e h is = elim (Bool-cases (ltb (length typed) limit)) [
  | inl less ↦ absurd (ground (arith, less, is))
  | inr full ↦ reversed_room typed limit e h (ground (arith, full, is))
]
read_loop_room limit (c ∷ keys) typed e h is = elim (Bool-cases (ltb (length typed) limit)) [
  | inl less ↦
      key_room limit c keys typed e (ltb→lt (length typed) limit less) (read_loop_room limit keys)
        is
  | inr full ↦ reversed_room typed limit e h (ground (arith, full, is))
]

-- Plain keys and a return, where there is room, give the text and its newline, and echo both.
pub read_loop_text :
    (limit : ℕ) (t behind typed : List ℕ)
    → ArePlain t
    → length typed + length t < limit
    → read_loop limit (t ++ 10 ∷ behind) typed
      ≡ some (record { line = reverse typed ++ (t ++ 10 ∷ []); echo = t ++ 10 ∷ []; keys = behind })
unfolding read_loop
read_loop_text limit [] behind typed p h =
    rw (lt→ltb (length typed) limit (omega arith), reverse-cons) refl
read_loop_text limit (c ∷ t) behind typed p h =
    rw
      (
        lt→ltb (length typed) limit (omega arith),
        ==_ne c 10 p.0.0,
        ==_ne c 13 p.0.1,
        ==_ne c 8 p.0.2,
        read_loop_text limit t behind (c ∷ typed) p.1 (omega arith),
        reverse-cons,
        append_assoc,
      )
      refl

-- A plain key and a backspace behind it leave the line as it was, where one more key has room.
read_loop_erased :
    (limit c : ℕ) (keys typed : List ℕ)
    → IsPlain c
    → length typed + 1 < limit
    → read_loop limit (c ∷ 8 ∷ keys) typed ≡ echoes c (echoes 8 (read_loop limit keys typed))
unfolding read_loop
read_loop_erased limit c keys typed p h =
    rw
      (
        lt→ltb (length typed) limit (omega arith),
        ==_ne c 10 p.0,
        ==_ne c 13 p.1,
        ==_ne c 8 p.2,
        lt→ltb (suc (length typed)) limit (omega arith),
        lt→ltb 0 (suc (length typed)) (omega arith),
      )
      refl

chop-text : (t s : List ℕ) → ArePlain t → chop (t ++ 10 ∷ s) ≡ t
unfolding chop
chop-text [] s p = refl
chop-text (c ∷ t) s p =
    rw (==_ne c 10 p.0.0, ==_ne c 13 p.0.1, ==_ne c 0 p.0.3, chop-text t s p.1) refl

-- `fgets` never takes more bytes than the buffer has beside the zero. Plain keys and a return that
-- fit give just the text, echoed with the newline, and leave the other keys; a plain key that is
-- erased at once changes nothing but the echo, if a further key fits.
pub fgets_lem :
    (size : ℕ)
    → ((keys : List ℕ) (e : Entered) → read_line size keys ≡ some e → length e.line ≤ size - 1)
      × ((t behind : List ℕ)
          → ArePlain t
          → length t + 1 < size
          → fgets size (t ++ 10 ∷ behind)
            ≡ some (record { line = t; echo = t ++ 10 ∷ []; keys = behind }))
      × ((c : ℕ) (keys : List ℕ)
          → IsPlain c
          → 2 < size
          → read_line size (c ∷ 8 ∷ keys) ≡ echoes c (echoes 8 (read_line size keys)))
unfolding fgets
fgets_lem size = (
  λ keys e is. read_loop_room (size - 1) keys [] e (omega arith) is,
  λ t behind p h. rw (read_loop_text (size - 1) t behind [] p (omega arith), chop-text t [] p) refl,
  λ c keys p h. read_loop_erased (size - 1) c keys [] p (omega arith),
)

-- ===== src/Klibc/Copy.antt =====
-- What the copying functions leave in the target.
use mathlib.Core.Option
use mazuki_os.Base.{
  ℕ, zero, suc, ◌+◌, ◌-◌, ◌≤◌, ◌<◌, ◌≡◌, refl, ap, ◌∙◌, some, List, [], ◌∷◌, ◌++◌, arith, ==_ne,
  length, take, drop, replicate,
}
use mazuki_os.Klibc.Memory.{memcpy, memset, strcpy, strncpy, strcat, append_upto, strncat}
use mazuki_os.Klibc.Text.{Spells}

-- `memcpy` inside both buffers copies `n` bytes and leaves the rest of the target.
pub memcpy_lem :
    (dst src : List ℕ) (n : ℕ)
    → n ≤ length dst
    → n ≤ length src
    → memcpy dst src n ≡ some (take n src ++ drop n dst)
unfolding memcpy
memcpy_lem dst src zero h k = refl
memcpy_lem [] src (suc n) h k = absurd (omega arith)
memcpy_lem (d ∷ dst) [] (suc n) h k = absurd (omega arith)
memcpy_lem (d ∷ dst) (s ∷ src) (suc n) h k =
    rw (memcpy_lem dst src n (omega arith) (omega arith)) refl

pub memset_lem :
    (dst : List ℕ) (value n : ℕ)
    → n ≤ length dst
    → memset dst value n ≡ some (replicate n value ++ drop n dst)
unfolding memset
memset_lem dst value zero h = refl
memset_lem [] value (suc n) h = absurd (omega arith)
memset_lem (d ∷ dst) value (suc n) h = rw (memset_lem dst value n (omega arith)) refl

-- `strcpy` into a buffer with room for the text and its zero leaves just these in front.
pub strcpy_lem :
    (t dst src : List ℕ)
    → Spells t src
    → length t < length dst
    → strcpy dst src ≡ some (t ++ 0 ∷ drop (suc (length t)) dst)
unfolding strcpy
strcpy_lem t dst [] v h = elim v [ ]
strcpy_lem t [] (c ∷ src) v h = absurd (omega arith)
strcpy_lem [] (d ∷ dst) (c ∷ src) v h = rw v refl
strcpy_lem (x ∷ t) (d ∷ dst) (c ∷ src) v h =
    rw (==_ne c 0 v.1, strcpy_lem t dst src v.2 (omega arith), v.0) refl

-- `strncpy` writes `n` bytes: the first `n` of the text, then zeros if there are fewer. With `n`
-- bytes of text or more it writes no zero.
pub strncpy_lem :
    (t dst src : List ℕ) (n : ℕ)
    → Spells t src
    → n ≤ length dst
    → strncpy dst src n ≡ some (take n t ++ replicate (n - length t) 0 ++ drop n dst)
unfolding strncpy
strncpy_lem t dst src zero v h = let e : 0 - length t ≡ 0 = omega arith in rw e refl
strncpy_lem t dst [] (suc n) v h = elim v [ ]
strncpy_lem t [] (c ∷ src) (suc n) v h = absurd (omega arith)
strncpy_lem [] (d ∷ dst) (c ∷ src) (suc n) v h = rw v (
    ap (Option.map (λ r. 0 ∷ r)) (memset_lem dst 0 n (omega arith))
    ∙ (let e : suc n - 0 ≡ suc n = omega arith in rw e refl))
strncpy_lem (x ∷ t) (d ∷ dst) (c ∷ src) (suc n) v h =
    rw (==_ne c 0 v.1, strncpy_lem t dst src n v.2 (omega arith), v.0)
      (let e : suc n - suc (length t) ≡ n - length t = omega arith in rw e refl)

-- `strcat` to a string with room for both texts leaves their concatenation.
pub strcat_lem :
    (t u dst src : List ℕ)
    → Spells t dst
    → Spells u src
    → length t + length u < length dst
    → strcat dst src ≡ some (t ++ u ++ 0 ∷ drop (suc (length t + length u)) dst)
unfolding strcat
strcat_lem t u [] src v w h = elim v [ ]
strcat_lem [] u (d ∷ dst) src v w h = rw v (
    strcpy_lem u (0 ∷ dst) src w (omega arith)
    ∙ (let e : 0 + length u ≡ length u = omega arith in rw e refl))
strcat_lem (x ∷ t) u (d ∷ dst) src v w h =
    rw (==_ne d 0 v.1, strcat_lem t u dst src v.2 w (omega arith), v.0)
      (let e : suc (length t + length u) ≡ suc (length t) + length u = omega arith in rw e refl)

-- The copying loop of `strncat` leaves the first `n` bytes of the text and a zero.
append_upto_lem :
    (u dst src : List ℕ) (n : ℕ)
    → Spells u src
    → length u < length dst
    → append_upto dst src n ≡ some (take n u ++ 0 ∷ drop (suc (length (take n u))) dst)
unfolding append_upto
append_upto_lem u dst [] n w h = elim w [ ]
append_upto_lem u [] (c ∷ src) n w h = absurd (omega arith)
append_upto_lem u (d ∷ dst) (c ∷ src) zero w h = refl
append_upto_lem [] (d ∷ dst) (c ∷ src) (suc n) w h = rw w refl
append_upto_lem (y ∷ u) (d ∷ dst) (c ∷ src) (suc n) w h =
    rw (==_ne c 0 w.1, append_upto_lem u dst src n w.2 (omega arith), w.0) refl

-- `strncat` to a string with room for both texts appends the first `n` bytes of the second.
pub strncat_lem :
    (t u dst src : List ℕ) (n : ℕ)
    → Spells t dst
    → Spells u src
    → length t + length u < length dst
    → strncat dst src n ≡ some (t ++ take n u ++ 0 ∷ drop (suc (length t + length (take n u))) dst)
unfolding strncat
strncat_lem t u [] src n v w h = elim v [ ]
strncat_lem [] u (d ∷ dst) src n v w h = rw v (
    append_upto_lem u (0 ∷ dst) src n w (omega arith)
    ∙ (let e : 0 + length (take n u) ≡ length (take n u) = omega arith in rw e refl))
strncat_lem (x ∷ t) u (d ∷ dst) src n v w h =
    rw (==_ne d 0 v.1, strncat_lem t u dst src n v.2 w (omega arith), v.0)
      (let e : suc (length t + length (take n u)) ≡ suc (length t) + length (take n u) =
          omega arith in
        rw e refl)

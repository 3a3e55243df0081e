-- ===== src/Network/Copy.antt =====
-- The loops that copy bytes of a frame.
use mazuki_os.Base.{
  ℕ, zero, suc, ◌+◌, ◌*◌, ◌≤◌, ◌<◌, ◌≡◌, ◌≢◌, ◌⊎◌, inl, inr, refl, ap, ◌∙◌, arith, ==_ne, ==_refl,
}
use mazuki_os.Network.{Bytes, set_byte, copy, sum_words, checksum}
use mazuki_os.Network.Checksum.{AreBytes, set_byte-AreBytes}

pub set_byte_other : (i x a : ℕ) (bytes : Bytes) → a ≢ i → set_byte i x bytes a ≡ bytes a
set_byte_other i x a bytes ne = rw (==_ne a i ne) refl

pub set_byte_here : (i x : ℕ) (bytes : Bytes) → set_byte i x bytes i ≡ x
set_byte_here i x bytes = rw (==_refl i) refl

pub copy_outside :
    (n dst src a : ℕ) (to from : Bytes)
    → (a < dst) ⊎ (dst + n ≤ a)
    → copy n dst to src from a ≡ to a
unfolding copy
copy_outside zero dst src a to from h = refl
copy_outside (suc n) dst src a to from h =
    let apart : a ≢ dst = omega (arith, h) in
    copy_outside n (dst + 1) (src + 1) a (set_byte dst (from src) to) from (later h)
    ∙ set_byte_other dst (from src) a to apart
  where
    later : (a < dst) ⊎ (dst + suc n ≤ a) → (a < dst + 1) ⊎ (dst + 1 + n ≤ a)
    later (inl below) = inl (omega arith)
    later (inr above) = inr (omega arith)

pub copy_inside :
    (n dst src i : ℕ) (to from : Bytes) → i < n → copy n dst to src from (dst + i) ≡ from (src + i)
unfolding copy
copy_inside zero dst src i to from h = absurd (omega arith)
copy_inside (suc n) dst src zero to from h =
    copy_outside n (dst + 1) (src + 1) (dst + 0) (set_byte dst (from src) to) from
      (inl (omega arith))
    ∙ ap (set_byte dst (from src) to) {x = dst + 0} {y = dst} (omega arith)
    ∙ set_byte_here dst (from src) to
    ∙ ap from (omega arith)
copy_inside (suc n) dst src (suc i) to from h =
    ap (copy n (dst + 1) (set_byte dst (from src) to) (src + 1) from) {x = dst + suc i}
      {y = dst + 1 + i} (omega arith)
    ∙ copy_inside n (dst + 1) (src + 1) i (set_byte dst (from src) to) from (omega arith)
    ∙ ap from (omega arith)

pub copy-AreBytes :
    (n dst src : ℕ) (to from : Bytes)
    → AreBytes to
    → AreBytes from
    → AreBytes (copy n dst to src from)
unfolding copy
copy-AreBytes zero dst src to from v w = v
copy-AreBytes (suc n) dst src to from v w =
    copy-AreBytes n (dst + 1) (src + 1) (set_byte dst (from src) to) from
      (set_byte-AreBytes dst (from src) to (w src) v) w

-- The sum reads no other bytes than those of its words.
sum_words_same :
    (n i sum : ℕ) (b b' : Bytes)
    → ((a : ℕ) → i ≤ a → a < i + 2 * n → b a ≡ b' a)
    → sum_words n i b sum ≡ sum_words n i b' sum
unfolding sum_words
sum_words_same zero i sum b b' same = refl
sum_words_same (suc n) i sum b b' same =
    rw (same i (omega arith) (omega arith), same (i + 1) (omega arith) (omega arith))
      (sum_words_same n (i + 2) _ b b' (λ a lo hi. same a (omega arith) (omega arith)))

pub checksum_same :
    (b b' : Bytes) → ((a : ℕ) → 14 ≤ a → a < 34 → b a ≡ b' a) → checksum b 14 20 ≡ checksum b' 14 20
unfolding checksum
checksum_same b b' same = rw (sum_words_same 10 14 0 b b' (λ a lo hi. same a lo (omega arith))) refl

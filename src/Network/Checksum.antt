-- ===== src/Network/Checksum.antt =====
-- `checksum`: the sum of words with its carries folded in.
use mazuki_os.Base.{
  ℕ, zero, suc, ◌+◌, ◌-◌, ◌*◌, ◌/◌, ◌%◌, ◌^◌, ◌≤◌, ◌<◌, ◌≡◌, ◌≢◌, ap, ◌∙◌, arith, ◌==◌, ==_ne,
  if◌then◌else◌, ℕ_discrete, Bool, true, false,
}
use mazuki_os.Network.{Bytes, set_byte, sum_words, fold_sum, checksum, put_checksum}

-- Folding takes multiples of 65535 away, and a positive sum stays positive.
fold_step :
    (fuel s : ℕ) → (k : ℕ) × (fold_sum fuel s + 65535 * k ≡ s) × (s ≢ 0 → fold_sum fuel s ≢ 0)
unfolding fold_sum
fold_step zero s = (0, omega arith, λ ne. ne)
fold_step (suc fuel) s = elim (ℕ_discrete (s / 2 ^ 16) 0) [
  | yes e ↦ (0, rw e (omega arith), λ ne. rw e ne)
  | no more ↦
      let (k, same, positive) = fold_step fuel (s % 2 ^ 16 + s / 2 ^ 16) in
      (
        k + s / 2 ^ 16,
        rw (==_ne (s / 2 ^ 16) 0 more) (omega (arith, same)),
        λ ne. rw (==_ne (s / 2 ^ 16) 0 more) (positive (omega (arith, more))),
      )
]

-- Three rounds are enough.
fold_sum_small : (s : ℕ) → s < 2 ^ 32 → fold_sum 3 s < 2 ^ 16
unfolding fold_sum
fold_sum_small s h = ground arith

abbrev pub AreBytes : Bytes → Type 0
AreBytes bytes = (a : ℕ) → bytes a < 256

-- The sum without wrapping.
unfoldable pub word_sum : ℕ → ℕ → Bytes → ℕ
word_sum zero i bytes = 0
word_sum (suc n) i bytes = bytes i * 256 + bytes (i + 1) + word_sum n (i + 2) bytes

word_sum_small : (n i : ℕ) (bytes : Bytes) → AreBytes bytes → word_sum n i bytes ≤ 65535 * n
unfolding word_sum
word_sum_small zero i bytes v = omega arith
word_sum_small (suc n) i bytes v = omega (arith, word_sum_small n (i + 2) bytes v, v i, v (i + 1))

sum_words_lem :
    (n i : ℕ) (bytes : Bytes) (sum : ℕ)
    → AreBytes bytes
    → sum + 65535 * n < 2 ^ 32
    → sum_words n i bytes sum ≡ sum + word_sum n i bytes
unfolding sum_words word_sum
sum_words_lem zero i bytes sum v h = omega arith
sum_words_lem (suc n) i bytes sum v h =
    let fits : (sum + (bytes i * 256 + bytes (i + 1))) % 2 ^ 32
        ≡ sum + (bytes i * 256 + bytes (i + 1)) =
      omega (arith, v i, v (i + 1)) in
    rw fits (
      sum_words_lem n (i + 2) bytes (sum + (bytes i * 256 + bytes (i + 1))) v
        (omega (arith, v i, v (i + 1)))
      ∙ omega arith)

-- The checksum of the 20 bytes of an IP header without options.
header_checksum :
    (bytes : Bytes)
    → AreBytes bytes
    → checksum bytes 14 20 + fold_sum 3 (word_sum 10 14 bytes) ≡ 65535
unfolding checksum
header_checksum bytes v =
    let small = word_sum_small 10 14 bytes v in
    let folded = fold_sum_small (word_sum 10 14 bytes) (omega (arith, small)) in
    rw (sum_words_lem 10 14 bytes 0 v (omega arith)) (
      ap (λ s. (2 ^ 32 - 1 - fold_sum 3 s) % 2 ^ 16 + fold_sum 3 (word_sum 10 14 bytes))
        {x = 0 + word_sum 10 14 bytes} {y = word_sum 10 14 bytes} (omega arith)
      ∙ omega (arith, folded))

pub set_byte-AreBytes :
    (i x : ℕ) (bytes : Bytes) → x < 256 → AreBytes bytes → AreBytes (set_byte i x bytes)
set_byte-AreBytes i x bytes h v a = either (a == i)
  where
    either : (b : Bool) → (if b then x else bytes a) < 256
    either true = h
    either false = v a

-- The arithmetic of the three sums: `s` with the two bytes cleared, `t` with the first one put in,
-- `u` with both, each with its folded value.
three_sums :
    (c c' s t u f g h k m n : ℕ)
    → c + f ≡ 65535
    → c' + g ≡ 65535
    → f + 65535 * k ≡ s
    → g + 65535 * m ≡ t
    → h + 65535 * n ≡ u
    → t ≡ s + c / 256 * 256
    → u ≡ t + c' % 256
    → (t ≢ 0 → g ≢ 0)
    → (u ≢ 0 → h ≢ 0)
    → h ≤ 65535
    → h ≡ 65535
three_sums c c' s t u f g h k m n ec ec' es et eu st tu pg ph le =
    let t_pos : t ≢ 0 = omega (arith, ec, es, st) in
    let g_pos : g ≢ 0 = pg t_pos in
    let g_is : g ≡ 65535 - c % 256 = omega (arith, ec, es, et, st, ec', g_pos) in
    let h_pos : h ≢ 0 = ph (omega (arith, t_pos, tu)) in
    let low : c' % 256 ≡ c % 256 = omega (arith, ec', g_is) in
    omega (arith, et, eu, tu, g_is, low, h_pos, le)

-- A header with the two bytes put in has the checksum 0: the second byte, which is taken from a
-- header that has the first byte already, is the low byte of the same checksum.
pub put_checksum_lem : (reply : Bytes) → AreBytes reply → checksum (put_checksum reply) 14 20 ≡ 0
unfolding put_checksum word_sum
put_checksum_lem reply v =
    let cleared = set_byte 25 0 (set_byte 24 0 reply) in
    let c = checksum cleared 14 20 in
    let high = set_byte 24 (c / 256) cleared in
    let l = checksum high 14 20 % 256 in
    let w = set_byte-AreBytes 25 0 _ (omega arith) (set_byte-AreBytes 24 0 reply (omega arith) v) in
    let c_is = header_checksum cleared w in
    let w' = set_byte-AreBytes 24 (c / 256) cleared (omega (arith, c_is)) w in
    let high_is = header_checksum high w' in
    let w'' = set_byte-AreBytes 25 l high (omega arith) w' in
    let all_is = header_checksum (put_checksum reply) w'' in
    let sum_high : word_sum 10 14 high ≡ word_sum 10 14 cleared + c / 256 * 256 = omega arith in
    let sum_all : word_sum 10 14 (put_checksum reply) ≡ word_sum 10 14 high + l = omega arith in
    let (k, e, p) = fold_step 3 (word_sum 10 14 cleared) in
    let (k', e', p') = fold_step 3 (word_sum 10 14 high) in
    let (k'', e'', p'') = fold_step 3 (word_sum 10 14 (put_checksum reply)) in
    let sum_is =
      three_sums c (checksum high 14 20) (word_sum 10 14 cleared) (word_sum 10 14 high)
        (word_sum 10 14 (put_checksum reply)) (fold_sum 3 (word_sum 10 14 cleared))
        (fold_sum 3 (word_sum 10 14 high)) (fold_sum 3 (word_sum 10 14 (put_checksum reply))) k k'
        k'' c_is high_is e e' e'' sum_high sum_all p' p'' (omega (arith, all_is)) in
    omega (arith, sum_is, all_is)

-- ===== src/Filesystem/Bitmap.antt =====
-- The bitmap of blocks as a set: what a set bit, a cleared bit and an allocation do to each block.
use Prim.Native.Nat.{bit_and, bit_or}
use mazuki_os.Base.{
  ℕ, zero, suc, ◌+◌, ◌-◌, ◌/◌, ◌%◌, ◌^◌, ◌≤◌, ◌<◌, ◌≡◌, ◌≢◌, refl, ap, sym, ◌∙◌, Bool, true, false,
  not, ◌&&◌, ◌||◌, none, some, List, [], ◌∷◌, arith, ltb, ltb→lt, ◌==◌, ==_ne, length, get_or,
  replicate, modify, length-modify, Bool-cases, Option-cases, ◌⊎◌, inl, inr, ℕ_discrete,
}
use mazuki_os.Filesystem.{
  total_blocks, is_block_free, set_block_used, set_block_free, free_block, allocate_block,
}

-- A test on every number below a bound.
every : ℕ → (ℕ → Bool) → Bool
every zero p = true
every (suc n) p = p n && every n p

every-at : (n : ℕ) (p : ℕ → Bool) (k : ℕ) → every n p ≡ true → k < n → p k ≡ true
unfolding every
every-at zero p k all lt = absurd (omega arith)
every-at (suc n) p k all lt = ground (arith, every-at n p k)

same : Bool → Bool → Bool
same true b = b
same false b = not b

same-eq : (a b : Bool) → same a b ≡ true → a ≡ b
unfolding same
same-eq true b e = sym e
same-eq false b e = ground arith

-- Bit `j` of a byte is clear.
abbrev clear : ℕ → ℕ → Bool
clear b j = bit_and b (2 ^ j) == 0

abbrev bit_set : ℕ → ℕ → ℕ
bit_set b i = bit_or b (2 ^ i)

abbrev bit_cleared : ℕ → ℕ → ℕ
bit_cleared b i = bit_and b (2 ^ 32 - 1 - 2 ^ i)

-- All bytes and all pairs of bits, by evaluation.
abbrev as_set : ℕ → ℕ → ℕ → Bool
as_set b i j =
    same (clear (bit_set b i) j) (not (i == j) && clear b j)
    && same (clear (bit_cleared b i) j) ((i == j) || clear b j)
    && ltb (bit_set b i) 256
    && ltb (bit_cleared b i) 256

bit_table : every 256 (λ b. every 8 (λ i. every 8 (λ j. as_set b i j))) ≡ true
unfolding every same
bit_table = refl

as_set_bits : (b i j : ℕ) → b < 256 → i < 8 → j < 8 → as_set b i j ≡ true
as_set_bits b i j hb hi hj =
    every-at 8 (λ j. as_set b i j) j
      (every-at 8 (λ i. every 8 (λ j. as_set b i j)) i
        (every-at 256 (λ b. every 8 (λ i. every 8 (λ j. as_set b i j))) b bit_table hb) hi)
      hj

and4 :
    (p q r s : Bool) → p && q && r && s ≡ true → (p ≡ true) × (q ≡ true) × (r ≡ true) × (s ≡ true)
and4 p q r s e = ground arith

-- What the table says of one byte.
as_set_parts :
    (b i j : ℕ)
    → b < 256
    → i < 8
    → j < 8
    → (same (clear (bit_set b i) j) (not (i == j) && clear b j) ≡ true)
      × (same (clear (bit_cleared b i) j) ((i == j) || clear b j) ≡ true)
      × (ltb (bit_set b i) 256 ≡ true)
      × (ltb (bit_cleared b i) 256 ≡ true)
as_set_parts b i j hb hi hj =
    and4 (same (clear (bit_set b i) j) (not (i == j) && clear b j))
      (same (clear (bit_cleared b i) j) ((i == j) || clear b j)) (ltb (bit_set b i) 256)
      (ltb (bit_cleared b i) 256) (as_set_bits b i j hb hi hj)

set-clear :
    (b i j : ℕ) → b < 256 → i < 8 → j < 8 → clear (bit_set b i) j ≡ (not (i == j) && clear b j)
set-clear b i j hb hi hj = same-eq _ _ (as_set_parts b i j hb hi hj).0

cleared-clear :
    (b i j : ℕ) → b < 256 → i < 8 → j < 8 → clear (bit_cleared b i) j ≡ ((i == j) || clear b j)
cleared-clear b i j hb hi hj = same-eq _ _ (as_set_parts b i j hb hi hj).1

set-byte : (b i : ℕ) → b < 256 → i < 8 → bit_set b i < 256
set-byte b i hb hi = ltb→lt _ _ (as_set_parts b i 0 hb hi (omega arith)).2

cleared-byte : (b i : ℕ) → b < 256 → i < 8 → bit_cleared b i < 256
cleared-byte b i hb hi = ltb→lt _ _ (as_set_parts b i 0 hb hi (omega arith)).3

get_or-modify_self :
    (xs : List ℕ) (i : ℕ) (f : ℕ → ℕ)
    → i < length xs
    → get_or (modify xs i f) i 0 ≡ f (get_or xs i 0)
get_or-modify_self [] i f h = absurd (omega arith)
get_or-modify_self (x ∷ xs) zero f h = refl
get_or-modify_self (x ∷ xs) (suc i) f h = get_or-modify_self xs i f (omega arith)

get_or-modify_ne :
    (xs : List ℕ) (i j : ℕ) (f : ℕ → ℕ) → i ≢ j → get_or (modify xs i f) j 0 ≡ get_or xs j 0
get_or-modify_ne [] i j f ne = refl
get_or-modify_ne (x ∷ xs) zero zero f ne = absurd (ne refl)
get_or-modify_ne (x ∷ xs) zero (suc j) f ne = refl
get_or-modify_ne (x ∷ xs) (suc i) zero f ne = refl
get_or-modify_ne (x ∷ xs) (suc i) (suc j) f ne = get_or-modify_ne xs i j f (λ e. ne (ap suc e))

-- A bitmap of 256 bytes.
pub record IsBitmap (bitmap : List ℕ) : Type 0 where
  pub size : length bitmap ≡ 256
  pub bytes : (j : ℕ) → get_or bitmap j 0 < 256

modify-IsBitmap :
    (bitmap : List ℕ) (i : ℕ) (f : ℕ → ℕ)
    → i < 256
    → (get_or bitmap i 0 < 256 → f (get_or bitmap i 0) < 256)
    → IsBitmap bitmap
    → IsBitmap (modify bitmap i f)
modify-IsBitmap bitmap i f hi small v = record {
  size = length-modify bitmap i f ∙ v.size;
  bytes = λ j. elim (ℕ_discrete i j) [
    | yes e ↦
        rw (← e) (rw (get_or-modify_self bitmap i f (omega (arith, v.size))) (small (v.bytes i)))
    | no ne ↦ rw (get_or-modify_ne bitmap i j f ne) (v.bytes j)
  ];
}

pub set_block_used-IsBitmap :
    (i : ℕ) (bitmap : List ℕ)
    → i < total_blocks
    → IsBitmap bitmap
    → IsBitmap (set_block_used i bitmap)
unfolding set_block_used
set_block_used-IsBitmap i bitmap hi v =
    modify-IsBitmap bitmap (i / 8) (λ b. bit_set b (i % 8)) (omega arith)
      (λ small. set-byte (get_or bitmap (i / 8) 0) (i % 8) small (omega arith)) v

pub set_block_free-IsBitmap :
    (i : ℕ) (bitmap : List ℕ)
    → i < total_blocks
    → IsBitmap bitmap
    → IsBitmap (set_block_free i bitmap)
unfolding set_block_free
set_block_free-IsBitmap i bitmap hi v =
    modify-IsBitmap bitmap (i / 8) (λ b. bit_cleared b (i % 8)) (omega arith)
      (λ small. cleared-byte (get_or bitmap (i / 8) 0) (i % 8) small (omega arith)) v

-- One byte of the bitmap changes: what is left to show is the case of a block in that byte.
block_bits :
    (bitmap : List ℕ) (i k : ℕ) (f : ℕ → ℕ) (g : Bool → Bool → Bool)
    → i < total_blocks
    → IsBitmap bitmap
    → ((b : ℕ) → b < 256 → clear (f b) (k % 8) ≡ g (i % 8 == k % 8) (clear b (k % 8)))
    → ((c : Bool) → g false c ≡ c)
    → is_block_free k (modify bitmap (i / 8) f) ≡ g (i == k) (is_block_free k bitmap)
unfolding is_block_free
block_bits bitmap i k f g hi v one other = elim (ℕ_discrete (i / 8) (k / 8)) [
  | no ne ↦
      rw (get_or-modify_ne bitmap (i / 8) (k / 8) f ne)
        (rw (==_ne i k (λ e. ne (ap (λ n. n / 8) e))) (sym (other _)))
  | yes e ↦ rw (← e) (
      rw (get_or-modify_self bitmap (i / 8) f (omega (arith, v.size))) (
        one (get_or bitmap (i / 8) 0) (v.bytes (i / 8))
        ∙ ap (λ b. g b (clear (get_or bitmap (i / 8) 0) (k % 8))) (ground (arith, e))))
]

-- Setting the bit of block `i` takes just that block from the free ones.
pub is_block_free-set_block_used :
    (k i : ℕ) (bitmap : List ℕ)
    → i < total_blocks
    → IsBitmap bitmap
    → is_block_free k (set_block_used i bitmap) ≡ (not (i == k) && is_block_free k bitmap)
unfolding set_block_used
is_block_free-set_block_used k i bitmap hi v =
    block_bits bitmap i k (λ b. bit_set b (i % 8)) (λ e c. not e && c) hi v
      (λ b hb. set-clear b (i % 8) (k % 8) hb (omega arith) (omega arith)) (λ c. refl)

-- Clearing it adds just that block.
pub is_block_free-set_block_free :
    (k i : ℕ) (bitmap : List ℕ)
    → i < total_blocks
    → IsBitmap bitmap
    → is_block_free k (set_block_free i bitmap) ≡ ((i == k) || is_block_free k bitmap)
unfolding set_block_free
is_block_free-set_block_free k i bitmap hi v =
    block_bits bitmap i k (λ b. bit_cleared b (i % 8)) (λ e c. e || c) hi v
      (λ b hb. cleared-clear b (i % 8) (k % 8) hb (omega arith) (omega arith)) (λ c. refl)

free_block-some :
    (n i k : ℕ) (bitmap : List ℕ)
    → free_block n i bitmap ≡ some k
    → (i ≤ k)
      × (k < i + n)
      × (is_block_free k bitmap ≡ true)
      × ((j : ℕ) → i ≤ j → j < k → is_block_free j bitmap ≡ false)
unfolding free_block
free_block-some zero i k bitmap e = absurd (cc)
free_block-some (suc n) i k bitmap e = elim (Bool-cases (is_block_free i bitmap)) [
  | inl free ↦
      let at : i ≡ k = ground arith in
      (omega arith, omega arith, ground arith, λ j lo hi. absurd (omega arith))
  | inr taken ↦
      let rest = free_block-some n (i + 1) k bitmap (ground arith) in
      (
        omega arith,
        omega arith,
        rest.2,
        λ j lo hi. elim (ℕ_discrete i j) [
          | yes e ↦ rw (← e) taken
          | no ne ↦ rest.3 j (omega arith) hi
        ],
      )
]

free_block-none :
    (n i : ℕ) (bitmap : List ℕ)
    → free_block n i bitmap ≡ none
    → (k : ℕ) → i ≤ k
    → k < i + n
    → is_block_free k bitmap ≡ false
unfolding free_block
free_block-none zero i bitmap e k lo hi = absurd (omega arith)
free_block-none (suc n) i bitmap e k lo hi = elim (Bool-cases (is_block_free i bitmap)) [
  | inl free ↦ absurd (ground arith)
  | inr taken ↦ elim (ℕ_discrete i k) [
    | yes e ↦ rw (← e) taken
    | no ne ↦ free_block-none n (i + 1) bitmap (ground arith) k (omega arith) (omega arith)
  ]
]

-- `allocate_block` takes the lowest free block and no other, or fails exactly when none is free.
pub allocate_block_lem :
    (bitmap : List ℕ)
    → IsBitmap bitmap
    → ((allocate_block bitmap ≡ none)
        × ((k : ℕ) → k < total_blocks → is_block_free k bitmap ≡ false))
      ⊎ ((i : ℕ) × (b : List ℕ) × (allocate_block bitmap ≡ some (i, b))
          × (i < total_blocks)
          × (is_block_free i bitmap ≡ true)
          × ((j : ℕ) → j < i → is_block_free j bitmap ≡ false)
          × ((k : ℕ) → is_block_free k b ≡ (not (i == k) && is_block_free k bitmap))
          × IsBitmap b)
unfolding allocate_block
allocate_block_lem bitmap v = elim (Option-cases (free_block total_blocks 0 bitmap)) [
  | inl full ↦ inl (
    rw full refl,
    λ k lt. free_block-none total_blocks 0 bitmap full k (omega arith) (omega arith),
  )
  | inr (i, found) ↦
      let at = free_block-some total_blocks 0 i bitmap found in
      inr (
        i,
        set_block_used i bitmap,
        rw found refl,
        omega arith,
        at.2,
        λ j lt. at.3 j (omega arith) lt,
        λ k. is_block_free-set_block_used k i bitmap (omega arith) v,
        set_block_used-IsBitmap i bitmap (omega arith) v,
      )
]

-- An array of zero bytes marks no block.
get_or-replicate : (n j : ℕ) → get_or {A = ℕ} (replicate n 0) j 0 ≡ 0
get_or-replicate zero j = refl
get_or-replicate (suc n) zero = refl
get_or-replicate (suc n) (suc j) = get_or-replicate n j

clear_zero : (i : ℕ) → i < 8 → clear 0 i ≡ true
unfolding every
clear_zero i lt = every-at 8 (λ i. clear 0 i) i refl lt

pub zeroed-IsBitmap : IsBitmap (replicate 256 0)
zeroed-IsBitmap = record { size = refl; bytes = λ j. rw (get_or-replicate 256 j) (omega arith) }

pub is_block_free-zeroed : (k : ℕ) → is_block_free k (replicate 256 0) ≡ true
unfolding is_block_free
is_block_free-zeroed k = rw (get_or-replicate 256 (k / 8)) (clear_zero (k % 8) (omega arith))

-- ===== src/Filesystem/Blocks.antt =====
-- The slots of a file and the bytes behind them: positions on the disk, and the blocks that a list
-- of slots holds.
use mazuki_os.Base.{
  ℕ, zero, suc, ◌+◌, ◌-◌, ◌*◌, ◌/◌, ◌≤◌, ◌<◌, ◌≡◌, ◌≢◌, ◌⊎◌, inl, inr, refl, ap, ap₂, sym, ◌∙◌, min,
  Bool, true, false, ◌||◌, Option, none, some, List, [], ◌∷◌, ◌++◌, arith, ◌==◌, ==_ne,
  if◌then◌else◌, length, take, drop,
}
use mazuki_os.Filesystem.{block_size, store, load, read_blocks}

-- Is block `k` in one of the slots?
abbrev pub held : ℕ → List (Option ℕ) → Bool
held k [] = false
held k (none ∷ bs) = held k bs
held k (some b ∷ bs) = (b == k) || held k bs

-- No block is in two slots.
abbrev pub Distinct : List (Option ℕ) → Type 0
Distinct [] = Unit
Distinct (none ∷ bs) = Distinct bs
Distinct (some b ∷ bs) = (held b bs ≡ false) × Distinct bs

pub store_outside :
    (xs : List ℕ) (at : ℕ) (disk : ℕ → ℕ) (p : ℕ)
    → (p < at) ⊎ (at + length xs ≤ p)
    → store xs at disk p ≡ disk p
unfolding store
store_outside [] at disk p out = refl
store_outside (x ∷ xs) at disk p out =
    store_outside xs (at + 1) (λ q. if q == at then x else disk q) p (further out)
    ∙ rw (==_ne p at (apart out))
  where
    further : (p < at) ⊎ (at + length (x ∷ xs) ≤ p) → (p < at + 1) ⊎ (at + 1 + length xs ≤ p)
    further (inl lt) = inl (omega arith)
    further (inr le) = inr (omega arith)

    apart : (p < at) ⊎ (at + length (x ∷ xs) ≤ p) → p ≢ at
    apart (inl lt) = omega arith
    apart (inr le) = omega arith

-- The bytes that were stored are loaded.
pub load-store :
    (n : ℕ) (xs : List ℕ) (at : ℕ) (disk : ℕ → ℕ)
    → n ≤ length xs
    → load n at (store xs at disk) ≡ take n xs
unfolding load store
load-store zero xs at disk h = refl
load-store (suc n) [] at disk h = absurd (omega arith)
load-store (suc n) (x ∷ xs) at disk h =
    ap₂ ◌∷◌
      (store_outside xs (at + 1) (λ q. if q == at then x else disk q) at (inl (omega arith))
        ∙ ground arith)
      (load-store n xs (at + 1) (λ q. if q == at then x else disk q) (omega arith))

pub load-ext :
    (n at : ℕ) (d d' : ℕ → ℕ)
    → ((p : ℕ) → at ≤ p → p < at + n → d p ≡ d' p)
    → load n at d ≡ load n at d'
unfolding load
load-ext zero at d d' same = refl
load-ext (suc n) at d d' same =
    ap₂ ◌∷◌ (same at (omega arith) (omega arith))
      (load-ext n (at + 1) d d' (λ p lo hi. same p (omega arith) (omega arith)))

-- What is read depends on the blocks that the slots hold, and on no others.
pub read_blocks-ext :
    (bs : List (Option ℕ)) (size : ℕ) (d d' : ℕ → ℕ)
    → ((p : ℕ) → held (p / block_size) bs ≡ true → d p ≡ d' p)
    → read_blocks bs size d ≡ read_blocks bs size d'
unfolding read_blocks
read_blocks-ext [] size d d' same = refl
read_blocks-ext (none ∷ bs) size d d' same = refl
read_blocks-ext (some k ∷ bs) size d d' same =
    ap₂ (λ here rest. if size == 0 then [] else here ++ rest)
      (load-ext (min size block_size) (k * block_size) d d'
        (λ p lo hi. let at : k ≡ p / block_size = omega arith in same p (ground (arith, at))))
      (read_blocks-ext bs (size - min size block_size) d d' (λ p h. same p (ground (arith, h))))

module _ {ℓ} {A : Type ℓ} where
  pub take-split : (a b : ℕ) (xs : List A) → take (a + b) xs ≡ take a xs ++ take b (drop a xs)
  take-split zero b xs = ap (λ n. take n xs) {x = zero + b} (omega arith)
  take-split (suc a) b [] = let e : suc a + b ≡ suc (a + b) = omega arith in rw e (sym (nothing b))
    where
      nothing : (n : ℕ) → take {A = A} n [] ≡ []
      nothing zero = refl
      nothing (suc n) = refl
  take-split (suc a) b (x ∷ xs) =
      let e : suc a + b ≡ suc (a + b) = omega arith in rw e (ap (λ t. x ∷ t) (take-split a b xs))

  pub take-take : (n m : ℕ) (xs : List A) → n ≤ m → take n (take m xs) ≡ take n xs
  take-take zero m xs h = refl
  take-take (suc n) zero xs h = absurd (omega arith)
  take-take (suc n) (suc m) [] h = refl
  take-take (suc n) (suc m) (x ∷ xs) h = ap (λ t. x ∷ t) (take-take n m xs (omega arith))

-- ===== src/Ring/Contents.antt =====
-- The items of a ring, oldest first, and what one `put` and one `skip` do to them.
use native.Mathlib.Nat.{mod-add-mod, mod-eq_of_lt, mod-eq-sub-mod, add-zero}
use mazuki_os.Base.{
  ℕ, zero, suc, ◌+◌, ◌-◌, ◌%◌, ◌≤◌, ◌<◌, ◌≡◌, ◌≢◌, refl, ap, ◌∙◌, List, [], ◌∷◌, ◌++◌, arith,
  Bool-cases, inl, inr, ltb, ltb→lt, ltb→le, length, get_or, set, length-set, get_or-set_self,
  get_or-set_ne,
}
use mazuki_os.Ring.{Ring, put, skip}

pub record IsValid {ℓ} {A : Type ℓ} (cap : ℕ) (r : Ring A) : Type ℓ where
  pub storage : length r.cells ≡ cap
  pub reads_in : r.read_pos < cap
  pub count_in : r.count ≤ cap
  pub writes_at : r.write_pos ≡ (r.read_pos + r.count) % cap

module _ {ℓ} {A : Type ℓ} (default : A) (cap : ℕ) where
  -- The `n` items from index `h` on, going round at `cap`.
  abbrev pub window : List A → ℕ → ℕ → List A
  window cells h zero = []
  window cells h (suc n) = get_or cells h default ∷ window cells ((h + 1) % cap) n

  abbrev pub contents : Ring A → List A
  contents r = window r.cells r.read_pos r.count

  length-window : (cells : List A) (h n : ℕ) → length (window cells h n) ≡ n
  length-window cells h zero = refl
  length-window cells h (suc n) = ap suc (length-window cells ((h + 1) % cap) n)

  pub length-contents : (r : Ring A) → length (contents r) ≡ r.count
  length-contents r = length-window r.cells r.read_pos r.count

  pub window_pos :
      (cells : List A) (h n : ℕ)
      → 0 < n
      → window cells h n ≡ get_or cells h default ∷ window cells ((h + 1) % cap) (n - 1)
  window_pos cells h zero p = absurd (omega arith)
  window_pos cells h (suc n) p = ap (λ k. window cells h (suc k)) (omega arith)

-- An index less than twice round the ring.
once_round : (cap i : ℕ) → cap ≤ i → i < cap + cap → i % cap ≡ i - cap
once_round cap i past small = mod-eq-sub-mod past ∙ mod-eq_of_lt (omega arith)

-- Fewer than `cap` steps round the ring do not come back to the start.
around-ne : (cap h d : ℕ) → h < cap → 0 < d → d < cap → (h + d) % cap ≢ h
around-ne cap h d hh pos_d hd back = elim (Bool-cases (ltb (h + d) cap)) [
  | inl inside ↦ omega (arith, mod-eq_of_lt (ltb→lt (h + d) cap inside))
  | inr outside ↦
      let past = ltb→le (h + d) cap outside in
      omega (arith, once_round cap (h + d) past (omega arith))
]

-- One step, then `k` more.
later_index : (cap h k : ℕ) → (h + suc k) % cap ≡ ((h + 1) % cap + k) % cap
later_index cap h k = rw mod-add-mod (ap (λ i. i % cap) (omega arith))

module _ {ℓ} {A : Type ℓ} (default : A) where
  -- An item written just past a window extends it.
  window-append :
      (cap : ℕ) (cells : List A) (x : A) (i h k : ℕ)
      → i ≡ (h + k) % cap
      → k < cap
      → h < cap
      → cap ≤ length cells
      → window default cap (set cells i x) h (suc k) ≡ window default cap cells h k ++ (x ∷ [])
  window-append cap cells x i h zero at short inside size =
      let here : i ≡ h = rw at (rw add-zero (mod-eq_of_lt inside)) in
      rw (here, get_or-set_self cells h x default (omega arith))
  window-append cap cells x i h (suc k) at short inside size =
      let away : i ≢ h = rw at (around-ne cap h (suc k) inside (omega arith) short) in
      rw (get_or-set_ne cells i h x default away) (
        ap (λ xs. get_or cells h default ∷ xs)
          (window-append cap cells x i ((h + 1) % cap) k (at ∙ later_index cap h k) (omega arith)
            (omega arith) size))

  pub put-contents :
      {cap : ℕ} {r : Ring A} (x : A)
      → IsValid cap r
      → r.count < cap
      → contents default cap (put cap r x) ≡ contents default cap r ++ (x ∷ [])
  unfolding put
  put-contents {cap} {r} x v h =
      rw (ap (window default cap (set r.cells r.write_pos x) r.read_pos) one) (
        window-append cap r.cells x r.write_pos r.read_pos r.count v.writes_at h v.reads_in
          (omega (arith, v.storage)))
    where
      one : r.count + 1 ≡ suc r.count
      one = omega arith

  pub contents-cons :
      (cap : ℕ) (r : Ring A)
      → 0 < r.count
      → contents default cap r
        ≡ get_or r.cells r.read_pos default ∷ contents default cap (skip cap r)
  unfolding skip
  contents-cons cap r h = window_pos default cap r.cells r.read_pos r.count h

  pub put-IsValid :
      {cap : ℕ} {r : Ring A} (x : A) → IsValid cap r → r.count < cap → IsValid cap (put cap r x)
  unfolding put
  put-IsValid {cap} {r} x v h = record {
    storage = length-set r.cells r.write_pos x ∙ v.storage;
    reads_in = v.reads_in;
    count_in = omega arith;
    writes_at = rw v.writes_at (rw mod-add-mod (ap (λ k. k % cap) (omega arith)));
  }

  pub skip-IsValid : {cap : ℕ} {r : Ring A} → IsValid cap r → 0 < r.count → IsValid cap (skip cap r)
  unfolding skip
  skip-IsValid {cap} {r} v h = record {
    storage = v.storage;
    reads_in = omega arith;
    count_in = omega arith;
    writes_at = v.writes_at ∙ rw mod-add-mod (ap (λ k. k % cap) (omega arith));
  }

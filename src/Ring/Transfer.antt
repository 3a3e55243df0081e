-- ===== src/Ring/Transfer.antt =====
-- The read and write loops against a bounded FIFO.
use mazuki_os.Base.{
  ℕ, zero, suc, ◌+◌, ◌-◌, ◌≤◌, ◌<◌, min, ◌≡◌, refl, ap, inl, inr, List, [], ◌∷◌, ◌++◌, append-nil,
  append_assoc, arith, ltb, ltb→lt, ltb→le, Bool-cases, length, take, drop, take-nil,
}
use mazuki_os.Ring.{Ring, put, skip, fill, drain}
use mazuki_os.Ring.Contents.{
  IsValid, window, contents, put-contents, put-IsValid, contents-cons, skip-IsValid,
}

module _ {ℓ} {A : Type ℓ} (default : A) (cap : ℕ) where
  -- What a write loop started at `r` with `w` items written has done.
  pub record Filled (r : Ring A) (xs : List A) (w : ℕ) (out : ℕ × Ring A) : Type ℓ where
    pub valid : IsValid cap out.1
    pub written : out.0 ≡ w + min (length xs) (cap - r.count)
    pub kept : contents default cap out.1 ≡ contents default cap r ++ take (cap - r.count) xs

  take_pos : (n : ℕ) (x : A) (xs : List A) → 0 < n → take n (x ∷ xs) ≡ x ∷ take (n - 1) xs
  take_pos zero x xs h = absurd (omega arith)
  take_pos (suc n) x xs h = ap (λ k. x ∷ take k xs) (omega arith)

  count-put : (r : Ring A) (x : A) → (put cap r x).count ≡ r.count + 1
  unfolding put
  count-put r x = refl

  pub fill-Filled :
      (xs : List A) (w : ℕ) {r : Ring A} → IsValid cap r → Filled r xs w (fill cap xs w r)
  unfolding fill
  fill-Filled [] w {r} v = record {
    valid = v;
    written = omega arith;
    kept = rw (take-nil A (cap - r.count), append-nil);
  }
  fill-Filled (x ∷ xs) w {r} v = elim (Bool-cases (ltb r.count cap)) [
    | inl more ↦
        let room : r.count < cap = ltb→lt r.count cap more in
        let done : Filled (put cap r x) xs (w + 1) (fill cap xs (w + 1) (put cap r x)) =
          fill-Filled xs (w + 1) (put-IsValid default x v room) in
        rw more (record {
          valid = done.valid;
          written = omega (arith, done.written, count-put r x);
          kept = rw (
            done.kept,
            put-contents default x v room,
            count-put r x,
            append_assoc,
            take_pos (cap - r.count) x xs (omega arith),
            sub_suc,
          );
        })
    | inr full ↦ rw full (record {
      valid = v;
      written = omega (arith, ltb→le r.count cap full);
      kept =
          let none_left : cap - r.count ≡ 0 = omega (arith, ltb→le r.count cap full) in
          rw (none_left, append-nil);
    })
  ]
    where
      sub_suc : cap - (r.count + 1) ≡ cap - r.count - 1
      sub_suc = omega arith

  -- What a read loop with room for `n` items, started at `r`, has done.
  pub record Drained (r : Ring A) (n : ℕ) (out : List A × Ring A) : Type ℓ where
    pub valid : IsValid cap out.1
    pub copied : out.0 ≡ take n (contents default cap r)
    pub left : contents default cap out.1 ≡ drop n (contents default cap r)

  contents-nil : (r : Ring A) → r.count ≤ 0 → contents default cap r ≡ []
  contents-nil r h =
      let e : r.count ≡ 0 = omega arith in ap (window default cap r.cells r.read_pos) e

  pub drain-Drained : (n : ℕ) {r : Ring A} → IsValid cap r → Drained r n (drain cap default n r)
  unfolding drain
  drain-Drained zero {r} v = record { valid = v; copied = refl; left = refl }
  drain-Drained (suc n) {r} v = elim (Bool-cases (ltb 0 r.count)) [
    | inl more ↦
        let some_left : 0 < r.count = ltb→lt 0 r.count more in
        let done : Drained (skip cap r) n (drain cap default n (skip cap r)) =
          drain-Drained n (skip-IsValid default v some_left) in
        rw more (record {
          valid = done.valid;
          copied = rw (contents-cons default cap r some_left, done.copied);
          left = rw (contents-cons default cap r some_left) done.left;
        })
    | inr empty ↦
        let e : contents default cap r ≡ [] = contents-nil r (ltb→le 0 r.count empty) in
        rw empty (record { valid = v; copied = rw e; left = rw e })
  ]

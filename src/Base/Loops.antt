-- ===== src/Base/Loops.antt =====
-- The counting loop of C.
use Prim.Native.Nat.{ℕ, zero, suc, ◌+◌, ◌*◌, ◌/◌, ◌%◌, ◌≤◌, ◌<◌}
use native.Mathlib.Omega.{arith}
use mathlib.Core.Bool.{◌||◌}
use mazuki_os.Base.Tests.{◌==◌, if◌then◌else◌}

-- `for (i = first; i < first + n; i++) s = body(i, s)`, as `for_each n first body s`.
unfoldable pub for_each {ℓ} : {S : Type ℓ} → ℕ → ℕ → (ℕ → S → S) → S → S
for_each zero i body s = s
for_each (suc n) i body s = for_each n (i + 1) body (body i s)

-- `a | b` on numbers of `n` bits.
unfoldable pub bit_or : ℕ → ℕ → ℕ → ℕ
bit_or zero a b = 0
bit_or (suc n) a b =
    let rest = bit_or n (a / 2) (b / 2) in
    (if (a % 2 == 1) || (b % 2 == 1) then 1 else 0) + 2 * rest

-- What each round keeps, the loop keeps.
pub for_each-Kept {ℓ ℓ'} :
    {S : Type ℓ} (P : S → Type ℓ') (n first : ℕ) (body : ℕ → S → S) (s : S)
    → ((i : ℕ) (r : S) → first ≤ i → i < first + n → P r → P (body i r))
    → P s
    → P (for_each n first body s)
unfolding for_each
for_each-Kept P zero first body s round p = p
for_each-Kept P (suc n) first body s round p =
    for_each-Kept P n (first + 1) body (body first s)
      (λ i r ge lt. round i r (omega arith) (omega arith))
      (round first s (omega arith) (omega arith) p)

-- ===== src/Base/Sums.antt =====
-- Sums of a function over the numbers below a bound, and what a change at one of them does.
use Prim.Native.Nat.{ℕ, zero, suc, ◌+◌, ◌*◌, ◌≤◌, ◌<◌}
use mathlib.Core.Path.{◌≡◌, refl}
use mathlib.Core.Logic.{◌≢◌}
use native.Mathlib.Decide.{ℕ_discrete}
use native.Mathlib.Omega.{arith}

abbrev pub total : ℕ → (ℕ → ℕ) → ℕ
total zero f = 0
total (suc n) f = total n f + f n

pub total-le : (n b : ℕ) (f : ℕ → ℕ) → ((i : ℕ) → f i ≤ b) → total n f ≤ n * b
total-le zero b f h = omega arith
total-le (suc n) b f h = omega (arith, h n, total-le n b f h)

pub total_same : (n : ℕ) (f g : ℕ → ℕ) → ((i : ℕ) → i < n → g i ≡ f i) → total n g ≡ total n f
total_same zero f g h = refl
total_same (suc n) f g h =
    omega (arith, h n (omega arith), total_same n f g (λ i lt. h i (omega arith)))

-- One more at `k`, and the same elsewhere.
pub total_bumped :
    (n k : ℕ) (f g : ℕ → ℕ)
    → k < n
    → g k ≡ suc (f k)
    → ((i : ℕ) → i ≢ k → g i ≡ f i)
    → total n g ≡ suc (total n f)
total_bumped zero k f g lt e h = absurd (omega arith)
total_bumped (suc n) k f g lt e h = elim (ℕ_discrete n k) [
  | yes same ↦
      let here : g n ≡ suc (f n) = rw same e in
      omega (arith, here, total_same n f g (λ i below. h i (λ q. omega arith)))
  | no other ↦ omega (arith, h n other, total_bumped n k f g (omega arith) e h)
]

pub total_zero : (n : ℕ) (f : ℕ → ℕ) → ((i : ℕ) → f i ≡ 0) → total n f ≡ 0
total_zero zero f h = refl
total_zero (suc n) f h = omega (arith, h n, total_zero n f h)

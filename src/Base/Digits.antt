-- ===== src/Base/Digits.antt =====
-- The lowest binary digit of `bit_and` and `bit_xor`, and what follows for powers of two.
use Prim.Native.Nat.{
  ℕ, zero, suc, ◌+◌, ◌-◌, ◌*◌, ◌/◌, ◌%◌, ◌^◌, ◌≤◌, ◌<◌, min, bit_and, bit_xor, digits, differ,
  bit_and-bitwise, bit_xor-bitwise,
}
use mathlib.Core.Path.{◌≡◌, refl}
use native.Mathlib.Nat.{pow-suc}
use native.Mathlib.Omega.{arith}
use native.Mathlib.Decide.{ℕ_discrete}

-- The recursion on digits does not depend on its fuel, once that reaches the number.
steady :
    (z : ℕ → ℕ) (f : ℕ → ℕ → ℕ) (k l a b : ℕ) → a ≤ k → a ≤ l → digits z f k a b ≡ digits z f l a b
steady z f zero zero a b p q = refl
steady z f zero (suc l) zero b p q = refl
steady z f (suc k) zero zero b p q = refl
steady z f (suc k) (suc l) zero b p q = refl
steady z f zero (suc l) (suc a) b p q = absurd (omega arith)
steady z f (suc k) zero (suc a) b p q = absurd (omega arith)
steady z f (suc k) (suc l) (suc a) b p q =
    let half = steady z f k l (suc a / 2) (b / 2) (omega arith) (omega arith) in omega (arith, half)

pub bit_and-halves : (a b : ℕ) → bit_and a b ≡ 2 * bit_and (a / 2) (b / 2) + min (a % 2) (b % 2)
bit_and-halves zero b = omega (arith, bit_and-bitwise 0 b, bit_and-bitwise 0 (b / 2))
bit_and-halves (suc a) b =
    let h = steady (λ y. 0) min a (suc a / 2) (suc a / 2) (b / 2) (omega arith) (omega arith) in
    omega (arith, h, bit_and-bitwise (suc a) b, bit_and-bitwise (suc a / 2) (b / 2))

pub bit_xor-halves : (a b : ℕ) → bit_xor a b ≡ 2 * bit_xor (a / 2) (b / 2) + differ (a % 2) (b % 2)
bit_xor-halves zero b = omega (arith, bit_xor-bitwise 0 b, bit_xor-bitwise 0 (b / 2))
bit_xor-halves (suc a) b =
    let h = steady (λ y. y) differ a (suc a / 2) (suc a / 2) (b / 2) (omega arith) (omega arith) in
    omega (arith, h, bit_xor-bitwise (suc a) b, bit_xor-bitwise (suc a / 2) (b / 2))

differ-lt : (x y : ℕ) → x < 2 → y < 2 → differ x y < 2
differ-lt zero zero p q = omega arith
differ-lt zero (suc y) p q = omega arith
differ-lt (suc x) zero p q = omega arith
differ-lt (suc x) (suc y) p q = differ-lt x y (omega arith) (omega arith)

differ_twice : (x y : ℕ) → x < 2 → y < 2 → differ (differ x y) y ≡ x
differ_twice zero zero p q = refl
differ_twice zero (suc zero) p q = refl
differ_twice (suc zero) zero p q = refl
differ_twice (suc zero) (suc zero) p q = refl
differ_twice zero (suc (suc y)) p q = absurd (omega arith)
differ_twice (suc zero) (suc (suc y)) p q = absurd (omega arith)
differ_twice (suc (suc x)) y p q = absurd (omega arith)

-- The digits of a `^`.
bit_xor_digits :
    (a b : ℕ)
    → (bit_xor a b / 2 ≡ bit_xor (a / 2) (b / 2)) × (bit_xor a b % 2 ≡ differ (a % 2) (b % 2))
bit_xor_digits a b =
    omega (arith, bit_xor-halves a b, differ-lt (a % 2) (b % 2) (omega arith) (omega arith))

zero_of_pow-zero : (a : ℕ) → a < 2 ^ 0 → a ≡ 0
zero_of_pow-zero a h = omega arith

half-lt : (k a : ℕ) → a < 2 ^ suc k → a / 2 < 2 ^ k
half-lt k a h = omega (arith, pow-suc 2 k)

-- A number of `k` bits stays one under `^`.
pub bit_xor-lt : (k a b : ℕ) → a < 2 ^ k → b < 2 ^ k → bit_xor a b < 2 ^ k
bit_xor-lt zero a b p q = rw (zero_of_pow-zero a p, zero_of_pow-zero b q) (omega arith)
bit_xor-lt (suc k) a b p q =
    let d = bit_xor_digits a b in
    let rest = bit_xor-lt k (a / 2) (b / 2) (half-lt k a p) (half-lt k b q) in
    omega (arith, pow-suc 2 k, d, rest)

-- `^` with the same number twice changes nothing.
pub bit_xor_twice : (k a b : ℕ) → a < 2 ^ k → b < 2 ^ k → bit_xor (bit_xor a b) b ≡ a
bit_xor_twice zero a b p q = rw (zero_of_pow-zero a p, zero_of_pow-zero b q) refl
bit_xor_twice (suc k) a b p q =
    let (h, d) = bit_xor_digits a b in
    let (h', d') = bit_xor_digits (bit_xor a b) b in
    let rest = bit_xor_twice k (a / 2) (b / 2) (half-lt k a p) (half-lt k b q) in
    let low = differ_twice (a % 2) (b % 2) (omega arith) (omega arith) in
    let e : bit_xor (bit_xor a b) b / 2 ≡ a / 2 = rw (h', h) rest in
    let f : bit_xor (bit_xor a b) b % 2 ≡ a % 2 = rw (d', d) low in omega (arith, e, f)

bit_and_self : (fuel a : ℕ) → a ≤ fuel → bit_and a a ≡ a
bit_and_self zero zero le = refl
bit_and_self zero (suc a) le = absurd (omega arith)
bit_and_self (suc f) zero le = refl
bit_and_self (suc f) (suc a) le =
    omega (arith, bit_and-halves (suc a) (suc a), bit_and_self f (suc a / 2) (omega arith))

-- A positive number has no common bit with its predecessor only if it is a power of two.
pub power_of_two : (fuel w : ℕ) → w ≤ fuel → 0 < w → bit_and w (w - 1) ≡ 0 → (k : ℕ) × (w ≡ 2 ^ k)
power_of_two zero w le pos z = absurd (omega arith)
power_of_two (suc f) w le pos z = elim (ℕ_discrete (w % 2) 0) [
  | yes even ↦
      let half : (w - 1) / 2 ≡ w / 2 - 1 = omega arith in
      let none_left : bit_and (w / 2) (w / 2 - 1) ≡ 0 =
        rw (← half) (omega (arith, bit_and-halves w (w - 1))) in
      let (k, e) = power_of_two f (w / 2) (omega arith) (omega arith) none_left in
      (suc k, omega (arith, e, pow-suc 2 k))
  | no odd ↦
      let half : (w - 1) / 2 ≡ w / 2 = omega arith in
      let same : bit_and (w / 2) ((w - 1) / 2) ≡ w / 2 =
        rw half (bit_and_self (w / 2) (w / 2) (omega arith)) in
      (0, omega (arith, bit_and-halves w (w - 1), same))
]

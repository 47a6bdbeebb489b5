-- ===== src/Base/Int.antt =====
-- Signed integers over the native numbers: `negsuc n` is -(n + 1).
use Prim.Native.Nat.{ℕ, zero, suc, ◌+◌, ◌-◌, ◌*◌, ◌/◌, ◌%◌, min}
use mathlib.Core.Path.{◌≡◌}
use mathlib.Core.Bool.{Bool, true, false}
use native.Mathlib.Omega.{arith}
use oox_kirkon_fork.Base.Tests.{leb, if◌then◌else◌}

pub data ℤ : Type 0 where
  pos : ℕ → ℤ
  negsuc : ℕ → ℤ

abbrev pub is_negative : ℤ → Bool
is_negative (pos n) = false
is_negative (negsuc n) = true

abbrev pub is_positive : ℤ → Bool
is_positive (pos zero) = false
is_positive (pos (suc n)) = true
is_positive (negsuc n) = false

-- a - b as an `int`
abbrev pub sub_ℕ : ℕ → ℕ → ℤ
sub_ℕ a b = if leb b a then pos (a - b) else negsuc (b - a - 1)

infixl 65 ◌+ℤ◌ ◌-ℤ◌
abbrev pub ◌+ℤ◌ : ℤ → ℤ → ℤ
pos a +ℤ pos b = pos (a + b)
pos a +ℤ negsuc b = sub_ℕ a (suc b)
negsuc a +ℤ pos b = sub_ℕ b (suc a)
negsuc a +ℤ negsuc b = negsuc (suc (a + b))

-- -n
abbrev neg_ℕ : ℕ → ℤ
neg_ℕ zero = pos 0
neg_ℕ (suc n) = negsuc n

abbrev pub ◌-ℤ◌ : ℤ → ℤ → ℤ
a -ℤ pos b = a +ℤ neg_ℕ b
a -ℤ negsuc b = a +ℤ pos (suc b)

-- Division of an `int` by a positive number, which cuts off towards 0, and what it leaves.
abbrev pub quotient : ℤ → ℕ → ℤ
quotient (pos a) n = pos (a / n)
quotient (negsuc a) n = neg_ℕ (suc a / n)

abbrev pub remainder : ℤ → ℕ → ℤ
remainder (pos a) n = pos (a % n)
remainder (negsuc a) n = neg_ℕ (suc a % n)

abbrev pub times : ℕ → ℤ → ℤ
times k (pos a) = pos (k * a)
times k (negsuc a) = neg_ℕ (k * suc a)

-- The smaller one of an `int` and a number that is not negative.
abbrev pub min_int : ℤ → ℕ → ℤ
min_int (pos a) k = pos (min a k)
min_int (negsuc a) k = negsuc a

pub +ℤ_assoc : (z : ℤ) (a b : ℕ) → z +ℤ pos a +ℤ pos b ≡ z +ℤ pos (a + b)
+ℤ_assoc (pos n) a b = ground arith
+ℤ_assoc (negsuc n) a b = ground arith

pub +ℤ_cancel : (z : ℤ) (n : ℕ) → z +ℤ pos n -ℤ z ≡ pos n
+ℤ_cancel (pos zero) n = ground arith
+ℤ_cancel (pos (suc m)) n = ground arith
+ℤ_cancel (negsuc m) n = ground arith

pub +ℤ-zero : (z : ℤ) → z +ℤ pos 0 ≡ z
+ℤ-zero (pos n) = ground arith
+ℤ-zero (negsuc n) = ground arith

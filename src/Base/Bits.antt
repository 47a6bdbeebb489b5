-- ===== src/Base/Bits.antt =====
-- Bit operations at a fixed position, in the form that linear arithmetic reads:
-- `x & (2^k - 1)` is `low_bits x k`, a test of bit k reads `bit x k`, `x | (1 << k)` is
-- `set_bit x k`, and `x & ~(2^k - 1)` is `clear_low x k`.
use Prim.Native.Nat.{ℕ, ◌+◌, ◌-◌, ◌/◌, ◌%◌, ◌^◌}
use mathlib.Core.Bool.{Bool}
use oox_kirkon_fork.Base.Tests.{◌==◌, if◌then◌else◌}

abbrev pub low_bits : ℕ → ℕ → ℕ
low_bits x k = x % 2 ^ k

abbrev pub bit : ℕ → ℕ → Bool
bit x k = x / 2 ^ k % 2 == 1

abbrev pub set_bit : ℕ → ℕ → ℕ
set_bit x k = if bit x k then x else x + 2 ^ k

abbrev pub clear_low : ℕ → ℕ → ℕ
clear_low x k = x - x % 2 ^ k

-- uint32_t a - b
abbrev pub sub32 : ℕ → ℕ → ℕ
sub32 a b = (a + 2 ^ 32 - b) % 2 ^ 32

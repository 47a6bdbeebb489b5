-- ===== src/Base/Family.antt =====
-- Families indexed by a number, such as the threads of a system: update at one index.
use Prim.Native.Nat.{ℕ}
use oox_kirkon_fork.Base.Tests.{◌==◌, if◌then◌else◌}

abbrev pub update {ℓ} : {A : Type ℓ} → (ℕ → A) → ℕ → A → ℕ → A
update f i a j = if i == j then a else f j

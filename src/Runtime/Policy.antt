-- ===== src/Runtime/Policy.antt =====
-- The policies of oox/oox.h, which say at compile time whether a variable and a task can throw, and the
-- static assertions on them. An exception passes from a task to those that read what it writes.
pub mod Soundness
use oox_kirkon_fork.Base.{ℕ, ◌≡◌, Bool, true, not, ◌||◌, ◌&&◌, some, List, [], ◌∷◌, ◌==◌}
use oox_kirkon_fork.Runtime.Store.Execute.{Argument, plain, writes, reads}
use oox_kirkon_fork.Runtime.Dependence.{Track, Task, Program, tracks}

-- `VarCanThrow` of each variable.
abbrev pub Policies : Type 0
Policies = ℕ → Bool

-- The static assertion of `setup` on an argument of a task with the policy `SelfCanThrow`.
unfoldable pub accepts : Policies → (self_can_throw : Bool) → Argument → Bool
accepts can_throw self_can_throw plain = true
accepts can_throw self_can_throw (writes v a) = can_throw v || not self_can_throw
accepts can_throw self_can_throw (reads v a) = self_can_throw || not (can_throw v)

abbrev pub accepts_all : Policies → Bool → List Argument → Bool
accepts_all can_throw self_can_throw [] = true
accepts_all can_throw self_can_throw (a ∷ args) =
    accepts can_throw self_can_throw a && accepts_all can_throw self_can_throw args

-- The static assertion of `run`, on a functor that is `noexcept` or not, and those on its arguments.
unfoldable pub compiles : Policies → (can_throw is_noexcept : Bool) → List Argument → Bool
compiles policies can_throw is_noexcept args =
    (can_throw || is_noexcept) && accepts_all policies can_throw args

-- How the call of `oox::run` for a task is written.
pub record Call : Type 0 where
  pub can_throw : Bool
  pub is_noexcept : Bool

abbrev pub reads_it : List Argument → ℕ → Bool
reads_it [] v = not true
reads_it (plain ∷ rest) v = reads_it rest v
reads_it (reads u a ∷ rest) v = u == v || reads_it rest v
reads_it (writes u a ∷ rest) v = reads_it rest v

-- A task throws, or `publish_failure_from` gives it the failure of the last writer of a variable that it
-- reads.
pub data Fails {V : Type 0} (p : Program V) (throws : ℕ → Bool) : ℕ → Type 0 where
  thrown : {t : ℕ} → throws t ≡ true → Fails p throws t
  inherited :
      {t d : ℕ} (v : ℕ)
      → reads_it (p t).args v ≡ true
      → (tracks p t v).writer ≡ some d
      → Fails p throws d
      → Fails p throws t

-- ===== src/Runtime/Result.antt =====
-- `result_state` of oox/oox.h: the storage of a value, with a bit that says whether it is there, and
-- how a functor gets at it.
pub mod Lifetime
use oox_kirkon_fork.Base.{Bool, true, false, Option, none, some, if◌then◌else◌}

-- `storage` is `none` while it holds raw bytes only.
pub record ResultState (A : Type 0) : Type 0 where
  pub state_set : Bool
  pub storage : Option A

module _ {A : Type 0} where
  abbrev pub new_state : ResultState A
  new_state = record { state_set = false; storage = none }

  -- `none` where the assertion fails.
  unfoldable pub emplace : A → ResultState A → Option (ResultState A)
  emplace a r = if r.state_set then none else some (record { state_set = true; storage = some a })

  unfoldable pub has_value : ResultState A → Bool
  has_value r = r.state_set

  -- `none` where no value has been constructed at the storage.
  unfoldable pub value : ResultState A → Option A
  value r = r.storage

  unfoldable pub reset : ResultState A → ResultState A
  reset r = record { state_set = false; storage = if r.state_set then none else r.storage }

  -- The value that a functor is given, once the state has what it needs.
  abbrev give : ResultState A → Option (ResultState A × A)
  give r = if r.state_set then elim r.storage [ none ↦ none | some a ↦ some (r, a) ] else none

  -- `consume` for an argument: one that the functor takes by reference and writes gets a default
  -- value if it has none. `none` where an assertion fails or there is no value to read.
  unfoldable pub consume :
      (by_reference : Bool) (default : A) → ResultState A → Option (ResultState A × A)
  unfolding emplace has_value
  consume false default r = give r
  consume true default r =
      if has_value r then give r else elim (emplace default r) [ none ↦ none | some r' ↦ give r' ]

-- ===== src/Clients/Dataflow.antt =====
-- Trees of tasks as the programs of examples/ build them with `oox::run`: each task adds up what its
-- two arguments hold once they are there, or runs a function that returns the variable of another
-- tree. Which of the tasks that are ready runs next is left open.
pub mod Schedule
use oox_kirkon_fork.Base.{ℕ, zero, suc, ◌+◌, ◌≡◌, Option, none, some}

-- An `oox::var` of a number, by the tasks that still have to give it its value.
pub data Var (K : Type 0) : Type 0 where
  value : ℕ → Var K
  call : K → Var K  -- `oox::run (f, key)`
  add : (left right : Var K) → Var K  -- `oox::run` of an addition

module _ {K : Type 0} (body : K → Option (Var K)) (join : ℕ → ℕ → ℕ) where
  -- One task is executed. A functor that reads behind its data does not return.
  pub data Step : Var K → Var K → Type 0 where
    run_call : {k : K} {v : Var K} → body k ≡ some v → Step (call k) v
    run_add : {a b : ℕ} → Step (add (value a) (value b)) (value (join a b))
    in_left : {u v w : Var K} → Step u v → Step (add u w) (add v w)
    in_right : {u v w : Var K} → Step u v → Step (add w u) (add w v)

  pub data Steps : ℕ → Var K → Var K → Type 0 where
    here : {v : Var K} → Steps 0 v v
    then_step : {n : ℕ} {u v w : Var K} → Steps n u v → Step v w → Steps (suc n) u w

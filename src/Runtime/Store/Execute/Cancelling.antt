-- ===== src/Runtime/Store/Execute/Cancelling.antt =====
-- A cancellation in oox/oox.h that reaches a task whose policy says that it cannot fail: by a variable
-- that can throw, of a task that cannot, whose other results are of the policy of the task.
use oox_kirkon_fork.Base.{ℕ, suc, ◌≡◌, ◌==◌, some, false, [], ◌∷◌, arith}
use oox_kirkon_fork.Runtime.Node.{live, task_done, unknown, ready}
use oox_kirkon_fork.Runtime.Store.{Store, Cmd, ◌>>◌}
use oox_kirkon_fork.Runtime.Store.Vars.{cancel_current_task}
use oox_kirkon_fork.Runtime.Store.Execute.{nothing, reads, run, returns, execute}
use oox_kirkon_fork.Runtime.Store.Execute.Lifecycle.{Ends}
use oox_kirkon_fork.Runtime.Store.Execute.Steps.{Ends-three, Ends-map, slot, node}
use oox_kirkon_fork.Runtime.Store.Execute.Pair.{two_written, At, Written, two_written-Written}

-- The first is cancelled, the task is executed, and a task `u` is made that reads the second.
pub cancel_and_read : ℕ → ℕ → ℕ → ℕ → ℕ → ℕ → Cmd (Unit {0})
unfolding run execute cancel_current_task
cancel_and_read f x y t u q = do
  cancel_current_task x
  execute f false t returns
  run f u q nothing (reads y 0 ∷ [])

module _ (f x y t u q : ℕ) (tu : (t == u) ≡ false) (z : Store) where
  -- The word 2684354560 is the flag of a failure and that of a cancellation by the user.
  abbrev Cancelled : Store → Type 0
  Cancelled s =
      (s.task t
        ≡ some
            (node 4 (live []) 2684354560 (slot unknown 1 ∷ slot unknown 1 ∷ slot unknown 1 ∷ [])))
      × At (s.var y) t 2
      × (s.spawned ≡ t ∷ z.spawned)

  abbrev Executed : Store → Type 0
  Executed s =
      (s.task t
        ≡ some (node 3 task_done 2684354560 (slot ready 1 ∷ slot ready 1 ∷ slot ready 1 ∷ [])))
      × At (s.var y) t 2
      × (s.spawned ≡ t ∷ z.spawned)

  cancelled :
      (s : Store)
      → (s.task t
          ≡ some (node 4 (live []) 0 (slot unknown 1 ∷ slot unknown 1 ∷ slot unknown 1 ∷ [])))
        × At (s.var x) t 1
        × At (s.var y) t 2
        × (s.spawned ≡ t ∷ z.spawned)
      → Ends (cancel_current_task x s) Cancelled
  unfolding cancel_current_task
  cancelled s h = ground arith

  executed : (s : Store) → Cancelled s → Ends (execute (suc (suc f)) false t returns s) Executed
  unfolding execute
  executed s h = ground arith

  skipped :
      (s : Store)
      → Executed s
      → Ends (run (suc (suc f)) u q nothing (reads y 0 ∷ []) s) (λ s'. s'.spawned ≡ t ∷ z.spawned)
  unfolding run
  skipped s h = ground arith

-- Let a task that cannot throw write two variables that have values, the addresses of the storages and
-- the task different, and the variables and its result, too; let the first variable be cancelled and
-- the task be executed, so that it returns, as it takes no notice. A task that is made then and reads the
-- second variable is not spawned.
pub cancelled_reader_skipped :
    (s : Store) (f x a y b t r u q : ℕ)
    → (a == b) ≡ false
    → (a == t) ≡ false
    → (b == t) ≡ false
    → (x == y) ≡ false
    → (x == r) ≡ false
    → (y == r) ≡ false
    → (t == u) ≡ false
    → Ends
        (two_written (suc (suc f)) x a y b t r s)
        (λ s'. Ends (cancel_and_read (suc (suc f)) x y t u q s') (λ e. e.spawned ≡ t ∷ s.spawned))
unfolding cancel_and_read
cancelled_reader_skipped s f x a y b t r u q ab at' bt xy xr yr tu =
    Ends-map (Written f x a y b t r ab at' bt xy xr yr s) _
      (two_written (suc (suc f)) x a y b t r s)
      (two_written-Written f x a y b t r ab at' bt xy xr yr s)
      (λ s' h.
        Ends-three (Cancelled f x y t u q tu s) (Executed f x y t u q tu s)
          (λ e. e.spawned ≡ t ∷ s.spawned) (cancel_current_task x)
          (execute (suc (suc f)) false t returns) (run (suc (suc f)) u q nothing (reads y 0 ∷ []))
          s' (cancelled f x y t u q tu s s' h) (executed f x y t u q tu s)
          (skipped f x y t u q tu s))

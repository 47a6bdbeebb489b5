-- ===== src/Runtime/Store/Values.antt =====
-- `wait_and_get` of oox/oox.h: after the wait, the variables that a forwarding task returned are
-- followed to the one that holds the value. For variables of values: their storage lies in a task,
-- so that `storage_ptr` is null where there is no owner. Those that cannot throw show no failure.
pub mod Get
use oox_kirkon_fork.Base.{ℕ, zero, suc, Bool, true, false, Option, none, some, if◌then◌else◌}
use oox_kirkon_fork.Runtime.Node.{Var}
use oox_kirkon_fork.Runtime.Store.{
  assertion, dangling, out_of_fuel, Cmd, pure, fail, ◌>>=◌, ◌>>◌, expect, load, load_var,
}
use oox_kirkon_fork.Runtime.Store.Failure.{
  Thrown, WaitStatus, ready, status_user_cancelled, status_dependency_cancelled, throws,
  failure_wait_status,
}
use oox_kirkon_fork.Runtime.Store.Vars.{wait, wait_for_all_status}

-- What `wait_and_get` ends with: the value in the storage of a task, or an exception.
pub data Got : Type 0 where
  value_of : (task : ℕ) → Got
  thrown : Thrown → Got

-- `failure_wait_status<true>` for the task of a variable, which may be null.
unfoldable pub status_of : (can_throw : Bool) → Var → Cmd WaitStatus
unfolding load failure_wait_status
status_of false x = pure ready
status_of true x = elim x.current_task [
  | none ↦ pure ready
  | some t ↦ do n ← load t; pure (failure_wait_status true (some n) x.current_port)
]

-- `wait_for_all` for the variable.
unfoldable pub wait_for_all : (can_throw : Bool) → ℕ → Cmd WaitStatus
unfolding wait wait_for_all_status
wait_for_all false v = do wait v; pure ready
wait_for_all true v = wait_for_all_status true v

-- The loop, and the check behind it.
unfoldable pub follow : (can_throw : Bool) → (fuel : ℕ) → Var → Cmd Got
unfolding status_of load load_var
follow k zero x = fail out_of_fuel
follow k (suc f) x = do
  w ← status_of k x
  elim w [
    | throws e ↦ pure (thrown e)
    | _ ↦ do
      u ← expect assertion x.owner
      if x.is_forwarded
          then (do n ← load u; v ← expect dangling n.forwarded; y ← load_var v; follow k f y)
          else pure (value_of u)
  ]

unfoldable pub wait_and_get : (can_throw : Bool) → (fuel : ℕ) → ℕ → Cmd Got
unfolding wait_for_all follow load_var
wait_and_get k f v = do
  w ← wait_for_all k v
  elim w [ throws e ↦ pure (thrown e) | _ ↦ do x ← load_var v; follow k f x ]

-- ===== src/Runtime/Store/Values/Get.antt =====
-- `var::get` of oox/oox.h, beside `wait_and_get`. It reads the storage of the
-- variable itself, also where the variable is forwarded, so that the storage holds a variable.
use oox_kirkon_fork.Base.{Bool, ◌&&◌, ℕ, if◌then◌else◌}
use oox_kirkon_fork.Runtime.Start.{has_failure}
use oox_kirkon_fork.Runtime.Store.{
  assertion, dangling, Cmd, pure, ◌>>=◌, ◌>>◌, expect, load, load_var,
}
use oox_kirkon_fork.Runtime.Store.Failure.{throw_failure_for_port}
use oox_kirkon_fork.Runtime.Store.Vars.{wait}
use oox_kirkon_fork.Runtime.Store.Values.{Got, value_of, thrown}

-- What `get` ends with: the value in the storage of a task or an exception, or the bytes of the
-- variable in the storage of a task, taken for a value.
pub data Read : Type 0 where
  got : Got → Read
  misread : (task : ℕ) → Read

-- For a variable of values. There is no assertion on `storage_ptr`.
unfoldable pub get : (can_throw : Bool) → ℕ → Cmd Read
unfolding wait load load_var has_failure throw_failure_for_port
get k v = do
  wait v
  x ← load_var v
  t ← expect assertion x.current_task
  n ← load t
  if k && has_failure n then pure (got (thrown (throw_failure_for_port n x.current_port))) else do
    u ← expect dangling x.owner
    pure (if x.is_forwarded then misread u else got (value_of u))

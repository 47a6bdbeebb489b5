-- ===== src/Runtime/Store/Failure.antt =====
-- The failures of a task in oox/oox.h: marks, exceptions and their propagation to a consumer.
pub mod Inherit
use oox_kirkon_fork.Base.{
  ℕ, ◌==◌, Bool, true, false, not, ◌&&◌, Option, none, some, List, [], ◌∷◌, if◌then◌else◌, ltb,
}
use oox_kirkon_fork.Runtime.Node.{
  TaskNode, Arc, edge, exception_signal, Head, live, task_done, terminal_exception,
  deferred_redirect,
}
use oox_kirkon_fork.Runtime.Start
use oox_kirkon_fork.Runtime.Start.{
  FailureBit, dependency_cancelled, user_cancelled, exception, has_bit, has_failure,
}
use oox_kirkon_fork.Runtime.Store.{
  Store, Cmd, pure, ◌>>=◌, ◌>>◌, load, store, add_arc, retain_exception_control,
  release_exception_control, new_exception_control,
}

unfoldable pub mark_failure : ℕ → FailureBit → Cmd Bool
unfolding Start.mark_failure load store
mark_failure t b = do n ← load t; let (n', fresh) = Start.mark_failure n b; store t n'; pure fresh

-- The first `exception_signal` of a live list.
unfoldable pub find_signal : List Arc → Option ℕ
find_signal [] = none
find_signal (exception_signal c ∷ arcs) = some c
find_signal (edge k n p ∷ arcs) = find_signal arcs

unfoldable pub local_exception_control_handle : TaskNode → Option ℕ
unfolding find_signal
local_exception_control_handle n = elim n.head [
  | terminal_exception c ↦ some c
  | live arcs ↦ find_signal arcs
  | task_done ↦ none
  | deferred_redirect m p ↦ none
]

-- A signal that is not accepted is deleted, with its reference to the control.
unfoldable pub store_exception_control : ℕ → ℕ → Cmd Bool
unfolding add_arc release_exception_control
store_exception_control t control = do
  added ← add_arc t (exception_signal control)
  if added then pure true else do release_exception_control control; pure false

-- `none` is the null `std::exception_ptr`; an exception itself is not looked into.
unfoldable pub try_set_exception : ℕ → Bool → Cmd (Unit {0})
unfolding store_exception_control new_exception_control mark_failure
try_set_exception t false = mark_failure t dependency_cancelled >>= λ _. pure tt
try_set_exception t true = do
  c ← new_exception_control
  stored ← store_exception_control t c
  mark_failure t (if stored then exception else dependency_cancelled) >>= λ _. pure tt

unfoldable pub set_exception : ℕ → Bool → Cmd (Unit {0})
unfolding try_set_exception
set_exception t eptr = try_set_exception t eptr

unfoldable pub cancel : ℕ → Cmd (Unit {0})
unfolding mark_failure
cancel t = mark_failure t user_cancelled >>= λ _. pure tt

-- The signal that carries the exception of a source to the task `t`.
unfoldable pub share_exception : ℕ → Option ℕ → Cmd FailureBit
unfolding store_exception_control retain_exception_control
share_exception t none = pure dependency_cancelled
share_exception t (some c) = do
  control ← retain_exception_control c
  stored ← store_exception_control t control
  pure exception

-- The failure that a consumer takes over from the failure bits of its source, if there is one.
unfoldable pub publish_failure_from : ℕ → Option ℕ → ℕ → Cmd (Unit {0})
unfolding mark_failure share_exception local_exception_control_handle load
publish_failure_from t none port = mark_failure t user_cancelled >>= λ _. pure tt
publish_failure_from t (some source) port =
    if not (port == 0) then (mark_failure t dependency_cancelled >>= λ _. pure tt) else do
      n ← load source
      if has_bit exception n.start_count
          then (do
            b ← share_exception t (local_exception_control_handle n)
            mark_failure t b >>= λ _. pure tt)
          else if has_bit user_cancelled n.start_count
          then (mark_failure t user_cancelled >>= λ _. pure tt)
          else if has_bit dependency_cancelled n.start_count
          then (mark_failure t dependency_cancelled >>= λ _. pure tt)
          else pure tt

-- What `throw_failure_for_port` throws.
pub data Thrown : Type 0 where
  cancelled_by_exception cancelled_by_user : Thrown
  rethrown : (control : ℕ) → Thrown

unfoldable pub throw_failure_for_port : TaskNode → ℕ → Thrown
unfolding local_exception_control_handle
throw_failure_for_port n port =
    if ltb 0 port
    then cancelled_by_exception
    else if has_bit exception n.start_count
    then elim (local_exception_control_handle n) [
      | some c ↦ rethrown c
      | none ↦ cancelled_by_exception
    ]
    else if has_bit user_cancelled n.start_count
    then cancelled_by_user
    else cancelled_by_exception

-- `wait_status`, or the exception that leaves `failure_wait_status`.
pub data WaitStatus : Type 0 where
  ready status_user_cancelled status_dependency_cancelled : WaitStatus
  throws : Thrown → WaitStatus

unfoldable pub failure_wait_status : Bool → Option TaskNode → ℕ → WaitStatus
unfolding has_failure throw_failure_for_port local_exception_control_handle
failure_wait_status throw_on_cancellation none port = ready
failure_wait_status true (some n) port =
    if not (has_failure n) then ready else throws (throw_failure_for_port n port)
failure_wait_status false (some n) port =
    if not (has_failure n)
    then ready
    else if ltb 0 port
    then status_dependency_cancelled
    else if has_bit exception n.start_count
    then elim (local_exception_control_handle n) [
      | some c ↦ throws (rethrown c)
      | none ↦ status_dependency_cancelled
    ]
    else if has_bit user_cancelled n.start_count
    then status_user_cancelled
    else status_dependency_cancelled

-- ===== src/Runtime/Store/Execute.antt =====
-- `oox::run` of oox/oox.h, from the arguments to the published task, and the execution of a task.
pub mod Lifecycle
pub mod Ordering
pub mod Voiding
pub mod Pair
pub mod Cancelling
pub mod Steps
pub mod Late
pub mod Apart
pub mod Readers
pub mod Giving
pub mod Skipping
pub mod Failing
pub mod Reading
pub mod Between
pub mod Deferred
pub mod Forwarding
pub mod Trio
pub mod Cleanup
use oox_kirkon_fork.Base.{
  ℕ, ◌+◌, ◌-◌, ◌==◌, Bool, true, false, not, Option, none, some, List, [], ◌∷◌, if◌then◌else◌,
  replicate,
}
use oox_kirkon_fork.Runtime.Node.{
  TaskNode, Var, ArcKind, flow_only, back_only, flow_back, Arc, edge, exception_signal, Head, live,
  task_done, terminal_exception, deferred_redirect, NextWriter, unknown, OutputNode,
}
use oox_kirkon_fork.Runtime.Life.{life_add_count}
use oox_kirkon_fork.Runtime.Output
use oox_kirkon_fork.Runtime.Start.{start_count_mask, has_failure, has_start_failure}
use oox_kirkon_fork.Runtime.Store.{
  Store, assertion, dangling, terminated, ok, Cmd, pure, fail, ◌>>=◌, ◌>>◌, expect, assert, load,
  store, load_var, store_var, out, set_out, add_arc,
}
use oox_kirkon_fork.Runtime.Store.Failure.{publish_failure_from, set_exception}
use oox_kirkon_fork.Runtime.Store.Notify.{
  release, remove_prerequisite, release_with, notify_successors_with,
}
use oox_kirkon_fork.Runtime.Store.Vars.{allocate_new, bind_to, var_set_next_writer}

-- The end of `assign_prerequisite`: the task `n` has its value already, so `t` only keeps it.
unfoldable pub keep_done_prerequisite : ℕ → ℕ → ℕ → Cmd ℕ
unfolding add_arc publish_failure_from has_failure Output.retain load store out
keep_done_prerequisite t n port = do
  node ← load n
  (if has_failure node then publish_failure_from t (some n) port else pure tt)
  node' ← load n
  o ← out node' port
  o' ← expect assertion (Output.retain o)
  store n (set_out node' port o')
  added ← add_arc t (edge back_only n port)
  assert added
  pure 0

-- The redirection that a consumer of a deferred placeholder finds, if its arc is refused.
abbrev pub redirection : Head → Option (ℕ × ℕ)
redirection (deferred_redirect d p) = some (d, p)
redirection _ = none

unfoldable pub assign_prerequisite : ℕ → ℕ → ℕ → Cmd ℕ
unfolding keep_done_prerequisite add_arc load
assign_prerequisite t n req_port = do
  added ← add_arc n (edge flow_back t req_port)
  if added then pure 1 else do
    node ← load n
    elim (redirection node.head) [
      | none ↦ keep_done_prerequisite t n req_port
      | some (d, p) ↦ do
        again ← add_arc d (edge flow_back t p)
        if again then pure 1 else keep_done_prerequisite t d p
    ]

-- An argument of `oox::run`: a plain value, or a variable that the functor writes or only reads.
-- `spare` is the address for a storage task, should the variable be empty.
pub data Argument : Type 0 where
  plain : Argument
  writes : (var spare : ℕ) → Argument
  reads : (var spare : ℕ) → Argument

-- `write_nodes_count`
unfoldable pub write_nodes_count : List Argument → ℕ
write_nodes_count [] = 1
write_nodes_count (plain ∷ args) = write_nodes_count args
write_nodes_count (writes v a ∷ args) = write_nodes_count args + 1
write_nodes_count (reads v a ∷ args) = write_nodes_count args

-- A variable with no task gets a storage task with a default value.
unfoldable pub allocate_if_empty : ℕ → ℕ → Cmd (Unit {0})
unfolding allocate_new load_var
allocate_if_empty v spare = do
  x ← load_var v
  elim x.current_task [ none ↦ allocate_new v spare | some t ↦ pure tt ]

-- `setup`, argument by argument: the number of prerequisites of the task `self`.
unfoldable pub setup : ℕ → ℕ → ℕ → List Argument → Cmd ℕ
unfolding allocate_if_empty assign_prerequisite var_set_next_writer load_var
setup f port self [] = pure 0
setup f port self (plain ∷ args) = setup f port self args
setup f port self (writes v spare ∷ args) = do
  allocate_if_empty v spare
  var_set_next_writer f v port self
  rest ← setup f (port + 1) self args
  pure (1 + rest)
setup f port self (reads v spare ∷ args) = do
  allocate_if_empty v spare
  x ← load_var v
  n ← expect dangling x.current_task
  count ← assign_prerequisite self n x.current_port
  rest ← setup f port self args
  pure (count + rest)

-- What the functor returns, for `gen_oox`: a value, nothing, or a variable.
pub data Returns : Type 0 where
  value nothing variable : Returns

-- `OOX_TASK_EXECUTE_LIFETIME_REF + slots`, and one more where the variable owns its storage.
unfoldable pub lifetime_of : Returns → ℕ → ℕ
lifetime_of value slots = 1 + slots + 1
lifetime_of nothing slots = 1 + slots
lifetime_of variable slots = 1 + slots + 1

abbrev pub is_nothing : Returns → Bool
is_nothing nothing = true
is_nothing _ = false

abbrev pub is_variable : Returns → Bool
is_variable variable = true
is_variable _ = false

-- A new `functional_task` with its start count protected.
abbrev pub new_task : ℕ → TaskNode
new_task slots = record {
  life_count = 0;
  head = live [];
  start_count = start_count_mask;
  output_nodes = replicate slots (record { next_writer = unknown; countdown = 1 });
  forwarded = none;
}

-- `oox::run` for a task at the address `t`, with its result in the variable `r`.
unfoldable pub run : ℕ → ℕ → ℕ → Returns → List Argument → Cmd (Unit {0})
unfolding setup write_nodes_count lifetime_of bind_to remove_prerequisite store
run f t r kind args = do
  store t (new_task (write_nodes_count args))
  count ← setup f 1 t args
  bind_to r t (not (is_nothing kind)) (lifetime_of kind (write_nodes_count args)) (is_variable kind)
      false
  remove_prerequisite f t (start_count_mask - count)

unfoldable pub notify_successors : ℕ → Bool → ℕ → Cmd (Unit {0})
unfolding notify_successors_with release remove_prerequisite
notify_successors f can_throw t =
    notify_successors_with (release f) (remove_prerequisite f) can_throw t

-- What the functor does when it is called.
pub data Outcome : Type 0 where
  returns throws : Outcome
  returns_variable : (v : ℕ) → Outcome

-- `execute` of a task whose functor returns a value or nothing. Its guard gives back the reference
-- of the execution on every path. The functor of a task that cannot throw is `noexcept`.
unfoldable pub execute_body : ℕ → Bool → ℕ → Outcome → Cmd (Unit {0})
unfolding notify_successors set_exception has_start_failure load
execute_body f false t outcome = elim outcome [
  | returns ↦ notify_successors f false t
  | returns_variable v ↦ notify_successors f false t
  | throws ↦ fail terminated
]
execute_body f true t outcome = do
  n ← load t
  if has_start_failure n then notify_successors f true t else elim outcome [
    | returns ↦ notify_successors f false t
    | returns_variable v ↦ notify_successors f false t
    | throws ↦ do set_exception t true; notify_successors f true t
  ]

unfoldable pub execute : ℕ → Bool → ℕ → Outcome → Cmd (Unit {0})
unfolding execute_body release
execute f can_throw t outcome = do execute_body f can_throw t outcome; release f t 1

-- `try_forward_result`, once the functor has returned the variable `v`.
unfoldable pub try_forward_result : ℕ → ℕ → ℕ → Cmd Bool
unfolding add_arc release life_add_count load store load_var
try_forward_result f t v = do
  n ← load t
  store t
      (record n { forwarded = some v; start_count = 1; life_count = life_add_count n.life_count 1 })
  x ← load_var v
  u ← expect dangling x.current_task
  added ← add_arc u (edge flow_only t 0)
  if added then pure true else do release f t 1; pure false

-- The second part of `execute` of a forwarding task that has not suspended itself: a failure of the
-- task that the variable `v` refers to is taken over.
unfoldable pub finish_forwarding : ℕ → ℕ → ℕ → Cmd (Unit {0})
unfolding notify_successors publish_failure_from has_failure load load_var
finish_forwarding f t v = do
  x ← load_var v
  u ← expect dangling x.current_task
  n ← load u
  if has_failure n
      then (do publish_failure_from t (some u) 0; notify_successors f true t)
      else notify_successors f false t

-- The same for a task that cannot throw.
unfoldable pub forward_quietly : ℕ → ℕ → ℕ → Cmd (Unit {0})
unfolding notify_successors try_forward_result
forward_quietly f t v = do
  suspended ← try_forward_result f t v
  if suspended then pure tt else notify_successors f false t

-- `execute` of a task whose functor returns a variable. A task with a result runs for the second time.
unfoldable pub execute_forwarding_body : ℕ → Bool → ℕ → Outcome → Cmd (Unit {0})
unfolding notify_successors try_forward_result finish_forwarding forward_quietly set_exception
    has_start_failure load
execute_forwarding_body f false t outcome = do
  n ← load t
  elim n.forwarded [
    | some v ↦ notify_successors f false t
    | none ↦ elim outcome [
      | throws ↦ fail terminated
      | returns ↦ notify_successors f false t
      | returns_variable v ↦ forward_quietly f t v
    ]
  ]
execute_forwarding_body f true t outcome = do
  n ← load t
  if has_start_failure n then notify_successors f true t else elim n.forwarded [
    | some v ↦ notify_successors f false t
    | none ↦ elim outcome [
      | throws ↦ do set_exception t true; notify_successors f true t
      | returns ↦ notify_successors f false t
      | returns_variable v ↦ do
        suspended ← try_forward_result f t v
        if suspended then pure tt else finish_forwarding f t v
    ]
  ]

unfoldable pub execute_forwarding : ℕ → Bool → ℕ → Outcome → Cmd (Unit {0})
unfolding execute_forwarding_body release
execute_forwarding f can_throw t outcome = do
  execute_forwarding_body f can_throw t outcome
  release f t 1

-- ===== src/Runtime/Store/Vars.antt =====
-- `oox_var_base` and `var<T>` of oox/oox.h: variables that refer to the tasks that write them.
use oox_kirkon_fork.Base.{
  ℕ, leb, Bool, true, false, Option, none, some, List, [], ◌∷◌, if◌then◌else◌,
}
use oox_kirkon_fork.Runtime.Node.{
  Var, Arc, edge, exception_signal, Head, live, task_done, deferred_redirect, ready, writer,
  head_is_done,
}
use oox_kirkon_fork.Runtime.ArcList
use oox_kirkon_fork.Runtime.Life.{life_set_count}
use oox_kirkon_fork.Runtime.Store.{
  assertion, dangling, blocked, Cmd, pure, fail, ◌>>=◌, ◌>>◌, expect, assert, load, store, load_var,
  store_var, add_arc,
}
use oox_kirkon_fork.Runtime.Store.Failure.{cancel, failure_wait_status, WaitStatus}
use oox_kirkon_fork.Runtime.Store.Notify.{
  release, remove_prerequisite, set_next_writer_with, var_release_with,
}

-- `(1 << k_port_bits) - 1`
abbrev pub k_max_port : ℕ
k_max_port = 16383

abbrev pub empty_var : Var
empty_var = record {
  current_task = none;
  owner = none;
  current_port = 0;
  is_forwarded = false;
  is_deferred = false;
}

-- The fuel `f` is that of the calls of `release` and `remove_prerequisite`.
unfoldable pub var_release : ℕ → ℕ → Cmd (Unit {0})
unfolding var_release_with release remove_prerequisite
var_release f v = var_release_with (release f) (remove_prerequisite f) v

-- `bind_to`. `has_offset` says whether the storage lies behind the start of the task.
unfoldable pub bind_to : ℕ → ℕ → Bool → ℕ → Bool → Bool → Cmd (Unit {0})
unfolding load store store_var life_set_count
bind_to v t has_offset lifetime fwd deferred = do
  store_var v (record {
    current_task = some t;
    owner = if has_offset then some t else none;
    current_port = 0;
    is_forwarded = fwd;
    is_deferred = deferred;
  })
  n ← load t
  store t (record n { life_count = life_set_count n.life_count lifetime })

unfoldable pub set_current_port : Var → ℕ → Cmd Var
set_current_port x port = do assert (leb port k_max_port); pure (record x { current_port = port })

-- A new `storage_task<1, T>`, bound to the variable `v`, with the given head.
unfoldable pub allocate_storage : ℕ → ℕ → Head → Bool → Cmd (Unit {0})
unfolding bind_to store
allocate_storage v t head deferred = do
  store t (record {
    life_count = 0;
    head = head;
    start_count = 0;
    output_nodes = record { next_writer = ready; countdown = 1 } ∷ [];
    forwarded = none;
  })
  bind_to v t true 2 false deferred

unfoldable pub allocate_new : ℕ → ℕ → Cmd (Unit {0})
unfolding allocate_storage
allocate_new v t = allocate_storage v t task_done false

unfoldable pub allocate_deferred : ℕ → ℕ → Cmd (Unit {0})
unfolding allocate_storage
allocate_deferred v t = allocate_storage v t (live []) true

-- An arc with another port.
abbrev pub with_port : ℕ → Arc → Arc
with_port port (edge k n p) = edge k n port
with_port port (exception_signal c) = exception_signal c

-- The loop that hands the arcs of a deferred placeholder to the first writer `d`.
unfoldable pub forward_arcs : ℕ → ℕ → List Arc → Cmd (Unit {0})
unfolding add_arc
forward_arcs d port [] = pure tt
forward_arcs d port (j ∷ r) = do
  added ← add_arc d (with_port port j)
  assert added
  forward_arcs d port r

abbrev pub arcs_or_none : Option (List Arc) → List Arc
arcs_or_none none = []
arcs_or_none (some arcs) = arcs

-- The part of `oox_var_base::set_next_writer` for a deferred variable.
unfoldable pub redirect_deferred : Var → ℕ → ℕ → ℕ → Cmd (Unit {0})
unfolding forward_arcs load store ArcList.live_arcs
redirect_deferred x t port d =
    if x.is_deferred
    then (do
      n ← load t
      store t (record n { head = deferred_redirect d port })
      forward_arcs d port (arcs_or_none (ArcList.live_arcs n.head)))
    else pure tt

-- `oox_var_base::set_next_writer`
unfoldable pub var_set_next_writer : ℕ → ℕ → ℕ → ℕ → Cmd (Unit {0})
unfolding redirect_deferred set_current_port set_next_writer_with release remove_prerequisite
    load_var store_var
var_set_next_writer f v port d = do
  x ← load_var v
  t ← expect assertion x.current_task
  redirect_deferred x t port d
  set_next_writer_with (release f) (remove_prerequisite f) t x.current_port (writer d)
  x' ← set_current_port (record x { current_task = some d; is_deferred = false }) port
  store_var v x'

unfoldable pub cancel_current_task : ℕ → Cmd (Unit {0})
unfolding cancel load_var
cancel_current_task v = do
  x ← load_var v
  elim x.current_task [ none ↦ pure tt | some t ↦ if x.is_deferred then pure tt else cancel t ]

-- `wait`: whether the task is done, so that the caller need not block.
unfoldable pub wait_is_over : ℕ → Cmd Bool
unfolding load load_var
wait_is_over v = do
  x ← load_var v
  t ← expect assertion x.current_task
  n ← load t
  pure (head_is_done n.head)

-- `wait`, by a thread beside which no other runs: for a task that is not done, it does not return.
unfoldable pub wait : ℕ → Cmd (Unit {0})
unfolding wait_is_over
wait v = do over ← wait_is_over v; if over then pure tt else fail blocked

unfoldable pub wait_for_all_status : Bool → ℕ → Cmd WaitStatus
unfolding wait failure_wait_status load load_var
wait_for_all_status throw_on_cancellation v = do
  wait v
  x ← load_var v
  t ← expect assertion x.current_task
  n ← load t
  pure (failure_wait_status throw_on_cancellation (some n) x.current_port)

-- The move of a variable into another one that is new: the source is left empty.
unfoldable pub move_var : ℕ → ℕ → Cmd (Unit {0})
unfolding load_var store_var
move_var to from = do
  x ← load_var from
  store_var to x
  store_var from (record x { current_task = none })

-- The move assignment: what the target held before is released.
unfoldable pub move_assign_var : ℕ → ℕ → ℕ → Cmd (Unit {0})
unfolding var_release load_var store_var
move_assign_var f to from = do
  var_release f to
  x ← load_var from
  store_var to x
  t ← expect assertion x.current_task
  x' ← load_var from
  store_var from (record x' { current_task = none })

-- The conversion of a variable into a `var<void>` that is new: the copy, and the release of the
-- storage of the source.
unfoldable pub void_var : ℕ → ℕ → ℕ → Cmd (Unit {0})
unfolding release load_var store_var
void_var f to from = do
  x ← load_var from
  store_var to x
  u ← expect dangling x.owner
  release f u 1
  x' ← load_var from
  store_var from (record x' { current_task = none })

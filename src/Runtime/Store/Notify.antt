-- ===== src/Runtime/Store/Notify.antt =====
-- The completion of a task in oox/oox.h: notification of its successors, next writers and waiters,
-- and the release of what is no longer used. The functions call one another in a circle, through
-- the deletion of a task and through a task that is skipped, so they run on fuel: a unit for each
-- round of `release` or `remove_prerequisite`.
use oox_kirkon_fork.Base.{
  ℕ, zero, suc, ◌+◌, ◌-◌, ◌==◌, Bool, true, false, not, none, some, List, [], ◌∷◌, if◌then◌else◌,
  map, length, replicate, get_elem?, set,
}
use oox_kirkon_fork.Runtime.Node.{
  TaskNode, flow_only, back_only, flow_back, flow_copy, forward_copy, Arc, edge, exception_signal,
  Head, live, task_done, terminal_exception, deferred_redirect, NextWriter, no_owner, owner,
  writer_is_ready, writer_is_no_owner,
}
use oox_kirkon_fork.Runtime.ArcList
use oox_kirkon_fork.Runtime.Life.{life_release}
use oox_kirkon_fork.Runtime.Output
use oox_kirkon_fork.Runtime.Start
use oox_kirkon_fork.Runtime.Start.{exception, has_bit, producer_failed}
use oox_kirkon_fork.Runtime.Store.{
  assertion, dangling, out_of_fuel, ok, Cmd, pure, fail, ◌>>=◌, ◌>>◌, expect, assert, load, store,
  load_var, store_var, out, set_out, add_arc, retain_exception_control, release_exception_control,
  spawn, wakeup,
}
use oox_kirkon_fork.Runtime.Store.Failure.{local_exception_control_handle, publish_failure_from}

-- The destructor of `arc_list`.
unfoldable pub drop_head : Head → Cmd (Unit {0})
unfolding release_exception_control
drop_head (live []) = pure tt
drop_head (live (a ∷ arcs)) = fail assertion
drop_head task_done = pure tt
drop_head (terminal_exception c) = release_exception_control c
drop_head (deferred_redirect n p) = pure tt

-- `delete` of the memory itself.
unfoldable pub free : ℕ → Cmd (Unit {0})
free t s = ok tt (record s { task = λ u. if t == u then none else s.task u })

-- The array `count`, less one at `port`.
unfoldable pub uncount : List ℕ → ℕ → List ℕ
uncount count port = elim (get_elem? count port) [ none ↦ count | some c ↦ set count port (c - 1) ]

-- The terminal value of `head` that `notify_successors` installs.
unfoldable pub terminal_head : Bool → TaskNode → Cmd Head
unfolding local_exception_control_handle retain_exception_control
terminal_head false n = pure task_done
terminal_head true n =
    if has_bit exception n.start_count
    then elim (local_exception_control_handle n) [
      | none ↦ pure task_done
      | some c ↦ do control ← retain_exception_control c; pure (terminal_exception control)
    ]
    else pure task_done

-- The calls that close the circle: `release` and `remove_prerequisite` of a task.
module _ (release' remove_prerequisite' : ℕ → ℕ → Cmd (Unit {0})) where
  unfoldable pub notify_next_writer_with : ℕ → NextWriter → Cmd ℕ
  unfolding Output.notify_next_writer
  notify_next_writer_with t d = do
    (k, effect) ← expect dangling (Output.notify_next_writer t d)
    elim effect [
      | Output.nothing ↦ pure k
      | Output.release u ↦ do release' u 1; pure k
      | Output.remove_prerequisite u ↦ do remove_prerequisite' u 1; pure k
    ]

  unfoldable pub remove_back_arc_with : ℕ → ℕ → ℕ → Cmd ℕ
  unfolding notify_next_writer_with Output.remove_back_arc load store out
  remove_back_arc_with t port n = do
    node ← load t
    o ← out node port
    (o', last) ← expect assertion (Output.remove_back_arc o n)
    store t (set_out node port o')
    elim last [ none ↦ pure 0 | some d ↦ notify_next_writer_with t d ]

  -- Gives back the references that a call has counted, if there are any.
  unfoldable pub release_counted : ℕ → ℕ → Cmd (Unit {0})
  release_counted t k = if k == 0 then pure tt else release' t k

  unfoldable pub set_next_writer_with : ℕ → ℕ → NextWriter → Cmd (Unit {0})
  unfolding remove_back_arc_with release_counted Output.displaced Output.exchange_writer load store
      out
  set_next_writer_with t port d = do
    assert (not (writer_is_ready d))
    node ← load t
    o ← out node port
    let (old, o') = Output.exchange_writer o d
    store t (set_out node port o')
    was_ready ← expect assertion (Output.displaced old d)
    if was_ready then (remove_back_arc_with t port 1 >>= release_counted t) else pure tt

  -- `oox_var_base::release`
  unfoldable pub var_release_with : ℕ → Cmd (Unit {0})
  unfolding set_next_writer_with load_var store_var
  var_release_with v = do
    x ← load_var v
    elim x.current_task [
      | none ↦ pure tt
      | some t ↦ do
        set_next_writer_with t x.current_port (elim x.owner [ none ↦ no_owner | some u ↦ owner u ])
        store_var v (record x { current_task = none })
    ]

  -- `delete this`: the destructors of the result, then of the arc list.
  unfoldable pub delete_with : ℕ → Cmd (Unit {0})
  unfolding var_release_with drop_head free load
  delete_with t = do
    n ← load t
    elim n.forwarded [ none ↦ pure tt | some v ↦ var_release_with v ]
    n' ← load t
    drop_head n'.head
    free t

  unfoldable pub release_with : ℕ → ℕ → Cmd (Unit {0})
  unfolding delete_with life_release load store
  release_with t n = do
    node ← load t
    (life, last) ← expect assertion (life_release node.life_count n)
    store t (record node { life_count = life })
    if last then delete_with t else pure tt

  -- An arc that leads to the task `n`, which is told that its prerequisite `t` is ready.
  unfoldable pub notify_consumer : ℕ → Bool → ℕ → ℕ → Cmd (Unit {0})
  unfolding publish_failure_from
  notify_consumer t failed n port = do
    (if failed then publish_failure_from n (some t) port else pure tt)
    remove_prerequisite' n 1

  -- The body of the loop of `do_notify_arcs`.
  unfoldable pub do_notify_arc : Bool → ℕ → Bool → Arc → List ℕ → Cmd (List ℕ)
  unfolding remove_back_arc_with release_counted notify_consumer uncount add_arc load out
      release_exception_control
  do_notify_arc can_throw t failed (exception_signal c) count =
      if can_throw then (do release_exception_control c; pure count) else fail dangling
  do_notify_arc can_throw t failed (edge back_only n port) count = do
    k ← remove_back_arc_with n port 1
    release_counted n k
    pure count
  do_notify_arc can_throw t failed (edge flow_back n port) count = do
    node ← load t
    o ← out node port
    let final = writer_is_no_owner o.next_writer
    added ← (if final then pure true else add_arc n (edge back_only t port))
    assert added
    notify_consumer t failed n port
    pure (if final then count else uncount count port)
  do_notify_arc can_throw t failed (edge flow_only n port) count = do
    notify_consumer t failed n port
    pure count
  do_notify_arc can_throw t failed (edge flow_copy n port) count = fail assertion
  do_notify_arc can_throw t failed (edge forward_copy n port) count = fail assertion

  unfoldable pub do_notify_arcs : Bool → ℕ → Bool → List Arc → List ℕ → Cmd (List ℕ)
  unfolding do_notify_arc
  do_notify_arcs can_throw t failed [] count = pure count
  do_notify_arcs can_throw t failed (j ∷ r) count =
      do_notify_arc can_throw t failed j count >>= do_notify_arcs can_throw t failed r

  unfoldable pub do_notify_out : ℕ → ℕ → ℕ → Cmd ℕ
  unfolding remove_back_arc_with Output.mark_ready load store out
  do_notify_out t port count = do
    node ← load t
    o ← out node port
    let (o', marked) = Output.mark_ready o
    store t (set_out node port o')
    remove_back_arc_with t port (if marked then count - 1 else count)

  -- `do_notify_out` for the slots from `port` on, with the sum of its results.
  unfoldable pub do_notify_outs : ℕ → ℕ → List ℕ → Cmd ℕ
  unfolding do_notify_out
  do_notify_outs t port [] = pure 0
  do_notify_outs t port (c ∷ count) = do
    k ← do_notify_out t port c
    refs ← do_notify_outs t (suc port) count
    pure (k + refs)

  -- `notify_successors (output_slots, count)`
  unfoldable pub notify_slots : Bool → ℕ → Cmd ℕ
  unfolding do_notify_arcs do_notify_outs terminal_head producer_failed Output.start_countdown
      ArcList.live_arcs load store
  notify_slots can_throw t = do
    n ← load t
    store t (record n { output_nodes = map Output.start_countdown n.output_nodes })
    let count = replicate (length n.output_nodes) Output.max_count
    h ← terminal_head can_throw n
    n' ← load t
    store t (record n' { head = h })
    r ← expect dangling (ArcList.live_arcs n'.head)
    let failed = if can_throw then producer_failed n' else false
    count' ← do_notify_arcs can_throw t failed r count
    do_notify_outs t 0 count'

  -- `notify_successors<slots, CanThrow>`
  unfoldable pub notify_successors_with : Bool → ℕ → Cmd (Unit {0})
  unfolding notify_slots release_with wakeup
  notify_successors_with can_throw t = do n ← notify_slots can_throw t; wakeup t; release_with t n

  unfoldable pub remove_prerequisite_with : ℕ → ℕ → Cmd (Unit {0})
  unfolding notify_successors_with release_with Start.remove_prerequisite load store spawn
  remove_prerequisite_with t n = do
    node ← load t
    (node', dispatch) ← expect assertion (Start.remove_prerequisite node n)
    store t node'
    elim dispatch [
      | Start.waiting ↦ pure tt
      | Start.spawn ↦ spawn t
      | Start.skip ↦ do notify_successors_with true t; release_with t 1
    ]

unfoldable mutual
  unfolding release_with remove_prerequisite_with

  pub release : ℕ → ℕ → ℕ → Cmd (Unit {0})
  release zero t n = fail out_of_fuel
  release (suc f) t n = release_with (release f) (remove_prerequisite f) t n

  pub remove_prerequisite : ℕ → ℕ → ℕ → Cmd (Unit {0})
  remove_prerequisite zero t n = fail out_of_fuel
  remove_prerequisite (suc f) t n = remove_prerequisite_with (release f) (remove_prerequisite f) t n

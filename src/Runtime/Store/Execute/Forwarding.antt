-- ===== src/Runtime/Store/Execute/Forwarding.antt =====
-- A task of oox/oox.h whose functor makes another task and returns its result.
use oox_kirkon_fork.Base.{ℕ, Bool, suc, ◌≡◌, ◌==◌, some, true, false, [], ◌∷◌, arith}
use oox_kirkon_fork.Runtime.Node.{live, task_done, edge, flow_only, unknown, ready}
use oox_kirkon_fork.Runtime.Store.{Store, Result, ok, fault, blocked, Cmd, ◌>>◌}
use oox_kirkon_fork.Runtime.Store.Failure.{rethrown}
use oox_kirkon_fork.Runtime.Store.Values.{Got, value_of, thrown, wait_and_get}
use oox_kirkon_fork.Runtime.Store.Execute.{
  value, variable, run, Outcome, returns, throws, returns_variable, execute, execute_forwarding,
}
use oox_kirkon_fork.Runtime.Store.Execute.Lifecycle.{Ends, Leaves}
use oox_kirkon_fork.Runtime.Store.Execute.Steps.{Ends-bind, Ends-Leaves, Ends-map, slot, node}

-- The task `g`, with its result in `o`, is executed; its functor makes the task `t` and returns the
-- result `v` of that. Both have the same policy.
pub suspend : ℕ → Bool → ℕ → ℕ → ℕ → ℕ → Cmd (Unit {0})
unfolding run execute_forwarding
suspend f can_throw g o t v = do
  run f g o variable []
  run f t v value []
  execute_forwarding f can_throw g (returns_variable v)

-- The same, and the task `t` is executed.
pub resume : ℕ → Bool → ℕ → ℕ → ℕ → ℕ → Outcome → Cmd (Unit {0})
unfolding suspend execute
resume f can_throw g o t v outcome = do suspend f can_throw g o t v; execute f can_throw t outcome

-- The same, and `g` is executed again. Its functor is not called.
pub finish : ℕ → Bool → ℕ → ℕ → ℕ → ℕ → Outcome → Cmd Got
unfolding resume execute_forwarding wait_and_get
finish f can_throw g o t v outcome = do
  resume f can_throw g o t v returns
  execute_forwarding f can_throw g outcome
  wait_and_get can_throw 2 o

-- The task `t` throws, and the result of `g` is asked for.
pub fail_inside : ℕ → ℕ → ℕ → ℕ → ℕ → Cmd Got
unfolding suspend execute wait_and_get
fail_inside f g o t v = do suspend f true g o t v; execute f true t throws; wait_and_get true 2 o

-- The result is asked for after other commands.
pub ask : Cmd (Unit {0}) → Bool → ℕ → Cmd Got
unfolding wait_and_get
ask m can_throw o = do m; wait_and_get can_throw 2 o

module _ (f g o t v : ℕ) (gt : (g == t) ≡ false) (ov : (o == v) ≡ false) (z : Store) where
  abbrev Vars : Store → Type 0
  Vars s =
      ((s.var o).current_task ≡ some g)
      × ((s.var o).owner ≡ some g)
      × ((s.var o).current_port ≡ 0)
      × ((s.var o).is_forwarded ≡ true)
      × ((s.var v).current_task ≡ some t)
      × ((s.var v).owner ≡ some t)
      × ((s.var v).current_port ≡ 0)
      × ((s.var v).is_forwarded ≡ false)

  abbrev Suspended : Store → Type 0
  Suspended s =
      (s.task g
        ≡ some (record {
          life_count = 3;
          head = live [];
          start_count = 1;
          output_nodes = slot unknown 1 ∷ [];
          forwarded = some v;
        }))
      × (s.task t ≡ some (node 3 (live (edge flow_only g 0 ∷ [])) 0 (slot unknown 1 ∷ [])))
      × Vars s
      × (s.spawned ≡ t ∷ g ∷ z.spawned)
      × (s.woken ≡ z.woken)
      × (s.next_control ≡ z.next_control)

  abbrev Resumed : Store → Type 0
  Resumed s =
      (s.task g
        ≡ some (record {
          life_count = 3;
          head = live [];
          start_count = 0;
          output_nodes = slot unknown 1 ∷ [];
          forwarded = some v;
        }))
      × (s.task t ≡ some (node 2 task_done 0 (slot ready 1 ∷ [])))
      × Vars s
      × (s.spawned ≡ g ∷ t ∷ g ∷ z.spawned)
      × (s.woken ≡ t ∷ z.woken)

  suspended : (k : Bool) → Ends (suspend (suc (suc f)) k g o t v z) Suspended
  unfolding suspend
  suspended true = ground arith
  suspended false = ground arith

  resumed :
      (s : Store) (k : Bool) → Suspended s → Ends (execute (suc (suc f)) k t returns s) Resumed
  unfolding execute
  resumed s true h = ground arith
  resumed s false h = ground arith

  never_again :
      (s : Store)
      → Suspended s
      → Ends (execute (suc (suc f)) true t throws s) (λ s'. s'.spawned ≡ t ∷ g ∷ z.spawned)
  unfolding execute
  never_again s h = ground arith

  finished :
      (s : Store) (k : Bool) (outcome : Outcome)
      → Resumed s
      → Leaves
          ((execute_forwarding (suc (suc f)) k g outcome >> wait_and_get k 2 o) s)
          (value_of t)
          (λ s'. s'.woken ≡ g ∷ t ∷ z.woken)
  unfolding execute_forwarding wait_and_get
  finished s true outcome h = ground arith
  finished s false outcome h = ground arith

  never_done : (s : Store) (k : Bool) → Suspended s → wait_and_get k 2 o s ≡ fault blocked
  unfolding wait_and_get
  never_done s true h = ground arith
  never_done s false h = ground arith

  still_blocked : (s : Store) (k : Bool) → Resumed s → wait_and_get k 2 o s ≡ fault blocked
  unfolding wait_and_get
  still_blocked s true h = ground arith
  still_blocked s false h = ground arith

  failed :
      (s : Store)
      → Suspended s
      → Leaves
          ((execute (suc (suc f)) true t throws >> wait_and_get true 2 o) s)
          (thrown (rethrown z.next_control))
          (λ s'. s'.woken ≡ t ∷ g ∷ z.woken)
  unfolding execute wait_and_get
  failed s h = ground arith

  again : (k : Bool) → Ends (resume (suc (suc f)) k g o t v returns z) Resumed
  unfolding resume
  again k =
      Ends-bind Suspended Resumed (suspend (suc (suc f)) k g o t v)
        (execute (suc (suc f)) k t returns) z (suspended k) (λ s. resumed s k)

blocked_after :
    (P : Store → Type 0) (m : Cmd (Unit {0})) (k : Cmd Got) (s : Store)
    → Ends (m s) P
    → ((s' : Store) → P s' → k s' ≡ fault blocked)
    → (m >> k) s ≡ fault blocked
blocked_after P m k s e h = by_result (m s) e
  where
    by_result :
        (x : Result (Unit {0}))
        → Ends x P
        → (elim x as (λ y. Result Got) [ ok a s' ↦ k s' | fault c ↦ fault c ]) ≡ fault blocked
    by_result (ok a s') e' = h s' e'
    by_result (fault c) e' = absurd e'

-- Let a task be executed whose functor makes another task and returns the result of that, the tasks and
-- their results at different addresses. It is spawned for the second time when the other task has been
-- executed and returned; until its second execution, wait_and_get for its result blocks. That
-- execution, whatever the functor would do, wakes the threads that wait for it and makes wait_and_get
-- give the value of the other task, whether the two can throw or not. If the other task throws, it is
-- not spawned again, the threads that wait for it are woken, and wait_and_get, which blocks before,
-- throws the exception.
pub forwarding_order :
    (s : Store) (f g o t v : ℕ) (k : Bool) (outcome : Outcome)
    → (g == t) ≡ false
    → (o == v) ≡ false
    → Ends (suspend (suc (suc f)) k g o t v s) (λ s'. s'.spawned ≡ t ∷ g ∷ s.spawned)
      × Ends (resume (suc (suc f)) k g o t v returns s) (λ s'. s'.spawned ≡ g ∷ t ∷ g ∷ s.spawned)
      × (ask (resume (suc (suc f)) k g o t v returns) k o s ≡ fault blocked)
      × Leaves
          (finish (suc (suc f)) k g o t v outcome s)
          (value_of t)
          (λ s'. s'.woken ≡ g ∷ t ∷ s.woken)
      × Ends (resume (suc (suc f)) true g o t v throws s) (λ s'. s'.spawned ≡ t ∷ g ∷ s.spawned)
      × (ask (suspend (suc (suc f)) true g o t v) true o s ≡ fault blocked)
      × Leaves
          (fail_inside (suc (suc f)) g o t v s)
          (thrown (rethrown s.next_control))
          (λ s'. s'.woken ≡ t ∷ g ∷ s.woken)
unfolding resume finish fail_inside ask
forwarding_order s f g o t v k outcome gt ov =
    let all = suc (suc f) in
    let before = suspended f g o t v gt ov s in
    let after = again f g o t v gt ov s in
    let waits = Suspended f g o t v gt ov s in
    let runs = Resumed f g o t v gt ov s in
    let in_wait = suspend all true g o t v in
    let inner = execute all true t throws in
    (
      Ends-map waits (λ s'. s'.spawned ≡ t ∷ g ∷ s.spawned) (suspend all k g o t v s) (before k)
          (λ s' h. h.3),
      Ends-map runs (λ s'. s'.spawned ≡ g ∷ t ∷ g ∷ s.spawned) (resume all k g o t v returns s)
          (after k) (λ s' h. h.3),
      blocked_after runs (resume all k g o t v returns) (wait_and_get k 2 o) s (after k)
          (λ s' h. still_blocked f g o t v gt ov s s' k h),
      Ends-Leaves runs _ (resume all k g o t v returns)
          (execute_forwarding all k g outcome >> wait_and_get k 2 o) s (value_of t) (after k)
          (λ s' h. finished f g o t v gt ov s s' k outcome h),
      Ends-bind waits (λ s'. s'.spawned ≡ t ∷ g ∷ s.spawned) in_wait inner s (before true)
          (never_again f g o t v gt ov s),
      blocked_after waits in_wait (wait_and_get true 2 o) s (before true)
          (λ s' h. never_done f g o t v gt ov s s' true h),
      Ends-Leaves waits _ in_wait (inner >> wait_and_get true 2 o) s
          (thrown (rethrown s.next_control)) (before true) (failed f g o t v gt ov s),
    )

-- ===== src/Examples/Runs.antt =====
-- Small task graphs on oox/oox.h, run from `oox::run` to the deletion of the last task.
use oox_kirkon_fork.Base.{ℕ, ◌≡◌, refl, true, false, Option, none, some, List, [], ◌∷◌}
use oox_kirkon_fork.Runtime.Node.{TaskNode}
use oox_kirkon_fork.Runtime.Store.{Store, Result, ok, Cmd, pure, ◌>>=◌, ◌>>◌}
use oox_kirkon_fork.Runtime.Store.Failure.{WaitStatus, throws, rethrown}
use oox_kirkon_fork.Runtime.Store.Vars.{
  empty_var, var_release, allocate_deferred, wait_for_all_status,
}
use oox_kirkon_fork.Runtime.Store.Execute.{
  writes, reads, value, nothing, variable, run, returns, throws as functor_throws, returns_variable,
  execute, execute_forwarding,
}

abbrev memory : Store
memory = record {
  task = λ t. none;
  control = λ c. none;
  next_control = 0;
  var = λ v. empty_var;
  spawned = [];
  woken = [];
}

-- A producer and a consumer of its value.
chain : Cmd (Unit {0})
unfolding run execute var_release
chain = do
  run 9 10 0 value []
  run 9 11 1 value (reads 0 99 ∷ [])
  execute 9 true 10 returns
  execute 9 true 11 returns
  var_release 9 0
  var_release 9 1

-- The producer throws: the consumer is skipped, and the exception reaches its result.
failing : Cmd WaitStatus
unfolding run execute var_release wait_for_all_status
failing = do
  run 9 10 0 value []
  run 9 11 1 value (reads 0 99 ∷ [])
  execute 9 true 10 functor_throws
  w ← wait_for_all_status false 1
  var_release 9 0
  var_release 9 1
  pure w

-- A reader and then a writer of the same variable: the writer waits for the reader.
rewrite : Cmd (Unit {0})
unfolding run execute var_release
rewrite = do
  run 9 10 0 nothing (writes 2 12 ∷ [])
  run 9 11 1 nothing (reads 2 99 ∷ [])
  run 9 13 3 nothing (writes 2 99 ∷ [])
  execute 9 true 10 returns
  execute 9 true 11 returns
  execute 9 true 13 returns
  var_release 9 0
  var_release 9 1
  var_release 9 2
  var_release 9 3

-- A reader of a deferred variable is handed to its first writer.
deferred : Cmd (Unit {0})
unfolding run execute var_release allocate_deferred
deferred = do
  allocate_deferred 2 12
  run 9 11 1 nothing (reads 2 99 ∷ [])
  run 9 10 0 nothing (writes 2 99 ∷ [])
  execute 9 true 10 returns
  execute 9 true 11 returns
  var_release 9 0
  var_release 9 1
  var_release 9 2

-- A task that returns the variable of a child, which ends later.
forwarding : Cmd (Unit {0})
unfolding run execute execute_forwarding var_release
forwarding = do
  run 9 10 0 variable []
  run 9 11 1 value (reads 0 99 ∷ [])
  run 9 12 5 value []
  execute_forwarding 9 true 10 (returns_variable 5)
  execute 9 true 12 returns
  execute_forwarding 9 true 10 returns
  execute 9 true 11 returns
  var_release 9 0
  var_release 9 1

-- What is left: the tasks 10 to 13, the calls of `spawn` and `wakeup`.
abbrev left :
    {A : Type 0}
    → Result A
    → Option (
        Option TaskNode × Option TaskNode × Option TaskNode × Option TaskNode × List ℕ × List ℕ × A)
left (ok a s) = some (s.task 10, s.task 11, s.task 12, s.task 13, s.spawned, s.woken, a)
left _ = none

chain_ends : left (chain memory) ≡ some (none, none, none, none, 11 ∷ 10 ∷ [], 11 ∷ 10 ∷ [], tt)
unfolding chain
chain_ends = refl

failing_ends :
    left (failing memory)
    ≡ some (none, none, none, none, 10 ∷ [], 10 ∷ 11 ∷ [], throws (rethrown 0))
unfolding failing
failing_ends = refl

rewrite_ends :
    left (rewrite memory) ≡ some (none, none, none, none, 13 ∷ 11 ∷ 10 ∷ [], 13 ∷ 11 ∷ 10 ∷ [], tt)
unfolding rewrite
rewrite_ends = refl

deferred_ends :
    left (deferred memory) ≡ some (none, none, none, none, 11 ∷ 10 ∷ [], 11 ∷ 10 ∷ [], tt)
unfolding deferred
deferred_ends = refl

forwarding_ends :
    left (forwarding memory)
    ≡ some (none, none, none, none, 11 ∷ 10 ∷ 12 ∷ 10 ∷ [], 11 ∷ 10 ∷ 12 ∷ [], tt)
unfolding forwarding
forwarding_ends = refl

-- A task that is given a variable twice, in each order: it is not spawned.
twice_written_first : Cmd (Unit {0})
unfolding run
twice_written_first = run 9 10 0 nothing (writes 2 12 ∷ reads 2 99 ∷ [])

twice_read_first : Cmd (Unit {0})
unfolding run
twice_read_first = run 9 10 0 nothing (reads 2 12 ∷ writes 2 99 ∷ [])

abbrev spawned : {A : Type 0} → Result A → Option (List ℕ)
spawned (ok a s) = some s.spawned
spawned _ = none

twice_is_stuck :
    (spawned (twice_written_first memory) ≡ some []) × (spawned (twice_read_first memory) ≡ some [])
unfolding twice_written_first twice_read_first
twice_is_stuck = (refl, refl)

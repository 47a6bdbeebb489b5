-- ===== src/Examples/Backends.antt =====
-- The theorems on the backends of oox/oox.h at concrete schedules.
use oox_kirkon_fork.Base.{zero, suc, arith, ◌==◌, ℕ, ◌≡◌, ◌≢◌, refl, true, if◌then◌else◌, [], ◌∷◌}
use oox_kirkon_fork.Runtime.Backend.Condition.{
  System, start, Run, here, later, enter, take, sleep, take_to_set, set, notify_all, finished,
  sleeping, returned, no_lost_wakeup,
}
use oox_kirkon_fork.Runtime.Backend.Promise.{
  wait, wakeup, returns, blocks, throws, std_after, shared_after, std_wait, shared_wait,
  promise_calls, was_called, shared_call, std_call,
}
use oox_kirkon_fork.Runtime.Backend.Taskwait

-- The thread 4 waits and falls asleep, and the task completes.
asleep : (s : System) × Run start s
asleep = (
  _,
  later
      (later
        (later (later (later (later here (enter 4 refl)) (take 4 refl refl)) (sleep 4 refl refl))
          (take_to_set refl refl))
        (set refl))
      (notify_all refl),
)

no_lost_wakeup_example :
    ((k : ℕ) → asleep.0.waiter k ≡ returned → asleep.0.completed ≡ true)
    × (asleep.0.waker ≡ finished → (k : ℕ) → asleep.0.waiter k ≢ sleeping)
    × ((k : ℕ) → (t : System) × Run asleep.0 t × (t.waiter k ≡ returned))
no_lost_wakeup_example = no_lost_wakeup asleep.1

-- A second wait.
promise_calls_example :
    ((shared_call wait (shared_after (wait ∷ []))).0 ≢ throws)
    × ((shared_call wait (shared_after (wait ∷ []))).0
        ≡ (if was_called wakeup (wait ∷ []) then returns else blocks))
    × ((std_call wait (std_after (wait ∷ []))).0 ≡ (
        if was_called wait (wait ∷ [])
        then throws
        else (shared_call wait (shared_after (wait ∷ []))).0))
promise_calls_example = promise_calls (wait ∷ []) wait

second_wait :
    ((std_wait (std_after (wait ∷ []))).0 ≡ throws)
    × ((shared_wait (shared_after (wait ∷ []))).0 ≡ blocks)
unfolding std_after shared_after std_wait shared_wait
second_wait = (refl, refl)

-- The first of two tasks that form a chain is executed when both have been made.
two_made : (s : Taskwait.System) × Taskwait.Reach Taskwait.chain s
two_made = (
  _,
  Taskwait.later (Taskwait.later (Taskwait.later Taskwait.here Taskwait.make) Taskwait.make)
      (Taskwait.execute 0 Taskwait.maker refl refl),
)

two_made-Returns : Taskwait.Returns two_made.0
unfolding two_made
two_made-Returns zero e = refl
two_made-Returns (suc zero) e = cc
two_made-Returns (suc (suc t)) e = ground arith

only_first_waited_for_example :
    (two_made.0.completed 0 ≡ true)
    × ((s : Taskwait.System) × Taskwait.Reach Taskwait.chain s
        × (s.made ≡ 2)
        × Taskwait.Returns s
        × ((t : ℕ) → s.completed t ≡ (t == 0)))
unfolding two_made
only_first_waited_for_example = Taskwait.only_first_waited_for 0 two_made.1 refl two_made-Returns

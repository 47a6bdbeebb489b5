-- ===== src/Runtime/Store/Execute/Ordering.antt =====
-- The order that `oox::run` of oox/oox.h gives to tasks that share a variable.
use oox_kirkon_fork.Base.{ℕ, suc, ◌≡◌, ◌==◌, true, false, [], ◌∷◌, arith}
use oox_kirkon_fork.Runtime.Store.{Store, fault, blocked, Cmd, ◌>>◌}
use oox_kirkon_fork.Runtime.Store.Failure.{WaitStatus, rethrown}
use oox_kirkon_fork.Runtime.Store.Failure
use oox_kirkon_fork.Runtime.Store.Vars.{wait_for_all_status}
use oox_kirkon_fork.Runtime.Store.Execute.{value, reads, run, Outcome, returns, throws, execute}
use oox_kirkon_fork.Runtime.Store.Execute.Lifecycle.{Ends, Leaves}

-- A producer `t` with its result in `r`, and a consumer `u` of that result, with its own in `q`.
pub publish_chain : ℕ → ℕ → ℕ → ℕ → ℕ → ℕ → Cmd (Unit {0})
unfolding run
publish_chain f t r u q spare = do run f t r value []; run f u q value (reads r spare ∷ [])

-- The same, and the producer is executed.
pub run_chain : ℕ → ℕ → ℕ → ℕ → ℕ → ℕ → Outcome → Cmd (Unit {0})
unfolding publish_chain execute
run_chain f t r u q spare o = do publish_chain f t r u q spare; execute f true t o

-- A wait for the result of the consumer before the producer is executed, and once it has thrown.
pub wait_early : ℕ → ℕ → ℕ → ℕ → ℕ → ℕ → Cmd WaitStatus
unfolding publish_chain wait_for_all_status
wait_early f t r u q spare = do publish_chain f t r u q spare; wait_for_all_status true q

pub wait_chain : ℕ → ℕ → ℕ → ℕ → ℕ → ℕ → Cmd WaitStatus
unfolding run_chain wait_for_all_status
wait_chain f t r u q spare = do run_chain f t r u q spare throws; wait_for_all_status true q

-- A consumer of the result of a producer, with the two tasks and their results at different
-- addresses, is not spawned until the producer has been executed. If the functor of the producer
-- returns, the consumer is spawned then; if it throws, the consumer never is. A wait for the result of
-- the consumer blocks before the producer has been executed; when that has thrown, the threads that wait
-- for the consumer and then those that wait for the producer are woken, and the wait for the result of
-- the consumer throws the exception of the producer.
pub chain_order :
    (s : Store) (f t r u q spare : ℕ)
    → (t == u) ≡ false
    → (r == q) ≡ false
    → Ends (publish_chain (suc (suc f)) t r u q spare s) (λ s'. s'.spawned ≡ t ∷ s.spawned)
      × Ends
          (run_chain (suc (suc f)) t r u q spare returns s)
          (λ s'. s'.spawned ≡ u ∷ t ∷ s.spawned)
      × Ends (run_chain (suc (suc f)) t r u q spare throws s) (λ s'. s'.spawned ≡ t ∷ s.spawned)
      × (wait_early (suc (suc f)) t r u q spare s ≡ fault blocked)
      × Leaves
          (wait_chain (suc (suc f)) t r u q spare s)
          (Failure.throws (rethrown s.next_control))
          (λ s'. s'.woken ≡ t ∷ u ∷ s.woken)
unfolding publish_chain run_chain wait_early wait_chain
chain_order s f t r u q spare ne nv =
    (ground arith, ground arith, ground arith, ground arith, ground arith)

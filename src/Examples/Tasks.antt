-- ===== src/Examples/Tasks.antt =====
-- The theorems on tasks of oox/oox.h in concrete memories.
use oox_kirkon_fork.Base.{if◌then◌else◌, ◌≡◌, refl, true, false, none, some, [], ◌∷◌, ◌==◌}
use oox_kirkon_fork.Runtime.Node.{TaskNode, live, exception_signal, flow_back, edge}
use oox_kirkon_fork.Runtime.Store.{fault, assertion, blocked, Store}
use oox_kirkon_fork.Runtime.Store.Failure
use oox_kirkon_fork.Runtime.Store.Failure.{rethrown}
use oox_kirkon_fork.Runtime.Store.Vars.{empty_var}
use oox_kirkon_fork.Runtime.Store.Execute.{value, returns, throws}
use oox_kirkon_fork.Runtime.Store.Execute.Lifecycle.{
  Ends, Leaves, drop_last, drop_first, RanAlone, lone_task-RanAlone,
}
use oox_kirkon_fork.Runtime.Store.Execute.Ordering.{
  publish_chain, run_chain, wait_early, wait_chain, chain_order,
}
use oox_kirkon_fork.Runtime.Store.Execute.Voiding.{convert_first, convert_last, voided_result_fails}
use oox_kirkon_fork.Runtime.Store.Execute.Deferred.{
  deferred_read, deferred_written, deferred_produced, deferred_order,
}
use oox_kirkon_fork.Runtime.Store.Execute.Cleanup.{Cleared, whole_life-Cleared}
use oox_kirkon_fork.Runtime.Store.Execute.Trio.{whole_life, cwp}
use oox_kirkon_fork.Runtime.Store.Execute.Forwarding.{
  suspend, resume, finish, fail_inside, ask, forwarding_order,
}
use oox_kirkon_fork.Runtime.Store.Values.{value_of, thrown}
use oox_kirkon_fork.Runtime.Store.Execute.Cancelling.{cancel_and_read, cancelled_reader_skipped}
use oox_kirkon_fork.Runtime.Store.Execute.Pair.{two_written}

-- The consumer 1 waits; the source 2 has failed with the exception of the control 0.
abbrev consumer : TaskNode
consumer = record {
  life_count = 3;
  head = live [];
  start_count = 1;
  output_nodes = [];
  forwarded = none;
}

abbrev source : TaskNode
source = record {
  life_count = 3;
  head = live (edge flow_back 1 0 ∷ exception_signal 0 ∷ []);
  start_count = 3221225472;
  output_nodes = [];
  forwarded = none;
}

abbrev pub memory : Store
memory = record {
  task = λ t. if t == 1 then some consumer else if t == 2 then some source else none;
  control = λ c. if c == 0 then some 1 else none;
  next_control = 1;
  var = λ v. empty_var;
  spawned = [];
  woken = [];
}

lone_task-RanAlone_example :
    Ends (drop_last 7 10 3 value true throws memory) (RanAlone memory 10)
    × Ends (drop_first 7 10 3 value true throws memory) (RanAlone memory 10)
lone_task-RanAlone_example = lone_task-RanAlone memory 5 10 3 value true throws (λ e. cc) (λ e. cc)

voided_result_fails_example :
    (convert_first 7 10 3 4 true returns memory ≡ fault assertion)
    × (convert_last 7 10 3 4 true returns memory ≡ fault assertion)
voided_result_fails_example = voided_result_fails memory 5 10 3 4 true returns refl (λ e. cc)

chain_order_example :
    Ends (publish_chain 7 10 3 11 4 99 memory) (λ s. s.spawned ≡ 10 ∷ [])
    × Ends (run_chain 7 10 3 11 4 99 returns memory) (λ s. s.spawned ≡ 11 ∷ 10 ∷ [])
    × Ends (run_chain 7 10 3 11 4 99 throws memory) (λ s. s.spawned ≡ 10 ∷ [])
    × (wait_early 7 10 3 11 4 99 memory ≡ fault blocked)
    × Leaves
        (wait_chain 7 10 3 11 4 99 memory)
        (Failure.throws (rethrown 1))
        (λ s. s.woken ≡ 10 ∷ 11 ∷ [])
chain_order_example = chain_order memory 5 10 3 11 4 99 refl refl

deferred_order_example :
    Ends (deferred_read 7 3 10 11 4 memory) (λ s. s.spawned ≡ [])
    × Ends (deferred_written 7 3 10 11 4 12 5 13 6 memory) (λ s. s.spawned ≡ 12 ∷ [])
    × Ends
        (deferred_produced 7 3 10 11 4 12 5 13 6 returns memory)
        (λ s. s.spawned ≡ 11 ∷ 13 ∷ 12 ∷ [])
    × Ends (deferred_produced 7 3 10 11 4 12 5 13 6 throws memory) (λ s. s.spawned ≡ 12 ∷ [])
deferred_order_example =
    deferred_order memory 5 3 10 11 4 12 5 13 6 refl refl refl refl refl refl refl refl refl

whole_life-Cleared_example :
    Ends (whole_life 7 10 3 11 4 12 5 99 cwp memory) (Cleared 10 11 12 memory)
whole_life-Cleared_example =
    whole_life-Cleared memory 5 10 3 11 4 12 5 99 cwp refl refl refl refl refl refl

forwarding_order_example :
    Ends (suspend 7 false 10 3 11 4 memory) (λ s. s.spawned ≡ 11 ∷ 10 ∷ [])
    × Ends (resume 7 false 10 3 11 4 returns memory) (λ s. s.spawned ≡ 10 ∷ 11 ∷ 10 ∷ [])
    × (ask (resume 7 false 10 3 11 4 returns) false 3 memory ≡ fault blocked)
    × Leaves (finish 7 false 10 3 11 4 returns memory) (value_of 11) (λ s. s.woken ≡ 10 ∷ 11 ∷ [])
    × Ends (resume 7 true 10 3 11 4 throws memory) (λ s. s.spawned ≡ 11 ∷ 10 ∷ [])
    × (ask (suspend 7 true 10 3 11 4) true 3 memory ≡ fault blocked)
    × Leaves (fail_inside 7 10 3 11 4 memory) (thrown (rethrown 1)) (λ s. s.woken ≡ 11 ∷ 10 ∷ [])
forwarding_order_example = forwarding_order memory 5 10 3 11 4 false returns refl refl

cancelled_reader_skipped_example :
    Ends
      (two_written 7 3 20 4 21 10 5 memory)
      (λ s. Ends (cancel_and_read 7 3 4 10 11 6 s) (λ e. e.spawned ≡ 10 ∷ []))
cancelled_reader_skipped_example =
    cancelled_reader_skipped memory 5 3 20 4 21 10 5 11 6 refl refl refl refl refl refl refl

-- ===== src/Runtime/Store/Failure/Inherit.antt =====
-- What a consumer inherits from a failed source in oox/oox.h, and what a waiting thread sees of it.
use oox_kirkon_fork.Base.{ℕ, ◌≡◌, Bool, true, false, some, List, ◌∷◌}
use oox_kirkon_fork.Runtime.Node.{TaskNode, Arc, exception_signal, live}
use oox_kirkon_fork.Runtime.Start
use oox_kirkon_fork.Runtime.Start.{FailureBit, user_cancelled, exception, has_bit, has_failure}
use oox_kirkon_fork.Runtime.Store.{Store, ok, Cmd}
use oox_kirkon_fork.Runtime.Store.Failure.{
  cancelled_by_exception, cancelled_by_user, failure_wait_status, WaitStatus, status_user_cancelled,
  status_dependency_cancelled, throws,
}

-- A mark on a word without failures leaves that failure alone, whatever the count.
record OnlyFailure (b : FailureBit) (n : TaskNode) : Type 0 where
  failed : has_failure n ≡ true
  is_exception : has_bit exception n.start_count ≡ (elim b [ exception ↦ true | _ ↦ false ])
  is_user : has_bit user_cancelled n.start_count ≡ (elim b [ user_cancelled ↦ true | _ ↦ false ])

-- A command that ends well and leaves the task `c` such that a thread that waits for its first
-- output sees the status `w`.
pub record Shows (cmd : Cmd (Unit {0})) (s : Store) (c : ℕ) (strict : Bool) (w : WaitStatus)
    : Type 0 where
  pub after : Store
  pub node : TaskNode
  pub runs : cmd s ≡ ok tt after
  pub held : after.task c ≡ some node
  pub status : failure_wait_status strict (some node) 0 ≡ w

-- The status that a cancellation shows.
abbrev cancellation : Bool → FailureBit → WaitStatus
cancellation true user_cancelled = throws cancelled_by_user
cancellation true _ = throws cancelled_by_exception
cancellation false user_cancelled = status_user_cancelled
cancellation false _ = status_dependency_cancelled

module _ (s : Store) (c : ℕ) (n : TaskNode) (strict : Bool) (held : s.task c ≡ some n)
    (clean : has_failure n ≡ false) where
  -- The node with the signal that carries the exception `h`, and the mark of it.
  abbrev signalled : List Arc → ℕ → TaskNode
  signalled arcs h = record n { head = live (exception_signal h ∷ arcs) }

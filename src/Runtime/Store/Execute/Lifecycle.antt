-- ===== src/Runtime/Store/Execute/Lifecycle.antt =====
-- Tasks of oox/oox.h from `oox::run` to their deletion.
use oox_kirkon_fork.Base.{
  ℕ, suc, ◌≡◌, refl, ◌≢◌, ◌==◌, Bool, true, false, none, some, [], ◌∷◌, arith,
}
use oox_kirkon_fork.Runtime.Node.{TaskNode}
use oox_kirkon_fork.Runtime.Start.{has_start_failure}
use oox_kirkon_fork.Runtime.Store.{Store, Result, ok, fault, Cmd, ◌>>◌}
use oox_kirkon_fork.Runtime.Store.Vars.{var_release}
use oox_kirkon_fork.Runtime.Store.Execute.{
  Returns, value, nothing, variable, run, Outcome, returns, throws, returns_variable, execute_body,
  execute, notify_successors, execute_forwarding_body,
}

-- The command ends without a fault, in a state with the property `P`.
abbrev pub Ends : {A : Type 0} → Result A → (Store → Type 0) → Type 0
Ends (ok a s) P = P s
Ends (fault e) P = ⊥

-- The command ends without a fault, with the result `b`, in a state with the property `P`.
abbrev pub Leaves : {B : Type 0} → Result B → B → (Store → Type 0) → Type 0
Leaves (ok a s) b P = (a ≡ b) × P s
Leaves (fault e) b P = ⊥

-- A task that has failed before it starts does not call its functor: what its execution does is the
-- same whatever the functor would have done, a notification of its successors. That holds for a
-- task whose functor returns a variable, too.
pub failed_task-skips :
    (s : Store) (f t : ℕ) (n : TaskNode) (o : Outcome)
    → s.task t ≡ some n
    → has_start_failure n ≡ true
    → (execute_body f true t o s ≡ notify_successors f true t s)
      × (execute_forwarding_body f true t o s ≡ notify_successors f true t s)
unfolding execute_body execute_forwarding_body
failed_task-skips s f t n o held failed = ground arith

-- A task without arguments, run, executed and its result dropped, in this order or with the result
-- dropped first.
pub drop_last : ℕ → ℕ → ℕ → Returns → Bool → Outcome → Cmd (Unit {0})
unfolding run execute var_release
drop_last f t r kind can_throw o = do run f t r kind []; execute f can_throw t o; var_release f r

pub drop_first : ℕ → ℕ → ℕ → Returns → Bool → Outcome → Cmd (Unit {0})
unfolding run execute var_release
drop_first f t r kind can_throw o = do run f t r kind []; var_release f r; execute f can_throw t o

-- What is left of a task that ran alone: nothing but one call of `spawn` and one of `wakeup`.
pub record RanAlone (s : Store) (t : ℕ) (s' : Store) : Type 0 where
  pub deleted : s'.task t ≡ none
  pub spawned : s'.spawned ≡ t ∷ s.spawned
  pub woken : s'.woken ≡ t ∷ s.woken
  pub others : (u : ℕ) → (t == u) ≡ false → s'.task u ≡ s.task u

drop_last-value :
    (s : Store) (f t r : ℕ) (can_throw : Bool) (o : Outcome)
    → (can_throw ≡ false → o ≢ throws)
    → Ends (drop_last (suc (suc f)) t r value can_throw o s) (RanAlone s t)
unfolding drop_last
drop_last-value s f t r false returns ne = ground arith
drop_last-value s f t r false (returns_variable v) ne = ground arith
drop_last-value s f t r false throws ne = absurd (ne refl refl)
drop_last-value s f t r true returns ne = ground arith
drop_last-value s f t r true throws ne = ground arith
drop_last-value s f t r true (returns_variable v) ne = ground arith

drop_last-nothing :
    (s : Store) (f t r : ℕ) (can_throw : Bool) (o : Outcome)
    → (can_throw ≡ false → o ≢ throws)
    → Ends (drop_last (suc (suc f)) t r nothing can_throw o s) (RanAlone s t)
unfolding drop_last
drop_last-nothing s f t r false returns ne = ground arith
drop_last-nothing s f t r false (returns_variable v) ne = ground arith
drop_last-nothing s f t r false throws ne = absurd (ne refl refl)
drop_last-nothing s f t r true returns ne = ground arith
drop_last-nothing s f t r true throws ne = ground arith
drop_last-nothing s f t r true (returns_variable v) ne = ground arith

drop_first-value :
    (s : Store) (f t r : ℕ) (can_throw : Bool) (o : Outcome)
    → (can_throw ≡ false → o ≢ throws)
    → Ends (drop_first (suc (suc f)) t r value can_throw o s) (RanAlone s t)
unfolding drop_first
drop_first-value s f t r false returns ne = ground arith
drop_first-value s f t r false (returns_variable v) ne = ground arith
drop_first-value s f t r false throws ne = absurd (ne refl refl)
drop_first-value s f t r true returns ne = ground arith
drop_first-value s f t r true throws ne = ground arith
drop_first-value s f t r true (returns_variable v) ne = ground arith

drop_first-nothing :
    (s : Store) (f t r : ℕ) (can_throw : Bool) (o : Outcome)
    → (can_throw ≡ false → o ≢ throws)
    → Ends (drop_first (suc (suc f)) t r nothing can_throw o s) (RanAlone s t)
unfolding drop_first
drop_first-nothing s f t r false returns ne = ground arith
drop_first-nothing s f t r false (returns_variable v) ne = ground arith
drop_first-nothing s f t r false throws ne = absurd (ne refl refl)
drop_first-nothing s f t r true returns ne = ground arith
drop_first-nothing s f t r true throws ne = ground arith
drop_first-nothing s f t r true (returns_variable v) ne = ground arith

-- A task without arguments and with a value or nothing for its result runs without a fault, whether it
-- can throw or not, whether its functor returns or, if it can, throws, and whether its result is
-- dropped after or before its execution, given fuel for two rounds: it is spawned once, its waiters
-- are woken once, it is deleted, and no other task changes.
pub lone_task-RanAlone :
    (s : Store) (f t r : ℕ) (kind : Returns) (can_throw : Bool) (o : Outcome)
    → kind ≢ variable
    → (can_throw ≡ false → o ≢ throws)
    → Ends (drop_last (suc (suc f)) t r kind can_throw o s) (RanAlone s t)
      × Ends (drop_first (suc (suc f)) t r kind can_throw o s) (RanAlone s t)
lone_task-RanAlone s f t r value can_throw o ne calm =
    (drop_last-value s f t r can_throw o calm, drop_first-value s f t r can_throw o calm)
lone_task-RanAlone s f t r nothing can_throw o ne calm =
    (drop_last-nothing s f t r can_throw o calm, drop_first-nothing s f t r can_throw o calm)
lone_task-RanAlone s f t r variable can_throw o ne calm = absurd (ne refl)

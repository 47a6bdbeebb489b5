-- ===== src/Runtime/Store.antt =====
-- The memory of oox/oox.h: task nodes, exception controls and variables at their addresses, and
-- what the runtime hands to the backend. A command reads and changes it, or fails.
pub mod Failure
pub mod Notify
pub mod Vars
pub mod Values
pub mod Execute
use oox_kirkon_fork.Base.{
  ℕ, ◌+◌, ◌-◌, ◌==◌, Bool, true, false, Option, none, some, List, ◌∷◌, if◌then◌else◌, get_elem?,
  set,
}
use oox_kirkon_fork.Base.Family.{update}
use oox_kirkon_fork.Runtime.Node.{TaskNode, Var, OutputNode, Arc, Head}
use oox_kirkon_fork.Runtime.ArcList

pub record Store : Type 0 where
  pub task : ℕ → Option TaskNode  -- `none`: not allocated, or deleted
  pub control : ℕ → Option ℕ  -- `exception_control_struct::ref_count`
  pub next_control : ℕ  -- the address of the next control
  pub var : ℕ → Var
  pub spawned : List ℕ  -- the calls of `spawn`, the latest first
  pub woken : List ℕ  -- the calls of `wakeup`, the latest first

-- A failed assertion, an access to memory that is not allocated, fuel that ran out, a wait for a task that
-- is not done, which lasts until another thread has executed it, or the end of the program by an exception
-- of a functor that is `noexcept`.
pub data Fault : Type 0 where
  assertion dangling out_of_fuel blocked terminated : Fault

pub data Result (A : Type 0) : Type 0 where
  ok : A → Store → Result A
  fault : Fault → Result A

abbrev pub Cmd : Type 0 → Type 0
Cmd A = Store → Result A

abbrev pub pure : {A : Type 0} → A → Cmd A
pure a s = ok a s

abbrev pub fail : {A : Type 0} → Fault → Cmd A
fail f s = fault f

infixl 5 ◌>>=◌ ◌>>◌
abbrev pub ◌>>=◌ : {A B : Type 0} → Cmd A → (A → Cmd B) → Cmd B
◌>>=◌ m f s = elim (m s) [ ok a s' ↦ f a s' | fault e ↦ fault e ]

abbrev pub ◌>>◌ : {B : Type 0} → Cmd (Unit {0}) → Cmd B → Cmd B
m >> k = m >>= λ _. k

-- The value of an option, or the fault that its absence is.
abbrev pub expect : {A : Type 0} → Fault → Option A → Cmd A
expect f none s = fault f
expect f (some a) s = ok a s

-- `__OOX_ASSERT`
abbrev pub assert : Bool → Cmd (Unit {0})
assert true s = ok tt s
assert false s = fault assertion

unfoldable pub load : ℕ → Cmd TaskNode
load t s = expect dangling (s.task t) s

unfoldable pub store : ℕ → TaskNode → Cmd (Unit {0})
store t n s = ok tt (record s { task = update s.task t (some n) })

unfoldable pub load_var : ℕ → Cmd Var
load_var v s = ok (s.var v) s

unfoldable pub store_var : ℕ → Var → Cmd (Unit {0})
store_var v x s = ok tt (record s { var = update s.var v x })

-- `out (port)` of a node; a port outside the array is a fault.
unfoldable pub out : TaskNode → ℕ → Cmd OutputNode
out n port = expect dangling (get_elem? n.output_nodes port)

abbrev pub set_out : TaskNode → ℕ → OutputNode → TaskNode
set_out n port o = record n { output_nodes = set n.output_nodes port o }

-- `t->add_arc (i)`
unfoldable pub add_arc : ℕ → Arc → Cmd Bool
unfolding load store ArcList.add_arc
add_arc t i = do
  n ← load t
  let (h, success) = ArcList.add_arc n.head i
  store t (record n { head = h })
  pure success

-- `retain_exception_control` and `release_exception_control`.
unfoldable pub retain_exception_control : ℕ → Cmd ℕ
retain_exception_control c s = elim (s.control c) [
  | none ↦ fault dangling
  | some k ↦ ok c (record s { control = update s.control c (some (k + 1)) })
]

unfoldable pub release_exception_control : ℕ → Cmd (Unit {0})
release_exception_control c s = elim (s.control c) [
  | none ↦ fault dangling
  | some k ↦
      ok tt (record s { control = update s.control c (if k == 1 then none else some (k - 1)) })
]

-- `new exception_control_struct (eptr)`
unfoldable pub new_exception_control : Cmd ℕ
new_exception_control s = ok s.next_control (record s {
  control = update s.control s.next_control (some 1);
  next_control = s.next_control + 1;
})

unfoldable pub spawn : ℕ → Cmd (Unit {0})
spawn t s = ok tt (record s { spawned = t ∷ s.spawned })

unfoldable pub wakeup : ℕ → Cmd (Unit {0})
wakeup t s = ok tt (record s { woken = t ∷ s.woken })

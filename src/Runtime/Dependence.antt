-- ===== src/Runtime/Dependence.antt =====
-- What a task of oox/oox.h waits for, by its arguments, and the tasks of a program as they run in any
-- order that this allows. The tasks are numbered in the order of the calls of `oox::run`. A result is
-- a variable that its task writes.
--
-- `setup` adds a task behind the last writer of each variable that it reads: `assign_prerequisite` on
-- `current_task`. It makes the task the next writer of each variable that it writes, so that the task
-- waits for that writer and, by its countdown, for the readers in between: `set_next_writer`. All
-- tasks that write a variable share one storage.
pub mod Trackers
pub mod Closure
pub mod Equivalence
pub mod Progress
pub mod Aliasing
use oox_kirkon_fork.Base.{
  ℕ, zero, suc, ◌+◌, ◌<◌, ◌≡◌, ◌==◌, Bool, true, false, ◌||◌, Option, none, some, List, [], ◌∷◌,
  ◌++◌, map, if◌then◌else◌, All,
}
use oox_kirkon_fork.Base.Family.{update}
use oox_kirkon_fork.Runtime.Store.Execute.{Argument, plain, writes, reads}

-- A variable while the tasks are made: `current_task`, and the tasks that read what it writes. The
-- storage that a variable has before any task writes it is `none`.
pub record Track : Type 0 where
  pub writer : Option ℕ
  pub readers : List ℕ

abbrev pub Tracks : Type 0
Tracks = ℕ → Track

abbrev pub untouched : Tracks
untouched v = record { writer = none; readers = [] }

-- What is known of the variables once an argument of the task `t` is set up.
unfoldable pub note : ℕ → Argument → Tracks → Tracks
note t plain trs v = trs v
note t (reads u a) trs v =
    if u == v then record (trs v) { readers = t ∷ (trs v).readers } else trs v
note t (writes u a) trs v = if u == v then record { writer = some t; readers = [] } else trs v

unfoldable pub note_all : ℕ → List Argument → Tracks → Tracks
note_all t [] trs = trs
note_all t (a ∷ rest) trs = note_all t rest (note t a trs)

abbrev pub task_list : Option ℕ → List ℕ
task_list none = []
task_list (some w) = w ∷ []

-- The tasks that have to be through with an argument before it can be used.
unfoldable pub waits_for : Argument → Tracks → List ℕ
waits_for plain trs = []
waits_for (reads u a) trs = task_list (trs u).writer
waits_for (writes u a) trs = task_list (trs u).writer ++ (trs u).readers

-- `setup`, argument by argument.
unfoldable pub waits_for_all : ℕ → List Argument → Tracks → List ℕ
waits_for_all t [] trs = []
waits_for_all t (a ∷ rest) trs = waits_for a trs ++ waits_for_all t rest (note t a trs)

-- A task over the values `V`: its arguments, and its functor, from the values of the variables among them, in order, to
-- the new value of each variable that it writes.
pub record Task (V : Type 0) : Type 0 where
  pub args : List Argument
  pub functor : List V → ℕ → V

-- The tasks by their numbers.
abbrev pub Program : Type 0 → Type 0
Program V = ℕ → Task V

-- The variables before the task `t` is made.
unfoldable pub tracks : {V : Type 0} → Program V → ℕ → Tracks
tracks p zero = untouched
tracks p (suc t) = note_all t (p t).args (tracks p t)

unfoldable pub prerequisites : {V : Type 0} → Program V → ℕ → List ℕ
prerequisites p t = waits_for_all t (p t).args (tracks p t)

abbrev pub Values : Type 0 → Type 0
Values V = ℕ → V

-- `consume` for each argument, as `apply_args` does it.
abbrev pub consume_all : {V : Type 0} → List Argument → Values V → List V
consume_all [] m = []
consume_all (plain ∷ rest) m = consume_all rest m
consume_all (reads u a ∷ rest) m = m u ∷ consume_all rest m
consume_all (writes u a ∷ rest) m = m u ∷ consume_all rest m

abbrev pub is_written : List Argument → ℕ → Bool
is_written [] v = false
is_written (plain ∷ rest) v = is_written rest v
is_written (reads u a ∷ rest) v = is_written rest v
is_written (writes u a ∷ rest) v = u == v || is_written rest v

abbrev pub is_used : List Argument → ℕ → Bool
is_used [] v = false
is_used (plain ∷ rest) v = is_used rest v
is_used (reads u a ∷ rest) v = u == v || is_used rest v
is_used (writes u a ∷ rest) v = u == v || is_used rest v

-- The functor is applied, in place.
unfoldable pub apply : {V : Type 0} → Task V → Values V → Values V
apply k m v = if is_written k.args v then k.functor (consume_all k.args m) v else m v

-- The memory once the first `t` tasks have run one after the other.
unfoldable pub serial : {V : Type 0} → Program V → Values V → ℕ → Values V
serial p m zero = m
serial p m (suc t) = apply (p t) (serial p m t)

-- The variables' storage, and the tasks that are through.
pub record State (V : Type 0) : Type 0 where
  pub memory : Values V
  pub completed : ℕ → Bool

abbrev pub start : {V : Type 0} → Values V → State V
start m = record { memory = m; completed = λ t. false }

-- One of the first `n` tasks runs, with its prerequisites through.
pub data Step {V : Type 0} (p : Program V) (n : ℕ) (s : State V) : State V → Type 0 where
  execute :
      (t : ℕ)
      → t < n
      → s.completed t ≡ false
      → All (λ d. s.completed d ≡ true) (prerequisites p t)
      → Step p n s (record { memory = apply (p t) s.memory; completed = update s.completed t true })

pub data Reach {V : Type 0} (p : Program V) (n : ℕ) (m : Values V) : ℕ → State V → Type 0 where
  here : Reach p n m 0 (start m)
  later : {k : ℕ} {s u : State V} → Reach p n m k s → Step p n s u → Reach p n m (suc k) u

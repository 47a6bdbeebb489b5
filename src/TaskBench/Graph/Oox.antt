-- ===== src/TaskBench/Graph/Oox.antt =====
-- benchmarks/taskbench/runner_oox.h and runner_oox_dispatch.h: every point of every graph as a task of
-- oox/oox.h that reads the variables of the points that it depends on. The tasks are numbered in the
-- order of the calls of `run_point_with_deps`, and the task `n` writes the variable `n`.
pub mod Places
pub mod Tokens
pub mod Rows
pub mod Schedules
use oox_kirkon_fork.Base.{
  ℕ, zero, suc, ◌+◌, ◌-◌, ◌*◌, ◌==◌, ltb, Option, none, some, List, [], ◌∷◌, if◌then◌else◌, length,
}
use oox_kirkon_fork.Runtime.Store.Execute.{Argument, plain, writes, reads}
use oox_kirkon_fork.Runtime.Dependence.{Task, Program}
use oox_kirkon_fork.TaskBench.Patterns.{max_deps}
use oox_kirkon_fork.TaskBench.Graph.{
  Token, Graph, deps, Checked, ok, error, RunKernel, execute_point,
}

-- `oox::var<Token>`: `none` if its task has not run, or has failed.
abbrev pub Value : Type 0
Value = Option Token

-- The values that `oox_bind` gives to the functor. If one is missing, the task is given the failure of
-- the task that it waits for, and its functor is not called.
abbrev pub all_tokens : List Value → Option (List Token)
all_tokens [] = some []
all_tokens (v ∷ vs) = elim v [
  | none ↦ none
  | some t ↦ elim (all_tokens vs) [ none ↦ none | some ts ↦ some (t ∷ ts) ]
]

-- An exception of the functor leaves the variable without a value.
abbrev pub result_of : Checked Token → Value
result_of (ok t) = some t
result_of (error e) = none

unfoldable pub execute_point_fn : RunKernel → Graph → (graph_id row col : ℕ) → List Value → Value
unfolding execute_point
execute_point_fn run_kernel g graph_id row col inputs = elim (all_tokens inputs) [
  | none ↦ none
  | some ts ↦ result_of (execute_point run_kernel g graph_id row col ts)
]

-- `prev[deps[Is]]...`
abbrev pub read_each : (prev : ℕ → ℕ) → List ℕ → List Argument
read_each prev [] = []
read_each prev (d ∷ ds) = reads (prev d) 0 ∷ read_each prev ds

-- The arguments of `oox::run` in `run_point_with_deps_impl`: the result, which the task writes, the
-- graph, `graph_id`, `row` and `col`, and the variables.
abbrev pub impl_args : (self : ℕ) (prev : ℕ → ℕ) → List ℕ → List Argument
impl_args self prev ds = writes self 0 ∷ plain ∷ plain ∷ plain ∷ plain ∷ read_each prev ds

-- `run_point_with_deps_dispatch<N>`, with `rounds` for `OOX_TASKBENCH_MAX_DEPS - N`; `none` is an
-- exception.
unfoldable pub run_point_with_deps_dispatch :
    (rounds n self : ℕ) (prev : ℕ → ℕ) → List ℕ → Option (List Argument)
run_point_with_deps_dispatch zero n self prev ds =
    if length ds == n then some (impl_args self prev ds) else none
run_point_with_deps_dispatch (suc r) n self prev ds =
    let rest = run_point_with_deps_dispatch r (n + 1) self prev ds in
    if length ds == n then some (impl_args self prev ds) else rest

unfoldable pub run_point_with_deps : (self : ℕ) (prev : ℕ → ℕ) → List ℕ → Option (List Argument)
unfolding run_point_with_deps_dispatch
run_point_with_deps self prev ds =
    if ltb max_deps (length ds) then none else run_point_with_deps_dispatch max_deps 0 self prev ds

pub record Point : Type 0 where
  pub row : ℕ
  pub graph_id : ℕ
  pub col : ℕ

-- The loops of `run_oox`, over the rows, the graphs and the columns, from the innermost. Those of the
-- first row stand before the others, in the same order.
abbrev pub next_point : Graph → Point → Point
next_point g p =
    if ltb (p.col + 1) g.width
    then record p { col = p.col + 1 }
    else if ltb (p.graph_id + 1) g.graphs
    then record p { graph_id = p.graph_id + 1; col = 0 }
    else record { row = p.row + 1; graph_id = 0; col = 0 }

-- The point of the call `n`.
unfoldable pub point_at : Graph → ℕ → Point
point_at g zero = record { row = 0; graph_id = 0; col = 0 }
point_at g (suc n) = next_point g (point_at g n)

-- `prev[graph_id][d]`, for the task `n` in the column `col`: the task of the same graph in the row before.
abbrev pub prev_variable : Graph → (n col d : ℕ) → ℕ
prev_variable g n col d = n - col - g.graphs * g.width + d

-- The call `n` of `run_point_with_deps`, for a point.
unfoldable pub point_args : Graph → (n : ℕ) → Point → Option (List Argument)
unfolding deps run_point_with_deps
point_args g n p = elim (deps g p.row p.col) [
  | none ↦ none
  | some ds ↦ run_point_with_deps n (prev_variable g n p.col) ds
]

abbrev pub args_or_none : Option (List Argument) → List Argument
args_or_none none = []
args_or_none (some args) = args

abbrev pub behind : List Value → List Value
behind [] = []
behind (v ∷ vs) = vs

unfoldable pub point_task : RunKernel → Graph → (n : ℕ) → Point → Task Value
unfolding point_args execute_point_fn
point_task run_kernel g n p = record {
  args = args_or_none (point_args g n p);
  functor = λ vs v. execute_point_fn run_kernel g p.graph_id p.row p.col (behind vs);
}

-- `run_oox`: the tasks in the order in which it makes them, `task_count g` in all. For the trivial pattern,
-- it makes the same calls, with no dependencies, in loops of their own.
unfoldable pub run_oox : RunKernel → Graph → Program Value
unfolding point_task point_at
run_oox run_kernel g n = point_task run_kernel g n (point_at g n)

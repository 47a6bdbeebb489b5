-- ===== src/TaskBench/Graph/Serial.antt =====
-- benchmarks/taskbench/runner_serial.h: the graph executed point by point, a row after the other.
pub mod Rows
use oox_kirkon_fork.Base.{
  ℕ, zero, suc, ◌+◌, ◌-◌, ◌<◌, ◌≡◌, refl, Bool, true, Option, none, some, List, [], ◌∷◌, ◌++◌, map,
  length, get_elem?, All, arith,
}
use oox_kirkon_fork.TaskBench.Graph.{
  Token, Graph, deps, PointError, missing_column, Checked, ok, error, ◌>>=◌, RunKernel, expected_or,
  execute_point,
}

-- `prev[graph_id][dep]` for each dependency; a column that the row lacks is an error here, where the
-- source reads behind the vector.
unfoldable pub gather : List Token → List ℕ → Checked (List Token)
gather prev [] = ok []
gather prev (d ∷ ds) = elim (get_elem? prev d) [
  | none ↦ error missing_column
  | some t ↦ gather prev ds >>= λ ts. ok (t ∷ ts)
]

-- One point of a row behind the first.
unfoldable pub run_point : RunKernel → Graph → (graph_id row col : ℕ) → List Token → Checked Token
unfolding gather execute_point deps
run_point run_kernel g graph_id row col prev = do
  ds ← expected_or (deps g row col)
  inputs ← gather prev ds
  execute_point run_kernel g graph_id row col inputs

-- The columns of a row from `col` on, given the row before.
unfoldable pub run_row :
    RunKernel → Graph → (rounds graph_id row col : ℕ) → List Token → Checked (List Token)
unfolding run_point
run_row run_kernel g zero graph_id row col prev = ok []
run_row run_kernel g (suc r) graph_id row col prev = do
  t ← run_point run_kernel g graph_id row col prev
  ts ← run_row run_kernel g r graph_id row (col + 1) prev
  ok (t ∷ ts)

-- The first row, whose points have no inputs.
unfoldable pub first_row : RunKernel → Graph → (rounds graph_id col : ℕ) → Checked (List Token)
unfolding execute_point
first_row run_kernel g zero graph_id col = ok []
first_row run_kernel g (suc r) graph_id col = do
  t ← execute_point run_kernel g graph_id 0 col []
  ts ← first_row run_kernel g r graph_id (col + 1)
  ok (t ∷ ts)

-- The rows from `row` on, for one graph; the graphs do not meet, so their order does not matter.
unfoldable pub run_rows :
    RunKernel → Graph → (rounds graph_id row : ℕ) → List Token → Checked (List Token)
unfolding run_row
run_rows run_kernel g zero graph_id row prev = ok prev
run_rows run_kernel g (suc r) graph_id row prev = do
  curr ← run_row run_kernel g g.width graph_id row 0 prev
  run_rows run_kernel g r graph_id (row + 1) curr

-- What `run_serial` leaves in `prev[graph_id]`.
unfoldable pub run_serial : RunKernel → Graph → ℕ → Checked (List Token)
unfolding first_row run_rows
run_serial run_kernel g graph_id = do
  first ← first_row run_kernel g g.width graph_id 0
  run_rows run_kernel g (g.height - 1) graph_id 1 first

-- ===== src/TaskBench/Graph/Oox/Places.antt =====
-- Which call of `run_point_with_deps` in benchmarks/taskbench/runner_oox.h is for which point.
use oox_kirkon_fork.Base.{
  ℕ, zero, suc, ◌+◌, ◌-◌, ◌*◌, ◌<◌, ◌≤◌, ◌≡◌, refl, ◌∙◌, ap, arith, dec_lt, ltb, true, false,
}
use native.Mathlib.Nat.{mul_comm, mul_assoc}
use oox_kirkon_fork.TaskBench.Graph.{Graph, task_count}
use oox_kirkon_fork.TaskBench.Graph.Oox.{Point, point_at, prev_variable}

-- The variable of a point.
unfoldable pub variable : Graph → (row graph_id col : ℕ) → ℕ
variable g row graph_id col = row * (g.graphs * g.width) + (graph_id * g.width + col)

abbrev pub point : (row graph_id col : ℕ) → Point
point row graph_id col = record { row = row; graph_id = graph_id; col = col }

times_pred : (a b : ℕ) → 0 < a → a * b ≡ (a - 1) * b + b
times_pred zero b lt = absurd (omega arith)
times_pred (suc a) b lt = let less : suc a - 1 ≡ a = omega arith in rw less (omega arith)

times_below : (a b c : ℕ) → a < b → a * c + c ≤ b * c
times_below a zero c lt = absurd (omega arith)
times_below zero (suc b) c lt = omega arith
times_below (suc a) (suc b) c lt = omega (arith, times_below a b c (omega arith))

module _ (g : Graph) where
  -- The calls of one row of one graph.
  cols_at :
      (n row graph_id c : ℕ)
      → point_at g n ≡ point row graph_id 0
      → c < g.width
      → point_at g (n + c) ≡ point row graph_id c
  unfolding point_at
  cols_at n row graph_id zero e lt = let same : n + 0 ≡ n = omega arith in rw same e
  cols_at n row graph_id (suc c) e lt =
      let ih = cols_at n row graph_id c e (omega arith) in
      let next : n + suc c ≡ suc (n + c) = omega arith in
      let more : ltb (c + 1) g.width ≡ true = ground arith in
      let one : c + 1 ≡ suc c = omega arith in rw (next, ih, more, one) refl

  graphs_at :
      (n row graph_id : ℕ)
      → 0 < g.width
      → point_at g n ≡ point row 0 0
      → graph_id < g.graphs
      → point_at g (n + graph_id * g.width) ≡ point row graph_id 0
  unfolding point_at
  graphs_at n row zero wide e lt = let same : n + 0 * g.width ≡ n = omega arith in rw same e
  graphs_at n row (suc i) wide e lt =
      let ih =
        cols_at (n + i * g.width) row i (g.width - 1) (graphs_at n row i wide e (omega arith))
          (omega arith) in
      let next : n + suc i * g.width ≡ suc (n + i * g.width + (g.width - 1)) = omega arith in
      let last : ltb (g.width - 1 + 1) g.width ≡ false = ground arith in
      let more : ltb (i + 1) g.graphs ≡ true = ground arith in
      let one : i + 1 ≡ suc i = omega arith in rw (next, ih, last, more, one) refl

  rows_at :
      (row : ℕ)
      → 0 < g.width
      → 0 < g.graphs
      → point_at g (row * (g.graphs * g.width)) ≡ point row 0 0
  unfolding point_at
  rows_at zero wide some_graph =
      let same : 0 * (g.graphs * g.width) ≡ 0 = omega arith in rw same refl
  rows_at (suc r) wide some_graph =
      let n = r * (g.graphs * g.width) in
      let ih =
        cols_at (n + (g.graphs - 1) * g.width) r (g.graphs - 1) (g.width - 1)
          (graphs_at n r (g.graphs - 1) wide (rows_at r wide some_graph) (omega arith))
          (omega arith) in
      let block = times_pred g.graphs g.width some_graph in
      let next : suc r * (g.graphs * g.width) ≡ suc (n + (g.graphs - 1) * g.width + (g.width - 1)) =
        omega arith in
      let last : ltb (g.width - 1 + 1) g.width ≡ false = ground arith in
      let last_graph : ltb (g.graphs - 1 + 1) g.graphs ≡ false = ground arith in
      let one : r + 1 ≡ suc r = omega arith in rw (next, ih, last, last_graph, one) refl

  -- The call for a point makes the task that writes its variable.
  pub variable-point :
      (row graph_id col : ℕ)
      → graph_id < g.graphs
      → col < g.width
      → point_at g (variable g row graph_id col) ≡ point row graph_id col
  unfolding variable
  variable-point row graph_id col gl cl =
      let k = g.graphs * g.width in
      let at_row = rows_at row (omega arith) (omega arith) in
      let at_graph = graphs_at (row * k) row graph_id (omega arith) at_row gl in
      let place : row * k + (graph_id * g.width + col) ≡ row * k + graph_id * g.width + col =
        omega arith in
      rw place (cols_at (row * k + graph_id * g.width) row graph_id col at_graph cl)

  pub variable-prev :
      (row graph_id col d : ℕ)
      → prev_variable g (variable g (suc row) graph_id col) col d ≡ variable g row graph_id d
  unfolding variable
  variable-prev row graph_id col d = omega arith

  -- It comes after the calls for the row before.
  pub variable-before :
      (row graph_id col d : ℕ)
      → graph_id < g.graphs
      → d < g.width
      → variable g row graph_id d < variable g (suc row) graph_id col
  unfolding variable
  variable-before row graph_id col d gl dl = omega (arith, times_below graph_id g.graphs g.width gl)

  -- And is one of the calls.
  pub variable-count :
      (row graph_id col : ℕ)
      → row < g.height
      → graph_id < g.graphs
      → col < g.width
      → variable g row graph_id col < task_count g
  unfolding variable task_count
  variable-count row graph_id col rl gl cl =
      let count : g.height * g.width * g.graphs ≡ g.height * (g.graphs * g.width) =
        mul_assoc g.height g.width g.graphs ∙ ap (λ k. g.height * k) (mul_comm g.width g.graphs) in
      omega (
        arith,
        count,
        times_below graph_id g.graphs g.width gl,
        times_below row g.height (g.graphs * g.width) rl,
      )

  -- Every call is for a point of the graph, or for one below its last row.
  pub point-variable :
      (n : ℕ)
      → 0 < g.width
      → 0 < g.graphs
      → (row graph_id col : ℕ) × (point_at g n ≡ point row graph_id col)
        × (n ≡ variable g row graph_id col)
        × (graph_id < g.graphs)
        × (col < g.width)
  unfolding point_at variable
  point-variable zero wide some_graph = (0, 0, 0, refl, omega arith, omega arith, omega arith)
  point-variable (suc n) wide some_graph =
      let (row, i, col, e, q, il, cl) = point-variable n wide some_graph in
      elim (dec_lt (col + 1) g.width) [
        | yes more ↦
            let step : ltb (col + 1) g.width ≡ true = ground arith in
            (row, i, col + 1, rw (e, step) refl, omega (arith, q), il, more)
        | no last ↦
            let stop : ltb (col + 1) g.width ≡ false = ground arith in
            elim (dec_lt (i + 1) g.graphs) [
              | yes more ↦
                  let step : ltb (i + 1) g.graphs ≡ true = ground arith in
                  (row, i + 1, 0, rw (e, stop, step) refl, omega (arith, q), more, wide)
              | no last_graph ↦
                  let stop_graph : ltb (i + 1) g.graphs ≡ false = ground arith in
                  let whole : i ≡ g.graphs - 1 = omega arith in
                  let q' : n ≡ row * (g.graphs * g.width) + ((g.graphs - 1) * g.width + col) =
                    rw whole at q in
                  let block = times_pred g.graphs g.width some_graph in
                  (
                    row + 1,
                    0,
                    0,
                    rw (e, stop, stop_graph) refl,
                    omega (arith, q', block),
                    some_graph,
                    wide,
                  )
            ]
      ]

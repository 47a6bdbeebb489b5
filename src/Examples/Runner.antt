-- ===== src/Examples/Runner.antt =====
-- The oox runner of the task benchmark on a small graph, with its tasks in another order than they are
-- made in.
use oox_kirkon_fork.Base.{
  ℕ, ◌<◌, ◌≤◌, ◌≡◌, ◌≢◌, ◌⊎◌, refl, true, false, none, List, [], ◌∷◌, arith, get_elem?,
}
use oox_kirkon_fork.Base.Family.{update}
use oox_kirkon_fork.Runtime.Dependence.{
  Values, State, Step, execute, Reach, here, later, prerequisites, apply, waits_for_all, waits_for,
  tracks, note_all, note,
}
use oox_kirkon_fork.TaskBench.Config.{stencil}
use oox_kirkon_fork.TaskBench.Patterns.{dependency_columns}
use oox_kirkon_fork.TaskBench.Graph.{Token, Graph, ok, task_count, deps, contains_point}
use oox_kirkon_fork.TaskBench.Graph.Serial.{run_serial}
use oox_kirkon_fork.TaskBench.Graph.Serial.Rows.{IsSound, deps-Ends}
use oox_kirkon_fork.TaskBench.Graph.Oox.{
  Value, point_at, point_args, point_task, run_point_with_deps, run_oox,
}
use oox_kirkon_fork.TaskBench.Graph.Oox.Places.{variable}
use oox_kirkon_fork.TaskBench.Config.{compute}
use oox_kirkon_fork.TaskBench.Kernels.{KernelCalls, run_kernel}
use oox_kirkon_fork.TaskBench.Graph.Oox.Schedules.{run_oox_schedules}

-- Two columns and two rows.
abbrev square : Graph
square = record {
  height = 2;
  width = 2;
  graphs = 1;
  pattern = stencil;
  radix = 3;
  output_bytes = 2;
  seed = 1;
  validate = true;
  fuel = 9;
}

square-IsSound : IsSound square
square-IsSound = record { suits = tt; tall = omega arith; ends = deps-Ends square (λ e. cc) }

-- The compute kernel with functions of no account.
abbrev calls : KernelCalls
calls = record {
  kernel = compute;
  scratch_bytes = 0;
  local_iterations = λ graph row col. 1;
  compute_kernel = λ iterations x. x;
  scratch = λ graph row col. [];
}

-- The serial run finds other scratch memory.
abbrev other : (graph row col : ℕ) → List ℕ
other graph row col = 7 ∷ []

abbrev empty : Values Value
empty v = none

abbrev ran : State Value → ℕ → State Value
ran s t = record {
  memory = apply (run_oox (run_kernel calls) square t) s.memory;
  completed = update s.completed t true;
}

abbrev idle : State Value
idle = record { memory = empty; completed = λ t. false }

-- The second point runs before the first, and then both of the second row.
abbrev final : State Value
final = ran (ran (ran (ran idle 1) 0) 3) 2

waits : (prerequisites (run_oox (run_kernel calls) square) 3 ≡ 0 ∷ 1 ∷ [])
unfolding prerequisites waits_for_all waits_for tracks note_all note run_oox point_task point_at
    point_args run_point_with_deps deps contains_point dependency_columns
waits = refl

all_tasks : Reach (run_oox (run_kernel calls) square) (task_count square) empty 4 final
unfolding prerequisites waits_for_all waits_for tracks note_all note run_oox point_task point_at
    point_args run_point_with_deps deps contains_point dependency_columns task_count
all_tasks =
    later
      (later
        (later (later here (execute 1 (omega arith) refl tt)) (execute 0 (omega arith) refl tt))
        (execute 3 (omega arith) refl (refl, (refl, tt))))
      (execute 2 (omega arith) refl (refl, (refl, tt)))

run_oox_schedules_example :
    ((n : ℕ) → n < task_count square → point_args square n (point_at square n) ≢ none)
    × (4 ≤ task_count square)
    × (((t : ℕ) → t < task_count square → final.completed t ≡ true)
        ⊎ ((u : State Value) × Step
              (run_oox (run_kernel calls) square)
              (task_count square)
              final
              u))
    × ((graph_id : ℕ)
        → graph_id < 1
        → (ts : List Token) × (run_serial
              (run_kernel (record calls { scratch = other }))
              square
              graph_id
            ≡ ok ts)
          × ((col : ℕ)
              → col < 2
              → final.completed (variable square 1 graph_id col) ≡ true
              → final.memory (variable square 1 graph_id col) ≡ get_elem? ts col))
run_oox_schedules_example =
    run_oox_schedules calls other square square-IsSound (λ e. cc) empty all_tasks

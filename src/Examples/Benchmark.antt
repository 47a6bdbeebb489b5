-- ===== src/Examples/Benchmark.antt =====
-- The theorems on benchmarks/taskbench at concrete configurations and graphs.
use oox_kirkon_fork.Base.{none, ℕ, ◌≤◌, ◌≡◌, ◌-◌, refl, true, some, List, [], ◌∷◌, arith, length}
use oox_kirkon_fork.Base.Int.{pos}
use oox_kirkon_fork.TaskBench.Config.{fft, tree, stencil, default_config, validate_config}
use oox_kirkon_fork.TaskBench.Patterns.{dependency_columns, max_deps}
use oox_kirkon_fork.TaskBench.Patterns.Sorting.{IsAscending}
use oox_kirkon_fork.TaskBench.Patterns.Bounds.{Within, dependency_columns-Within}
use oox_kirkon_fork.TaskBench.Patterns.Powers.{columns_outside}
use oox_kirkon_fork.TaskBench.Graph.{
  contains_point, deps, has_column, reverse_deps, Token, Graph, ok, RunKernel,
}
use oox_kirkon_fork.TaskBench.Graph.Reverse.{reverse_deps-deps}
use oox_kirkon_fork.TaskBench.Graph.Serial.{run_serial}
use oox_kirkon_fork.TaskBench.Graph.Accepted.{make_graph, accepted_config_completes}
use oox_kirkon_fork.TaskBench.Graph.Serial.Rows.{IsRow, IsSound, deps-Ends, run_serial-Row}

dependency_columns-Within_example :
    Within 4 (1 ∷ 3 ∷ []) × IsAscending (1 ∷ 3 ∷ []) × (2 ≤ max_deps)
unfolding dependency_columns
dependency_columns-Within_example =
    dependency_columns-Within 9 fft 1 3 4 2 1 (1 ∷ 3 ∷ []) (omega arith) (2, omega arith, refl) refl

columns_outside_example :
    ((validate_config 4 (record default_config { pattern = fft; width = pos 1 }) ≡ none)
      × (out : List ℕ) × (dependency_columns 9 fft 1 3 1 5 0 ≡ some out)
      × (out ≡ 0 ∷ 1 ∷ [])
      × ¬ (Within 1 out))
    × ((validate_config 4 (record default_config { pattern = tree; width = pos 7 }) ≡ none)
        × (out : List ℕ) × (dependency_columns 9 tree 1 3 7 1 6 ≡ some out)
        × (out ≡ 6 ∷ 7 ∷ [])
        × ¬ (Within 7 out))
unfolding validate_config
columns_outside_example =
    columns_outside 4 default_config 9 1 3 5 3 refl (omega arith) (omega arith)

-- Three columns and four rows, where a point depends on its neighbours.
abbrev small : Graph
small = record {
  height = 4;
  width = 3;
  graphs = 1;
  pattern = stencil;
  radix = 3;
  output_bytes = 2;
  seed = 1;
  validate = true;
  fuel = 9;
}

small-IsSound : IsSound small
small-IsSound = record { suits = tt; tall = omega arith; ends = deps-Ends small (λ e. cc) }

-- A kernel that gives the seed back.
abbrev kernel : RunKernel
kernel graph row col seed = seed

run_serial-Row_example :
    (ts : List Token) × (run_serial kernel small 0 ≡ ok ts) × IsRow 2 0 3 0 ts × (length ts ≡ 3)
run_serial-Row_example = run_serial-Row kernel small small-IsSound 0

accepted_config_completes_example :
    (g : Graph) × (ts : List Token) × (make_graph 4 9 default_config ≡ some g)
    × (run_serial kernel g 0 ≡ ok ts)
    × IsRow 16 0 (g.height - 1) 0 ts
    × (length ts ≡ 4)
unfolding validate_config
accepted_config_completes_example =
    accepted_config_completes kernel 4 9 default_config 0 refl (λ e. cc) (λ e. cc) (λ e. cc)

reverse_deps-deps_example : has_column 2 (0 ∷ 1 ∷ 2 ∷ []) ≡ has_column 1 (1 ∷ 2 ∷ [])
unfolding contains_point deps reverse_deps dependency_columns
reverse_deps-deps_example =
    reverse_deps-deps small 1 1 2 (0 ∷ 1 ∷ 2 ∷ []) (1 ∷ 2 ∷ []) refl (omega arith) refl
      (omega arith) refl

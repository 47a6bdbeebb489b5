-- ===== src/TaskBench/Graph/Accepted.antt =====
-- The graph that benchmarks/taskbench/taskbench_graph.h makes of a configuration, and the run of
-- runner_serial.h on it.
use oox_kirkon_fork.Base.{
  ℕ, zero, suc, ◌-◌, ◌^◌, ◌<◌, ◌≡◌, ◌≢◌, refl, ap, Option, none, some, List, arith, length, true,
}
use oox_kirkon_fork.Base.Int.{ℤ, pos, negsuc, is_positive}
use oox_kirkon_fork.TaskBench.Config.{
  Pattern, trivial, stencil, sweep, nearest, spread, fft, tree, random, Config, resolved_width,
  validate_config,
}
use oox_kirkon_fork.TaskBench.Config.Validity.{validate_config-IsValid}
use oox_kirkon_fork.TaskBench.Patterns.Bounds.{Suits}
use oox_kirkon_fork.TaskBench.Graph.{Graph, Token, ok, RunKernel}
use oox_kirkon_fork.TaskBench.Graph.Serial.{run_serial}
use oox_kirkon_fork.TaskBench.Graph.Serial.Rows.{IsRow, IsSound, deps-Ends, run_serial-Row}

-- A field that `validate_config` has found not to be negative.
abbrev pub checked : ℤ → ℕ
checked (pos n) = n
checked (negsuc n) = 0

-- What a `Graph` keeps. The number of processors and the fuel for the random pattern are parameters.
abbrev pub graph_of : (hardware_concurrency fuel : ℕ) → Config → Graph
graph_of hc fuel cfg = record {
  height = checked cfg.height;
  width = checked (resolved_width hc cfg);
  graphs = checked cfg.graphs;
  pattern = cfg.pattern;
  radix = checked cfg.radix;
  output_bytes = cfg.output_bytes;
  seed = cfg.seed;
  validate = cfg.validate;
  fuel = fuel;
}

-- The constructor of `Graph`: `none` is the exception of `validate_config`.
unfoldable pub make_graph : (hardware_concurrency fuel : ℕ) → Config → Option Graph
make_graph hc fuel cfg = elim (validate_config hc cfg) [
  | some e ↦ none
  | none ↦ some (graph_of hc fuel cfg)
]

checked-positive : (z : ℤ) → is_positive z ≡ true → 0 < checked z
checked-positive (pos zero) h = cc
checked-positive (pos (suc n)) h = omega arith
checked-positive (negsuc n) h = cc

-- What `validate_config` demands of a width, with the two demands that it lacks.
checked-Suits :
    (p : Pattern) (w : ℤ)
    → (p ≡ fft → (k : ℕ) × (w ≡ pos (2 ^ k)))
    → (p ≡ fft → w ≢ pos 1)
    → (p ≡ tree → (k : ℕ) × (w ≡ pos (2 ^ k)))
    → Suits p (checked w)
checked-Suits trivial w a b c = tt
checked-Suits stencil w a b c = tt
checked-Suits sweep w a b c = tt
checked-Suits nearest w a b c = tt
checked-Suits spread w a b c = tt
checked-Suits random w a b c = tt
checked-Suits tree w a b c = let (k, e) = c refl in (k, ap checked e)
checked-Suits fft w a b c = let (k, e) = a refl in above_one k e
  where
    above_one : (k : ℕ) → w ≡ pos (2 ^ k) → (n : ℕ) × (0 < n) × (checked w ≡ 2 ^ n)
    above_one zero e = absurd (b refl e)
    above_one (suc k) e = (suc k, omega arith, ap checked e)

-- Let `validate_config` accept a configuration, with any pattern but the random one, and let its width
-- not be 1 for the FFT pattern and be a power of two for the tree pattern, which `validate_config` does
-- not check. Then its graph is made, each graph runs on the serial runner to the end, whatever the
-- kernel, and what is left is the last row, with a valid token for every column.
pub accepted_config_completes :
    (run_kernel : RunKernel) (hc fuel : ℕ) (cfg : Config) (graph_id : ℕ)
    → validate_config hc cfg ≡ none
    → cfg.pattern ≢ random
    → (cfg.pattern ≡ fft → resolved_width hc cfg ≢ pos 1)
    → (cfg.pattern ≡ tree → (k : ℕ) × (resolved_width hc cfg ≡ pos (2 ^ k)))
    → (g : Graph) × (ts : List Token) × (make_graph hc fuel cfg ≡ some g)
      × (run_serial run_kernel g graph_id ≡ ok ts)
      × IsRow cfg.output_bytes graph_id (g.height - 1) 0 ts
      × (length ts ≡ checked (resolved_width hc cfg))
unfolding make_graph
accepted_config_completes run_kernel hc fuel cfg graph_id accepted ne wide power =
    let valid = validate_config-IsValid hc cfg accepted in
    let g = graph_of hc fuel cfg in
    let sound : IsSound g = record {
      suits = checked-Suits cfg.pattern (resolved_width hc cfg) valid.fft_width wide power;
      tall = checked-positive cfg.height valid.height;
      ends = deps-Ends g ne;
    } in
    let (ts, e, row, n) = run_serial-Row run_kernel g sound graph_id in
    (g, ts, rw (accepted, make_graph) refl, e, row, n)

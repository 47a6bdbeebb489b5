-- ===== src/TaskBench/Patterns/Ends.antt =====
-- The loops of benchmarks/taskbench/taskbench_patterns.h that need no fuel.
use oox_kirkon_fork.Base.{
  ℕ, ◌≡◌, refl, ◌≢◌, ◌==◌, ◌||◌, none, some, List, arith, Bool-cases, inl, inr,
}
use oox_kirkon_fork.TaskBench.Config.{
  Pattern, trivial, stencil, sweep, nearest, spread, fft, tree, random,
}
use oox_kirkon_fork.TaskBench.Patterns.{dependency_columns, pattern_deps, is_trivial}

pattern_deps-Ends :
    (fuel : ℕ) (p : Pattern) (seed radix width row col : ℕ)
    → p ≢ random
    → (out : List ℕ) × (pattern_deps fuel p seed radix width row col ≡ some out)
unfolding pattern_deps
pattern_deps-Ends fuel trivial seed radix width row col ne = (_, refl)
pattern_deps-Ends fuel stencil seed radix width row col ne = (_, refl)
pattern_deps-Ends fuel sweep seed radix width row col ne = (_, refl)
pattern_deps-Ends fuel nearest seed radix width row col ne = (_, refl)
pattern_deps-Ends fuel spread seed radix width row col ne = (_, refl)
pattern_deps-Ends fuel fft seed radix width row col ne = (_, refl)
pattern_deps-Ends fuel tree seed radix width row col ne = (_, refl)
pattern_deps-Ends fuel random seed radix width row col ne = absurd (ne refl)

-- The dependencies of a point are found whatever the fuel, for every pattern but the random one.
pub dependency_columns-Ends :
    (fuel : ℕ) (p : Pattern) (seed radix width row col : ℕ)
    → p ≢ random
    → dependency_columns fuel p seed radix width row col ≢ none
unfolding dependency_columns
dependency_columns-Ends fuel p seed radix width row col ne e =
    let (out, found) = pattern_deps-Ends fuel p seed radix width row col ne in
    elim (Bool-cases (row == 0 || is_trivial p)) [
      | inl first ↦ ground arith
      | inr later ↦ ground (arith, found)
    ]

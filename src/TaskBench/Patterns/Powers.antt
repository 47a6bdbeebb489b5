-- ===== src/TaskBench/Patterns/Powers.antt =====
-- Widths at which a pattern of benchmarks/taskbench/taskbench_patterns.h leaves the graph.
use oox_kirkon_fork.Base.{
  ℕ, zero, suc, ◌+◌, ◌-◌, ◌*◌, ◌/◌, ◌%◌, ◌≤◌, ◌<◌, ◌≡◌, refl, ◌==◌, false, none, some, List, [],
  ◌∷◌, arith, ◌∙◌, ap,
}
use Prim.Native.Nat.{bit_xor, differ}
use oox_kirkon_fork.Base.Digits.{bit_xor-halves}
use oox_kirkon_fork.TaskBench.Config.{fft, tree, Config, validate_config}
use oox_kirkon_fork.Base.Int.{pos}
use oox_kirkon_fork.TaskBench.Patterns.{
  dependency_columns, count_levels, levels_of, tree_level, tree_deps, finish_deps,
}
use oox_kirkon_fork.TaskBench.Patterns.Bounds.{Within}

-- The FFT pattern at width 1, which `validate_config` lets pass: every point above the first row
-- depends on column 1, which the graph does not have.
fft_width_one :
    (fuel seed radix row : ℕ)
    → 0 < row
    → (out : List ℕ) × (dependency_columns fuel fft seed radix 1 row 0 ≡ some out)
      × (out ≡ 0 ∷ 1 ∷ [])
      × ¬ (Within 1 out)
unfolding dependency_columns
fft_width_one fuel seed radix row h =
    let b : (row - 1) % 1 ≡ 0 = omega arith in
    let later : (row == 0) ≡ false = ground arith in
    (0 ∷ 1 ∷ [], rw (later, b) refl, refl, λ w. omega arith)

differ-zero : (x : ℕ) → differ x 0 ≡ x
differ-zero zero = refl
differ-zero (suc x) = refl

bit_xor-zero : (fuel a : ℕ) → a ≤ fuel → bit_xor a 0 ≡ a
bit_xor-zero zero zero le = refl
bit_xor-zero zero (suc a) le = absurd (omega arith)
bit_xor-zero (suc f) zero le = refl
bit_xor-zero (suc f) (suc a) le = omega (
  arith,
  bit_xor-halves (suc a) 0,
  bit_xor-zero f (suc a / 2) (omega arith),
  differ-zero (suc a % 2),
)

even-bit_xor-one : (m : ℕ) → bit_xor (2 * m) 1 ≡ 2 * m + 1
even-bit_xor-one m =
    let h : 2 * m / 2 ≡ m = omega arith in
    let d : 2 * m % 2 ≡ 0 = omega arith in
    let e : bit_xor (2 * m) 1 ≡ 2 * bit_xor m 0 + 1 = bit_xor-halves (2 * m) 1 ∙ rw (h, d) refl in
    omega (arith, e, bit_xor-zero m m (omega arith))

count_levels-le : (f w l : ℕ) → l ≤ count_levels f w l
unfolding count_levels
count_levels-le zero w l = omega arith
count_levels-le (suc f) w l = ground (arith, count_levels-le f (w / 2) (l + 1))

levels_of-pos : (w : ℕ) → 1 < w → 0 < levels_of w
unfolding levels_of
levels_of-pos zero h = absurd (omega arith)
levels_of-pos (suc w) h = ground (arith, count_levels-le w (suc w / 2) 1)

tree_level-first : (levels : ℕ) → 0 < levels → tree_level levels 1 ≡ 0
unfolding tree_level
tree_level-first levels h = let z : (1 - 1) % (2 * levels) ≡ 0 = omega arith in rw z (ground arith)

tree_deps-first : (w c : ℕ) → 1 < w → tree_deps [] w 1 c ≡ c ∷ bit_xor c 1 ∷ []
unfolding tree_deps
tree_deps-first w c h =
    let z : tree_level (levels_of w) 1 ≡ 0 = tree_level-first (levels_of w) (levels_of-pos w h) in
    let n : (levels_of w == 0) ≡ false = ground (arith, levels_of-pos w h) in rw (n, z) refl

finish_two : (c : ℕ) → finish_deps (c ∷ (c + 1) ∷ []) ≡ c ∷ (c + 1) ∷ []
unfolding finish_deps
finish_two c = ground arith

-- The tree pattern at an odd width above 1: the last column of the second row depends on the column
-- that follows it, which the graph does not have.
tree_odd_width :
    (fuel seed radix m : ℕ)
    → 0 < m
    → (out : List ℕ) × (dependency_columns fuel tree seed radix (2 * m + 1) 1 (2 * m) ≡ some out)
      × (out ≡ (2 * m) ∷ (2 * m + 1) ∷ [])
      × ¬ (Within (2 * m + 1) out)
unfolding dependency_columns
tree_odd_width fuel seed radix m h = (
  (2 * m) ∷ (2 * m + 1) ∷ [],
  rw (tree_deps-first (2 * m + 1) (2 * m) (omega arith), even-bit_xor-one m)
      (ap some (finish_two (2 * m))),
  refl,
  λ w. omega arith,
)

-- `validate_config` does not look at the width of the tree pattern, and takes 1 for a power of two.
widths_accepted :
    (hc : ℕ) (cfg : Config) (m : ℕ)
    → validate_config hc cfg ≡ none
    → (validate_config hc (record cfg { pattern = fft; width = pos 1 }) ≡ none)
      × (validate_config hc (record cfg { pattern = tree; width = pos (2 * m + 1) }) ≡ none)
unfolding validate_config
widths_accepted hc cfg m ok =
    let odd : 2 * m + 1 ≡ suc (2 * m) = omega arith in (ground arith, rw odd (ground arith))

-- From any configuration that `validate_config` accepts, it also accepts the ones with the FFT pattern
-- at width 1 and with the tree pattern at an odd width above 1. But the FFT pattern at width 1 makes
-- every point above the first row depend on column 1, and the tree pattern at an odd width above 1
-- makes the last column of the second row depend on the column that follows it. Neither column is in
-- the graph.
pub columns_outside :
    (hc : ℕ) (cfg : Config) (fuel seed radix row m : ℕ)
    → validate_config hc cfg ≡ none
    → 0 < row
    → 0 < m
    → ((validate_config hc (record cfg { pattern = fft; width = pos 1 }) ≡ none)
        × (out : List ℕ) × (dependency_columns fuel fft seed radix 1 row 0 ≡ some out)
        × (out ≡ 0 ∷ 1 ∷ [])
        × ¬ (Within 1 out))
      × ((validate_config hc (record cfg { pattern = tree; width = pos (2 * m + 1) }) ≡ none)
          × (out : List ℕ) × (dependency_columns fuel tree seed radix (2 * m + 1) 1 (2 * m)
              ≡ some out)
          × (out ≡ (2 * m) ∷ (2 * m + 1) ∷ [])
          × ¬ (Within (2 * m + 1) out))
columns_outside hc cfg fuel seed radix row m accepted later wide =
    let (first, second) = widths_accepted hc cfg m accepted in
    let (a, b, c, d) = fft_width_one fuel seed radix row later in
    let (x, y, z, w) = tree_odd_width fuel seed radix m wide in
    ((first, a, b, c, d), (second, x, y, z, w))

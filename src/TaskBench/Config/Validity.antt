-- ===== src/TaskBench/Config/Validity.antt =====
-- What benchmarks/taskbench/taskbench_config.h accepts.
use oox_kirkon_fork.Base.{
  ℕ, ◌≡◌, refl, true, false, none, some, arith, ◌<◌, ◌^◌, ◌-◌, zero, suc, ap, ◌∙◌, ◌↔◌,
}
use Prim.Native.Nat.{bit_and}
use native.Mathlib.Nat.{le_refl}
use oox_kirkon_fork.Base.Digits.{power_of_two}
use Prim.Native.String.{String}
use text.Mathlib.TextEquality.{eq_iff}
use oox_kirkon_fork.Base.Int.{ℤ, pos, negsuc, is_negative, is_positive}
use oox_kirkon_fork.TaskBench.Config.{
  Pattern, trivial, stencil, sweep, nearest, spread, fft, tree, random, Kernel, Config,
  pattern_to_string, kernel_to_string, parse_pattern, parse_kernel, resolved_width,
  not_power_of_two, validate_config,
}

-- Every pattern and every kernel is parsed from the word that it is printed as.
parse_printed :
    ((p : Pattern) → parse_pattern (pattern_to_string p) ≡ some p)
    × ((k : Kernel) → parse_kernel (kernel_to_string k) ≡ some k)
unfolding parse_pattern parse_kernel
parse_printed = (
  elim [
    | trivial ↦ refl
    | stencil ↦ refl
    | sweep ↦ refl
    | nearest ↦ refl
    | spread ↦ refl
    | fft ↦ refl
    | tree ↦ refl
    | random ↦ refl
  ],
  elim [ Kernel.empty ↦ refl | Kernel.compute ↦ refl | Kernel.memory ↦ refl ],
)

-- A word that parses as a pattern is the word that the pattern is printed as, so no two words parse
-- alike; likewise for kernels.
parsed_is_printed :
    (s : String)
    → ((p : Pattern) → parse_pattern s ≡ some p → s ≡ pattern_to_string p)
      × ((k : Kernel) → parse_kernel s ≡ some k → s ≡ kernel_to_string k)
unfolding parse_pattern parse_kernel
parsed_is_printed s = (
  λ p e. ground (
    arith,
    eq_iff s "trivial",
    eq_iff s "stencil",
    eq_iff s "sweep",
    eq_iff s "nearest",
    eq_iff s "spread",
    eq_iff s "fft",
    eq_iff s "tree",
    eq_iff s "random",
  ),
  λ k e. ground (arith, eq_iff s "empty", eq_iff s "compute", eq_iff s "memory"),
)

-- A word parses as a pattern exactly if it is the word that the pattern is printed as; likewise for
-- kernels.
parse_round_trip :
    (s : String)
    → ((p : Pattern) → (parse_pattern s ≡ some p) ↔ (s ≡ pattern_to_string p))
      × ((k : Kernel) → (parse_kernel s ≡ some k) ↔ (s ≡ kernel_to_string k))
parse_round_trip s = (
  λ p. ((parsed_is_printed s).0 p, λ e. ap parse_pattern e ∙ parse_printed.0 p),
  λ k. ((parsed_is_printed s).1 k, λ e. ap parse_kernel e ∙ parse_printed.1 k),
)

-- What a valid configuration satisfies, for a machine that reports `hc` processors.
pub record IsValid (hc : ℕ) (cfg : Config) : Type 0 where
  pub height : is_positive cfg.height ≡ true
  pub width : is_negative cfg.width ≡ false
  pub threads : is_negative cfg.threads ≡ false
  pub graphs : is_positive cfg.graphs ≡ true
  pub radix : is_negative cfg.radix ≡ false
  pub iterations : is_negative cfg.iterations ≡ false
  pub repetitions : is_positive cfg.repetitions ≡ true
  pub warmups : is_negative cfg.warmups ≡ false
  pub imbalance : cfg.imbalance_negative ≡ false
  pub resolved : (w : ℕ) × (resolved_width hc cfg ≡ pos w) × (0 < w)
  pub fft_width : cfg.pattern ≡ fft → (k : ℕ) × (resolved_width hc cfg ≡ pos (2 ^ k))

positive_pos : (z : ℤ) → is_positive z ≡ true → (w : ℕ) × (z ≡ pos w) × (0 < w)
positive_pos (pos zero) h = cc
positive_pos (pos (suc n)) h = (suc n, refl, omega arith)
positive_pos (negsuc n) h = cc

resolved_width-pos : (hc : ℕ) (cfg : Config) → (w : ℕ) × (resolved_width hc cfg ≡ pos w) × (0 < w)
unfolding resolved_width
resolved_width-pos hc cfg = positive_pos (resolved_width hc cfg) (ground arith)

fft_width-power :
    (hc : ℕ) (cfg : Config)
    → not_power_of_two (resolved_width hc cfg) ≡ false
    → (k : ℕ) × (resolved_width hc cfg ≡ pos (2 ^ k))
unfolding not_power_of_two
fft_width-power hc cfg h =
    let (w, e, p) = resolved_width-pos hc cfg in
    let z : bit_and w (w - 1) ≡ 0 = ground arith in
    let (k, q) = power_of_two w w (le_refl w) p z in (k, e ∙ ap pos q)

-- A configuration that `validate_config` accepts is valid: in range in every field, with a positive
-- width and, for the FFT pattern, one that is a power of two.
pub validate_config-IsValid :
    (hc : ℕ) (cfg : Config) → validate_config hc cfg ≡ none → IsValid hc cfg
unfolding validate_config
validate_config-IsValid hc cfg ok = record {
  height = ground arith;
  width = ground arith;
  threads = ground arith;
  graphs = ground arith;
  radix = ground arith;
  iterations = ground arith;
  repetitions = ground arith;
  warmups = ground arith;
  imbalance = ground arith;
  resolved = resolved_width-pos hc cfg;
  fft_width = λ e. fft_width-power hc cfg (ground arith);
}

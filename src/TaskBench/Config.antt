-- ===== src/TaskBench/Config.antt =====
-- benchmarks/taskbench/taskbench_config.h: the configuration and its validation.
pub mod Validity
use oox_kirkon_fork.Base.{
  ℕ, zero, suc, ◌-◌, ◌==◌, ltb, Bool, true, false, not, ◌&&◌, ◌||◌, Option, none, some,
  if◌then◌else◌,
}
use Prim.Native.Nat.{bit_and}
use Prim.Native.String.{String}
use text.Mathlib.Text.{◌==◌ as str_eq}
use oox_kirkon_fork.Base.Int.{ℤ, pos, negsuc, is_negative, is_positive}

pub data Pattern : Type 0 where
  trivial stencil sweep nearest spread fft tree random : Pattern

pub data Kernel : Type 0 where
  empty compute memory : Kernel

-- `imbalance` is a `double`, of which only the sign is kept here.
pub record Config : Type 0 where
  pub height : ℤ
  pub width : ℤ
  pub threads : ℤ
  pub graphs : ℤ
  pub pattern : Pattern
  pub kernel : Kernel
  pub radix : ℤ
  pub iterations : ℤ
  pub output_bytes : ℕ
  pub scratch_bytes : ℕ
  pub imbalance_negative : Bool
  pub seed : ℕ
  pub validate : Bool
  pub csv : Bool
  pub repetitions : ℤ
  pub warmups : ℤ

abbrev pub default_config : Config
default_config = record {
  height = pos 1000;
  width = pos 0;
  threads = pos 0;
  graphs = pos 1;
  pattern = stencil;
  kernel = compute;
  radix = pos 3;
  iterations = pos 1;
  output_bytes = 16;
  scratch_bytes = 0;
  imbalance_negative = false;
  seed = 1;
  validate = true;
  csv = true;
  repetitions = pos 5;
  warmups = pos 1;
}

abbrev pub pattern_to_string : Pattern → String
pattern_to_string trivial = "trivial"
pattern_to_string stencil = "stencil"
pattern_to_string sweep = "sweep"
pattern_to_string nearest = "nearest"
pattern_to_string spread = "spread"
pattern_to_string fft = "fft"
pattern_to_string tree = "tree"
pattern_to_string random = "random"

abbrev pub kernel_to_string : Kernel → String
kernel_to_string empty = "empty"
kernel_to_string compute = "compute"
kernel_to_string memory = "memory"

-- `none` is the exception.
unfoldable pub parse_pattern : String → Option Pattern
parse_pattern value =
    if str_eq value "trivial"
    then some trivial
    else if str_eq value "stencil"
    then some stencil
    else if str_eq value "sweep"
    then some sweep
    else if str_eq value "nearest"
    then some nearest
    else if str_eq value "spread"
    then some spread
    else if str_eq value "fft"
    then some fft
    else if str_eq value "tree"
    then some tree
    else if str_eq value "random"
    then some random
    else none

unfoldable pub parse_kernel : String → Option Kernel
parse_kernel value =
    if str_eq value "empty"
    then some empty
    else if str_eq value "compute"
    then some compute
    else if str_eq value "memory"
    then some memory
    else none

-- The build without TBB and OpenMP; `hardware_concurrency` is a parameter.
unfoldable pub default_worker_threads : ℕ → ℤ
default_worker_threads hardware_concurrency =
    if hardware_concurrency == 0 then pos 1 else pos hardware_concurrency

unfoldable pub resolved_threads : ℕ → Config → ℤ
unfolding default_worker_threads
resolved_threads hc cfg = if is_positive cfg.threads then cfg.threads else default_worker_threads hc

unfoldable pub resolved_width : ℕ → Config → ℤ
unfolding resolved_threads
resolved_width hc cfg = if is_positive cfg.width then cfg.width else resolved_threads hc cfg

pub data ConfigError : Type 0 where
  bad_height bad_width bad_threads bad_graphs bad_radix bad_iterations bad_repetitions : ConfigError
  bad_warmups bad_imbalance bad_resolved_width bad_fft_width : ConfigError

abbrev pub is_fft : Pattern → Bool
is_fft fft = true
is_fft _ = false

-- `(width & (width - 1)) != 0`, for a positive width.
unfoldable pub not_power_of_two : ℤ → Bool
not_power_of_two (pos w) = not (bit_and w (w - 1) == 0)
not_power_of_two (negsuc w) = true

-- `none` where no exception is thrown.
unfoldable pub validate_config : ℕ → Config → Option ConfigError
unfolding resolved_width not_power_of_two
validate_config hc cfg =
    if not (is_positive cfg.height)
    then some bad_height
    else if is_negative cfg.width
    then some bad_width
    else if is_negative cfg.threads
    then some bad_threads
    else if not (is_positive cfg.graphs)
    then some bad_graphs
    else if is_negative cfg.radix
    then some bad_radix
    else if is_negative cfg.iterations
    then some bad_iterations
    else if not (is_positive cfg.repetitions)
    then some bad_repetitions
    else if is_negative cfg.warmups
    then some bad_warmups
    else if cfg.imbalance_negative
    then some bad_imbalance
    else if not (is_positive (resolved_width hc cfg))
    then some bad_resolved_width
    else if is_fft cfg.pattern && not_power_of_two (resolved_width hc cfg)
    then some bad_fft_width
    else none

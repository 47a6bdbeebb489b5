-- ===== src/TaskBench/Kernels.antt =====
-- benchmarks/taskbench/taskbench_kernels.h: hashes and kernels on 64-bit words. An `int` argument is
-- not negative here, as the graph's points are not.
use oox_kirkon_fork.Base.{
  ℕ, zero, suc, ◌+◌, ◌-◌, ◌*◌, ◌/◌, ◌%◌, ◌^◌, ◌≡◌, refl, ◌==◌, ◌||◌, if◌then◌else◌, none, some,
  List, ◌++◌, length, get_elem?, set, replicate,
}
use oox_kirkon_fork.TaskBench.Config.{Kernel, empty, compute, memory}
use Prim.Native.Nat.{bit_xor}

-- a `std::uint64_t`
abbrev pub u64 : ℕ → ℕ
u64 x = x % 2 ^ 64

-- The steps of `mix64`, each on the word that the one before gives.
unfoldable pub mix64 : ℕ → ℕ
mix64 x =
    let a = u64 (x + 0x9e3779b97f4a7c15) in
    let b = u64 (bit_xor a (a / 2 ^ 30) * 0xbf58476d1ce4e5b9) in
    let c = u64 (bit_xor b (b / 2 ^ 27) * 0x94d049bb133111eb) in bit_xor c (c / 2 ^ 31)

unfoldable pub hash_point : (seed graph row col : ℕ) → ℕ
unfolding mix64
hash_point seed graph row col =
    let x = bit_xor seed (mix64 (u64 (graph + 0x10000))) in
    let y = bit_xor x (mix64 (u64 (row + 0x20000))) in
    let z = bit_xor y (mix64 (u64 (col + 0x30000))) in mix64 z

-- A byte of the scratch memory; the index is within it.
abbrev byte_at : List ℕ → ℕ → ℕ
byte_at scratch idx = elim (get_elem? scratch idx) [ none ↦ 0 | some b ↦ b ]

-- The loop of `memory_kernel` from `k` on: `x` and the scratch memory that is left.
unfoldable pub memory_loop : (rounds k scratch_bytes x : ℕ) → (scratch : List ℕ) → ℕ × List ℕ
unfolding mix64
memory_loop zero k scratch_bytes x scratch = (x, scratch)
memory_loop (suc rounds) k scratch_bytes x scratch =
    let y = mix64 (u64 (x + k)) in
    let idx = y % scratch_bytes in
    let old = byte_at scratch idx in
    let next = bit_xor old (y % 256) in
    memory_loop rounds (suc k) scratch_bytes (bit_xor y (u64 (old + idx))) (set scratch idx next)

-- `scratch.resize`, where the scratch memory of the thread is too small.
abbrev resized : (scratch_bytes : ℕ) → List ℕ → List ℕ
resized scratch_bytes scratch = scratch ++ replicate (scratch_bytes - length scratch) 0

-- With the scratch memory that the thread has, and has from then on.
unfoldable pub memory_kernel : (iterations scratch_bytes seed : ℕ) → (scratch : List ℕ) → ℕ × List ℕ
unfolding mix64 memory_loop
memory_kernel iterations scratch_bytes seed scratch =
    if scratch_bytes == 0 || iterations == 0
    then (mix64 seed, scratch)
    else let (x, left) =
        memory_loop iterations 0 scratch_bytes seed (resized scratch_bytes scratch) in
      (mix64 x, left)

-- What `run_kernel` is given besides the point: the kernel and the size of the configuration, the
-- functions with floating point, `local_iterations` and `compute_kernel`, which are parameters, and the
-- scratch memory that the call for a point finds, which the calls before it have left on its thread.
pub record KernelCalls : Type 0 where
  pub kernel : Kernel
  pub scratch_bytes : ℕ
  pub local_iterations : (graph row col : ℕ) → ℕ
  pub compute_kernel : (iterations x : ℕ) → ℕ
  pub scratch : (graph row col : ℕ) → List ℕ

unfoldable pub run_kernel : KernelCalls → (graph row col seed : ℕ) → ℕ
unfolding mix64 memory_kernel
run_kernel calls graph row col seed =
    let iters = calls.local_iterations graph row col in
    elim calls.kernel [
      | empty ↦ mix64 seed
      | compute ↦ calls.compute_kernel iters seed
      | memory ↦ (memory_kernel iters calls.scratch_bytes seed (calls.scratch graph row col)).0
    ]

-- The scratch memory makes a difference for the memory kernel only.
pub run_kernel-same :
    (calls : KernelCalls) (other : (graph row col : ℕ) → List ℕ)
    → (calls.kernel ≡ memory
        → (graph row col : ℕ) → other graph row col ≡ calls.scratch graph row col)
    → run_kernel (record calls { scratch = other }) ≡ run_kernel calls
unfolding run_kernel
run_kernel-same calls other same =
    λ i graph row col seed. by_kernel graph row col seed calls.kernel refl i
  where
    by_kernel :
        (graph row col seed : ℕ) (k : Kernel)
        → calls.kernel ≡ k
        → run_kernel (record calls { scratch = other }) graph row col seed
          ≡ run_kernel calls graph row col seed
    by_kernel graph row col seed empty e = rw (run_kernel, e) refl
    by_kernel graph row col seed compute e = rw (run_kernel, e) refl
    by_kernel graph row col seed memory e = rw (run_kernel, e, same e graph row col) refl

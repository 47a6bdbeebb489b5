-- ===== src/TaskBench/Graph/Oox/Schedules.antt =====
-- benchmarks/taskbench/runner_oox.h in any order that the dependencies allow, against runner_serial.h.
use oox_kirkon_fork.Base.{
  ℕ, zero, suc, ◌-◌, ◌*◌, ◌<◌, ◌≤◌, ◌≡◌, ◌≢◌, refl, ap, ◌⊎◌, ◌∙◌, arith, true, false, some, none,
  List, [], ◌∷◌, All, length, get_elem?, Option-cases, inl, inr, ◌==◌, Bool-cases, sym,
}
use oox_kirkon_fork.Runtime.Dependence.{Values, State, Step, Reach, is_used}
use oox_kirkon_fork.Runtime.Dependence.Equivalence.{serial_equivalence}
use oox_kirkon_fork.Runtime.Dependence.Progress.{AreDistinct, All-map, ready_task}
use oox_kirkon_fork.TaskBench.Config.{memory}
use oox_kirkon_fork.TaskBench.Kernels.{KernelCalls, run_kernel, run_kernel-same}
use oox_kirkon_fork.TaskBench.Patterns.{max_deps}
use oox_kirkon_fork.TaskBench.Patterns.Sorting.{IsAscending, AscendingAfter}
use oox_kirkon_fork.TaskBench.Patterns.Bounds.{Within}
use oox_kirkon_fork.TaskBench.Graph.{Token, Graph, deps, ok, RunKernel, task_count}
use oox_kirkon_fork.TaskBench.Graph.Serial.{run_serial}
use oox_kirkon_fork.TaskBench.Graph.Serial.Rows.{IsSound, deps-Within, deps-first, run_serial-Row}
use oox_kirkon_fork.TaskBench.Graph.Oox.{
  Value, read_each, impl_args, point_at, prev_variable, point_args, run_oox,
}
use oox_kirkon_fork.TaskBench.Graph.Oox.Places.{
  variable, point, variable-prev, variable-before, variable-count, point-variable,
}
use oox_kirkon_fork.TaskBench.Graph.Oox.Tokens.{
  value, serial-value, written_own, made_args, run_point_with_deps-some,
}
use oox_kirkon_fork.TaskBench.Graph.Oox.Rows.{run_serial-Agrees}

-- No variable of a row is read twice.
read_each-apart :
    (prev : ℕ → ℕ) (v : ℕ) (ds : List ℕ) (P : ℕ → Type 0)
    → ((d : ℕ) → P d → (prev d == v) ≡ false)
    → All P ds
    → is_used (read_each prev ds) v ≡ false
read_each-apart prev v [] P h k = refl
read_each-apart prev v (d ∷ ds) P h k = ground (arith, h d k.0, read_each-apart prev v ds P h k.1)

AscendingAfter-All : (x : ℕ) (ds : List ℕ) → AscendingAfter x ds → All (λ d. x < d) ds
AscendingAfter-All x [] h = tt
AscendingAfter-All x (d ∷ ds) h = (h.0, All-later x d ds h.0 (AscendingAfter-All d ds h.1))
  where
    All-later : (x d : ℕ) (ds : List ℕ) → x < d → All (λ c. d < c) ds → All (λ c. x < c) ds
    All-later x d [] lt k = tt
    All-later x d (c ∷ cs) lt k = (omega (arith, k.0), All-later x d cs lt k.1)

IsAscending-tail : (d : ℕ) (ds : List ℕ) → AscendingAfter d ds → IsAscending ds
IsAscending-tail d [] h = tt
IsAscending-tail d (c ∷ cs) h = h.1

read_each-AreDistinct :
    (g : Graph) (n col : ℕ) (ds : List ℕ)
    → IsAscending ds
    → AreDistinct (read_each (prev_variable g n col) ds)
read_each-AreDistinct g n col [] h = tt
read_each-AreDistinct g n col (d ∷ ds) h = (
  read_each-apart (prev_variable g n col) (prev_variable g n col d) ds (λ c. d < c)
      (λ c lt. ground arith) (AscendingAfter-All d ds h),
  read_each-AreDistinct g n col ds (IsAscending-tail d ds h),
)

positive_of : (a b c n : ℕ) → n < a * b * c → (0 < b) × (0 < c)
positive_of a zero c n lt = let z : a * 0 * c ≡ 0 = omega arith in absurd (omega arith)
positive_of a (suc b) zero n lt = let z : a * suc b * 0 ≡ 0 = omega arith in absurd (omega arith)
positive_of a (suc b) (suc c) n lt = (omega arith, omega arith)

-- No task reads its own variable.
reads_before :
    (g : Graph) (n row graph_id col : ℕ) (ds : List ℕ)
    → n ≡ variable g row graph_id col
    → graph_id < g.graphs
    → Within g.width ds
    → deps g row col ≡ some ds
    → All (λ d. (prev_variable g n col d == n) ≡ false) ds
reads_before g n zero i col ds q il w found =
    let none_at_all : some [] ≡ some ds = sym (deps-first g col) ∙ found in
    let same : [] ≡ ds = ground arith in rw (← same) tt
reads_before g n (suc row) i col ds q il w found =
    All-map (λ d. d < g.width) (λ d. (prev_variable g n col d == n) ≡ false) ds
      (λ d lt.
        let there : prev_variable g n col d ≡ variable g row i d =
          rw q (variable-prev g row i col d) in
        let before = variable-before g row i col d il lt in
        let less : prev_variable g n col d < n = omega (arith, there, before, q) in
        ground (arith, less))
      w

module _ (run_kernel : RunKernel) (g : Graph) (sound : IsSound g) where
  -- The dependencies of the point of a call.
  found_deps :
      (n : ℕ)
      → n < task_count g
      → (row graph_id col : ℕ) × (ds : List ℕ) × (point_at g n ≡ point row graph_id col)
        × (deps g row col ≡ some ds)
        × IsAscending ds
        × (length ds ≤ max_deps)
        × All (λ d. (prev_variable g n col d == n) ≡ false) ds
  unfolding task_count
  found_deps n lt =
      let (wide, some_graph) = positive_of g.height g.width g.graphs n lt in
      let (row, i, col, e, q, il, cl) = point-variable g n wide some_graph in
      elim (Option-cases (deps g row col)) [
        | inl never ↦ absurd (sound.ends row col never)
        | inr (ds, found) ↦
            let (inside, rises, few) = deps-Within g row col ds sound.suits cl found in
            (row, i, col, ds, e, found, rises, few, reads_before g n row i col ds q il inside found)
      ]

  made_distinct : (n : ℕ) → n < task_count g → AreDistinct (run_oox run_kernel g n).args
  made_distinct n lt =
      let (row, i, col, ds, e, found, rises, few, apart) = found_deps n lt in
      rw (made_args run_kernel g n row i col ds e found few) (
        read_each-apart (prev_variable g n col) n ds (λ d. (prev_variable g n col d == n) ≡ false)
            (λ d q. q) apart,
        read_each-AreDistinct g n col ds rises,
      )

  no_exception : (n : ℕ) → n < task_count g → point_args g n (point_at g n) ≢ none
  unfolding point_args
  no_exception n lt never =
      let (row, i, col, ds, e, found, rises, few, apart) = found_deps n lt in
      let made : point_args g n (point_at g n) ≡ some (impl_args n (prev_variable g n col) ds) =
        rw (e, point_args, found, e, run_point_with_deps-some n (prev_variable g n col) ds few)
          refl in
      ground arith

  -- A variable is written by its own task only.
  final_value :
      (m : Values Value) {k : ℕ} {s : State Value} (v : ℕ)
      → Reach (run_oox run_kernel g) (task_count g) m k s
      → v < task_count g
      → s.completed v ≡ true
      → s.memory v ≡ value run_kernel g m v
  final_value m {k} {s} v r lt done =
      (serial_equivalence (run_oox run_kernel g) (task_count g) m r).1 v (λ t below wr.
        elim (Bool-cases (t == v)) [
          | inl same ↦ let q : t ≡ v = ground arith in rw q done
          | inr other ↦ let q = written_own run_kernel g t v other in absurd (ground arith)
        ])
      ∙ serial-value run_kernel g m (task_count g) v lt

  every_schedule :
      (m : Values Value) {k : ℕ} {s : State Value}
      → Reach (run_oox run_kernel g) (task_count g) m k s
      → ((n : ℕ) → n < task_count g → point_args g n (point_at g n) ≢ none)
        × (k ≤ task_count g)
        × (((t : ℕ) → t < task_count g → s.completed t ≡ true)
            ⊎ ((u : State Value) × Step (run_oox run_kernel g) (task_count g) s u))
        × ((graph_id : ℕ)
            → graph_id < g.graphs
            → (ts : List Token) × (run_serial run_kernel g graph_id ≡ ok ts)
              × ((col : ℕ)
                  → col < g.width
                  → s.completed (variable g (g.height - 1) graph_id col) ≡ true
                  → s.memory (variable g (g.height - 1) graph_id col) ≡ get_elem? ts col))
  every_schedule m {k} {s} r = (
    no_exception,
    (serial_equivalence (run_oox run_kernel g) (task_count g) m r).0,
    ready_task (run_oox run_kernel g) (task_count g) s made_distinct,
    λ i il.
        let (ts, e, row, len) = run_serial-Row run_kernel g sound i in
        (
          ts,
          e,
          λ col cl done.
              let tall = sound.tall in
              let lt = variable-count g (g.height - 1) i col (omega arith) il cl in
              final_value m (variable g (g.height - 1) i col) r lt done
              ∙ run_serial-Agrees run_kernel g sound m i il ts e col cl,
        ),
  )

-- Let a graph have a row at least, a width that suits its pattern and a search for dependencies that
-- ends, and, with the memory kernel, let each call of it find the same scratch memory in both runs. The
-- oox runner makes its tasks without an exception, and in every order in which they run, no more run
-- than there are points, and a task is left that is ready as long as not all are through. The serial
-- runner completes each graph, and when the task of a point of the last row is through, its variable
-- holds the token that the serial runner leaves there.
pub run_oox_schedules :
    (calls : KernelCalls) (other : (graph row col : ℕ) → List ℕ) (g : Graph)
    → IsSound g
    → (calls.kernel ≡ memory
        → (graph row col : ℕ) → other graph row col ≡ calls.scratch graph row col)
    → (m : Values Value) {k : ℕ} {s : State Value}
    → Reach (run_oox (run_kernel calls) g) (task_count g) m k s
    → ((n : ℕ) → n < task_count g → point_args g n (point_at g n) ≢ none)
      × (k ≤ task_count g)
      × (((t : ℕ) → t < task_count g → s.completed t ≡ true)
          ⊎ ((u : State Value) × Step (run_oox (run_kernel calls) g) (task_count g) s u))
      × ((graph_id : ℕ)
          → graph_id < g.graphs
          → (ts : List Token) × (run_serial
                (run_kernel (record calls { scratch = other }))
                g
                graph_id
              ≡ ok ts)
            × ((col : ℕ)
                → col < g.width
                → s.completed (variable g (g.height - 1) graph_id col) ≡ true
                → s.memory (variable g (g.height - 1) graph_id col) ≡ get_elem? ts col))
run_oox_schedules calls other g sound same m r =
    let (made, few, left, tokens) = every_schedule (run_kernel calls) g sound m r in
    (
      made,
      few,
      left,
      λ i il.
          let (ts, e, agree) = tokens i il in
          (ts, ap (λ k. run_serial k g i) (run_kernel-same calls other same) ∙ e, agree),
    )

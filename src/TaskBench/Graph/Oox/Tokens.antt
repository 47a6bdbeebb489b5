-- ===== src/TaskBench/Graph/Oox/Tokens.antt =====
-- The values of the tasks of benchmarks/taskbench/runner_oox.h, run one after the other, against the
-- rows of the serial runner.
use oox_kirkon_fork.Base.{
  ℕ, zero, suc, ◌+◌, ◌<◌, ◌≤◌, ◌≡◌, refl, ◌∙◌, ap, arith, ltb, ◌==◌, true, false, some, none, List,
  [], ◌∷◌, map, length, get_elem?, Option-cases, inl, inr, ℕ_discrete, dec_lt, Option,
}
use oox_kirkon_fork.Runtime.Dependence.{Values, is_written, consume_all, apply, serial}
use oox_kirkon_fork.Runtime.Dependence.Equivalence.{serial_kept}
use oox_kirkon_fork.TaskBench.Patterns.{max_deps}
use oox_kirkon_fork.TaskBench.Patterns.Bounds.{Within}
use oox_kirkon_fork.TaskBench.Graph.{Token, Graph, deps, Checked, ok, error, RunKernel, ◌>>=◌}
use oox_kirkon_fork.TaskBench.Graph.Serial.{gather}
use oox_kirkon_fork.TaskBench.Graph.Oox.{
  Value, all_tokens, execute_point_fn, read_each, impl_args, run_point_with_deps_dispatch,
  run_point_with_deps, point_at, prev_variable, point_args, args_or_none, run_oox, behind,
}
use oox_kirkon_fork.TaskBench.Graph.Oox.Places.{point}

read_each-written : (prev : ℕ → ℕ) (ds : List ℕ) (v : ℕ) → is_written (read_each prev ds) v ≡ false
read_each-written prev [] v = refl
read_each-written prev (d ∷ ds) v = read_each-written prev ds v

consume_all-read_each :
    (prev : ℕ → ℕ) (ds : List ℕ) (m : Values Value)
    → consume_all (read_each prev ds) m ≡ map (λ d. m (prev d)) ds
consume_all-read_each prev [] m = refl
consume_all-read_each prev (d ∷ ds) m = ap (λ vs. m (prev d) ∷ vs) (consume_all-read_each prev ds m)

-- The search for the number of dependencies finds it.
dispatch-some :
    (r n self : ℕ) (prev : ℕ → ℕ) (ds : List ℕ)
    → n ≤ length ds
    → length ds ≤ n + r
    → run_point_with_deps_dispatch r n self prev ds ≡ some (impl_args self prev ds)
unfolding run_point_with_deps_dispatch
dispatch-some zero n self prev ds lo hi =
    let e : (length ds == n) ≡ true = ground arith in rw e refl
dispatch-some (suc r) n self prev ds lo hi = elim (ℕ_discrete (length ds) n) [
  | yes same ↦ let e : (length ds == n) ≡ true = ground arith in rw e refl
  | no other ↦
      let e : (length ds == n) ≡ false = ground arith in
      rw e (dispatch-some r (n + 1) self prev ds (omega arith) (omega arith))
]

pub run_point_with_deps-some :
    (self : ℕ) (prev : ℕ → ℕ) (ds : List ℕ)
    → length ds ≤ max_deps
    → run_point_with_deps self prev ds ≡ some (impl_args self prev ds)
unfolding run_point_with_deps
run_point_with_deps-some self prev ds le =
    let e : ltb max_deps (length ds) ≡ false = ground arith in
    rw e (dispatch-some max_deps 0 self prev ds (omega arith) (omega arith))

too_many :
    (self : ℕ) (prev : ℕ → ℕ) (ds : List ℕ)
    → max_deps < length ds
    → run_point_with_deps self prev ds ≡ none
unfolding run_point_with_deps
too_many self prev ds lt = let e : ltb max_deps (length ds) ≡ true = ground arith in rw e refl

made_written :
    (n v : ℕ) (prev : ℕ → ℕ) (found : Option (List ℕ))
    → (n == v) ≡ false
    → is_written
        (args_or_none (elim found [ none ↦ none | some ds ↦ run_point_with_deps n prev ds ]))
        v
      ≡ false
made_written n v prev none e = refl
made_written n v prev (some ds) e = elim (dec_lt max_deps (length ds)) [
  | yes many ↦
      let none_at_all : run_point_with_deps n prev ds ≡ none = too_many n prev ds many in
      rw none_at_all refl
  | no few ↦
      rw (run_point_with_deps-some n prev ds (omega arith))
        (ground (arith, e, read_each-written prev ds v))
]

pub ok_of_bind :
    {A B : Type 0} (c : Checked A) (k : A → Checked B) (b : B)
    → (c >>= k) ≡ ok b
    → (a : A) × (c ≡ ok a) × (k a ≡ ok b)
ok_of_bind (ok a) k b e = (a, refl, e)
ok_of_bind (error x) k b e = cc

-- The serial runner gathers what the tasks of the row before have left.
pub gather-all_tokens :
    (width : ℕ) (row : List Token) (value : ℕ → Value) (ds : List ℕ) (ts : List Token)
    → ((d : ℕ) → d < width → value d ≡ get_elem? row d)
    → Within width ds
    → gather row ds ≡ ok ts
    → all_tokens (map value ds) ≡ some ts
unfolding gather
gather-all_tokens width row value [] ts h w e = ground arith
gather-all_tokens width row value (d ∷ ds) ts h w e = elim (Option-cases (get_elem? row d)) [
  | inl gone ↦ absurd (ground arith)
  | inr (t, there) ↦
      let rest : (gather row ds >>= λ us. ok (t ∷ us)) ≡ ok ts = ground arith in
      let (us, found, same) = ok_of_bind (gather row ds) (λ us. ok (t ∷ us)) ts rest in
      let ih = gather-all_tokens width row value ds us h w.1 found in
      let here = h d w.0 in ground arith
]

module _ (run_kernel : RunKernel) (g : Graph) where
  -- A task writes its own variable, if any.
  pub written_own :
      (n v : ℕ) → (n == v) ≡ false → is_written (run_oox run_kernel g n).args v ≡ false
  unfolding run_oox
  written_own n v e =
      let pt = point_at g n in made_written n v (prev_variable g n pt.col) (deps g pt.row pt.col) e

  pub made_args :
      (n row graph_id col : ℕ) (ds : List ℕ)
      → point_at g n ≡ point row graph_id col
      → deps g row col ≡ some ds
      → length ds ≤ max_deps
      → (run_oox run_kernel g n).args ≡ impl_args n (prev_variable g n col) ds
  unfolding run_oox
  made_args n row graph_id col ds e found le =
      rw (e, point_args, found, e, run_point_with_deps-some n (prev_variable g n col) ds le) refl

  made_functor :
      (n row graph_id col v : ℕ) (vs : List Value)
      → point_at g n ≡ point row graph_id col
      → (run_oox run_kernel g n).functor vs v
        ≡ execute_point_fn run_kernel g graph_id row col (behind vs)
  unfolding run_oox
  made_functor n row graph_id col v vs e = rw e refl

  module _ (m : Values Value) where
    -- What the task `n` leaves in its variable, when the tasks run one after the other.
    abbrev pub value : ℕ → Value
    value n = serial (run_oox run_kernel g) m (suc n) n

    pub serial-value : (n v : ℕ) → v < n → serial (run_oox run_kernel g) m n v ≡ value v
    serial-value n v lt =
        serial_kept (run_oox run_kernel g) n m v (suc v) n (omega arith)
          (λ d lo hi. written_own d v (ground arith))

    pub value-point :
        (n row graph_id col : ℕ) (ds : List ℕ)
        → point_at g n ≡ point row graph_id col
        → deps g row col ≡ some ds
        → length ds ≤ max_deps
        → value n
          ≡ execute_point_fn run_kernel g graph_id row col
              (map (λ d. serial (run_oox run_kernel g) m n (prev_variable g n col d)) ds)
    unfolding serial apply
    value-point n row graph_id col ds e found le =
        let before = serial (run_oox run_kernel g) m n in
        let args = made_args n row graph_id col ds e found le in
        let own : is_written (impl_args n (prev_variable g n col) ds) n ≡ true = ground arith in
        rw (args, own)
          (made_functor n row graph_id col n
              (consume_all (impl_args n (prev_variable g n col) ds) before) e
            ∙ ap (execute_point_fn run_kernel g graph_id row col)
                (consume_all-read_each (prev_variable g n col) ds before))

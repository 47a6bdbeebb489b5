-- ===== src/TaskBench/Graph/Oox/Rows.antt =====
-- The rows that the tasks of benchmarks/taskbench/runner_oox.h leave, run one after the other, are those
-- of the serial runner.
use oox_kirkon_fork.Base.{
  ℕ, zero, suc, ◌+◌, ◌-◌, ◌<◌, ◌≤◌, ◌≡◌, refl, ◌∙◌, ap, arith, some, List, [], ◌∷◌, map, get_elem?,
  Option-cases, inl, inr,
}
use oox_kirkon_fork.Runtime.Dependence.{Values, serial}
use oox_kirkon_fork.TaskBench.Patterns.Bounds.{Within}
use oox_kirkon_fork.TaskBench.Graph.{
  Token, Graph, deps, Checked, ok, RunKernel, execute_point, ◌>>=◌,
}
use oox_kirkon_fork.TaskBench.Graph.Serial.{
  gather, run_point, run_row, first_row, run_rows, run_serial,
}
use oox_kirkon_fork.TaskBench.Graph.Serial.Rows.{IsSound, deps-Within, deps-first}
use oox_kirkon_fork.TaskBench.Graph.Oox.{
  Value, all_tokens, execute_point_fn, prev_variable, run_oox,
}
use oox_kirkon_fork.TaskBench.Graph.Oox.Places.{
  variable, variable-point, variable-prev, variable-before,
}
use oox_kirkon_fork.TaskBench.Graph.Oox.Tokens.{
  value, serial-value, value-point, gather-all_tokens, ok_of_bind,
}

map-Within :
    (width : ℕ) (f h : ℕ → Value) (ds : List ℕ)
    → Within width ds
    → ((d : ℕ) → d < width → f d ≡ h d)
    → map f ds ≡ map h ds
map-Within width f h [] w e = refl
map-Within width f h (d ∷ ds) w e = rw (e d w.0, map-Within width f h ds w.1 e) refl

execute_point_fn-some :
    (run_kernel : RunKernel) (g : Graph) (graph_id row col : ℕ) (vs : List Value) (ts : List Token)
    (t : Token)
    → all_tokens vs ≡ some ts
    → execute_point run_kernel g graph_id row col ts ≡ ok t
    → execute_point_fn run_kernel g graph_id row col vs ≡ some t
unfolding execute_point_fn
execute_point_fn-some run_kernel g graph_id row col vs ts t e f = rw (execute_point_fn, e, f) refl

-- A row from its first column and the others.
cons-elem :
    (value_at : ℕ → Value) (r col : ℕ) (t : Token) (us ts : List Token)
    → ◌≡◌ {A = Checked (List Token)} (ok (t ∷ us)) (ok ts)
    → value_at col ≡ some t
    → ((c : ℕ) → c < r → value_at (col + 1 + c) ≡ get_elem? us c)
    → (c : ℕ) → c < suc r
    → value_at (col + c) ≡ get_elem? ts c
cons-elem value_at r col t us ts e first others zero lt =
    let same : t ∷ us ≡ ts = ground arith in
    let at : col + 0 ≡ col = omega arith in rw (← same, at) first
cons-elem value_at r col t us ts e first others (suc c) lt =
    let same : t ∷ us ≡ ts = ground arith in
    let at : col + suc c ≡ col + 1 + c = omega arith in rw (← same, at) (others c (omega arith))

module _ (run_kernel : RunKernel) (g : Graph) (sound : IsSound g) (m : Values Value) (graph_id : ℕ)
    (gl : graph_id < g.graphs) where
  -- The tasks of a row have left what is in the list.
  abbrev pub Agrees : ℕ → List Token → Type 0
  Agrees row ts =
      (d : ℕ) → d < g.width → value run_kernel g m (variable g row graph_id d) ≡ get_elem? ts d

  -- What the point of a later row finds.
  inputs-Agrees :
      (row col : ℕ) (prev : List Token) (ds : List ℕ) (ts : List Token)
      → Agrees row prev
      → Within g.width ds
      → gather prev ds ≡ ok ts
      → let n = variable g (suc row) graph_id col in
        all_tokens (map (λ d. serial (run_oox run_kernel g) m n (prev_variable g n col d)) ds)
        ≡ some ts
  inputs-Agrees row col prev ds ts h w e =
      let n = variable g (suc row) graph_id col in
      let before = serial (run_oox run_kernel g) m n in
      let there : (d : ℕ)
          → d < g.width
          → before (prev_variable g n col d) ≡ value run_kernel g m (variable g row graph_id d) =
        λ d lt.
          ap before (variable-prev g row graph_id col d)
          ∙ serial-value run_kernel g m n (variable g row graph_id d)
              (variable-before g row graph_id col d gl lt) in
      ap all_tokens (
        map-Within g.width (λ d. before (prev_variable g n col d))
          (λ d. value run_kernel g m (variable g row graph_id d)) ds w there)
      ∙ gather-all_tokens g.width prev (λ d. value run_kernel g m (variable g row graph_id d)) ds ts
          h w e

  run_point-Agrees :
      (row col : ℕ) (prev : List Token) (t : Token)
      → col < g.width
      → Agrees row prev
      → run_point run_kernel g graph_id (suc row) col prev ≡ ok t
      → value run_kernel g m (variable g (suc row) graph_id col) ≡ some t
  unfolding run_point
  run_point-Agrees row col prev t cl h e = elim (Option-cases (deps g (suc row) col)) [
    | inl never ↦ absurd (sound.ends (suc row) col never)
    | inr (ds, found) ↦
        let n = variable g (suc row) graph_id col in
        let w = deps-Within g (suc row) col ds sound.suits cl found in
        let rest : (gather prev ds >>= λ ts. execute_point run_kernel g graph_id (suc row) col ts)
            ≡ ok t =
          ground arith in
        let (ts, gathered, executed) =
          ok_of_bind (gather prev ds) (execute_point run_kernel g graph_id (suc row) col) t rest in
        let inputs = inputs-Agrees row col prev ds ts h w.0 gathered in
        value-point run_kernel g m n (suc row) graph_id col ds
          (variable-point g (suc row) graph_id col gl cl) found w.2
        ∙ execute_point_fn-some run_kernel g graph_id (suc row) col _ ts t inputs executed
  ]

  first-Agrees :
      (col : ℕ) (t : Token)
      → col < g.width
      → execute_point run_kernel g graph_id 0 col [] ≡ ok t
      → value run_kernel g m (variable g 0 graph_id col) ≡ some t
  first-Agrees col t cl e =
      value-point run_kernel g m (variable g 0 graph_id col) 0 graph_id col []
        (variable-point g 0 graph_id col gl cl) (deps-first g col) (omega arith)
      ∙ execute_point_fn-some run_kernel g graph_id 0 col [] [] t refl e

  first_row-Agrees :
      (r col : ℕ) (ts : List Token)
      → col + r ≤ g.width
      → first_row run_kernel g r graph_id col ≡ ok ts
      → (c : ℕ) → c < r
      → value run_kernel g m (variable g 0 graph_id (col + c)) ≡ get_elem? ts c
  unfolding first_row
  first_row-Agrees zero col ts le e c lt = absurd (omega arith)
  first_row-Agrees (suc r) col ts le e c lt =
      let (t, at, rest) =
        ok_of_bind (execute_point run_kernel g graph_id 0 col [])
          (λ t. first_row run_kernel g r graph_id (col + 1) >>= λ us. ok (t ∷ us)) ts e in
      let (us, found, same) =
        ok_of_bind (first_row run_kernel g r graph_id (col + 1)) (λ us. ok (t ∷ us)) ts rest in
      cons-elem (λ c. value run_kernel g m (variable g 0 graph_id c)) r col t us ts same
        (first-Agrees col t (omega arith) at) (first_row-Agrees r (col + 1) us (omega arith) found)
        c lt

  run_row-Agrees :
      (r row col : ℕ) (prev ts : List Token)
      → col + r ≤ g.width
      → Agrees row prev
      → run_row run_kernel g r graph_id (suc row) col prev ≡ ok ts
      → (c : ℕ) → c < r
      → value run_kernel g m (variable g (suc row) graph_id (col + c)) ≡ get_elem? ts c
  unfolding run_row
  run_row-Agrees zero row col prev ts le h e c lt = absurd (omega arith)
  run_row-Agrees (suc r) row col prev ts le h e c lt =
      let (t, at, rest) =
        ok_of_bind (run_point run_kernel g graph_id (suc row) col prev)
          (λ t. run_row run_kernel g r graph_id (suc row) (col + 1) prev >>= λ us. ok (t ∷ us)) ts
          e in
      let (us, found, same) =
        ok_of_bind (run_row run_kernel g r graph_id (suc row) (col + 1) prev) (λ us. ok (t ∷ us)) ts
          rest in
      cons-elem (λ c. value run_kernel g m (variable g (suc row) graph_id c)) r col t us ts same
        (run_point-Agrees row col prev t (omega arith) h at)
        (run_row-Agrees r row (col + 1) prev us (omega arith) h found) c lt

  run_rows-Agrees :
      (r row : ℕ) (prev ts : List Token)
      → Agrees row prev
      → run_rows run_kernel g r graph_id (suc row) prev ≡ ok ts
      → Agrees (row + r) ts
  unfolding run_rows
  run_rows-Agrees zero row prev ts h e =
      let same : prev ≡ ts = ground arith in
      let at : row + 0 ≡ row = omega arith in rw (← same, at) h
  run_rows-Agrees (suc r) row prev ts h e =
      let (curr, found, rest) =
        ok_of_bind (run_row run_kernel g g.width graph_id (suc row) 0 prev)
          (λ curr. run_rows run_kernel g r graph_id (suc row + 1) curr) ts e in
      let one : suc row + 1 ≡ suc (suc row) = omega arith in
      let at : row + suc r ≡ suc row + r = omega arith in
      rw at (
        run_rows-Agrees r (suc row) curr ts
          (λ d lt.
            let z : 0 + d ≡ d = omega arith in
            rw z at (run_row-Agrees g.width row 0 prev curr (omega arith) h found d lt))
          (rw (← one) rest))

  -- The last row is the one that the serial runner leaves.
  pub run_serial-Agrees :
      (ts : List Token) → run_serial run_kernel g graph_id ≡ ok ts → Agrees (g.height - 1) ts
  unfolding run_serial
  run_serial-Agrees ts e =
      let (first, found, rest) =
        ok_of_bind (first_row run_kernel g g.width graph_id 0)
          (λ first. run_rows run_kernel g (g.height - 1) graph_id 1 first) ts e in
      let last : 0 + (g.height - 1) ≡ g.height - 1 = omega arith in
      rw last at (
        run_rows-Agrees (g.height - 1) 0 first ts
          (λ d lt.
            let z : 0 + d ≡ d = omega arith in
            rw z at (first_row-Agrees g.width 0 first (omega arith) found d lt))
          rest)

-- ===== src/TaskBench/Graph/Reverse.antt =====
-- `reverse_deps` of benchmarks/taskbench/taskbench_graph.h against `deps`.
use oox_kirkon_fork.Base.{
  ℕ, zero, suc, ◌+◌, ◌<◌, ◌≤◌, ◌≡◌, refl, ◌==◌, Bool, true, false, ◌&&◌, ◌||◌, some, List, ◌∷◌,
  arith, Option-cases, inl, inr, if◌then◌else◌, ℕ_discrete,
}
use oox_kirkon_fork.TaskBench.Graph.{
  Graph, contains_point, deps, has_column, reverse_from, reverse_deps,
}

has_column-if :
    (b : Bool) (c next : ℕ) (out : List ℕ)
    → has_column c (if b then next ∷ out else out) ≡ ((b && (next == c)) || has_column c out)
has_column-if true c next out = refl
has_column-if false c next out = refl

-- A round of the loop, where it ends.
record Round (g : Graph) (r row col next : ℕ) (out : List ℕ) : Type 0 where
  ds : List ℕ
  found : deps g (row + 1) next ≡ some ds
  rest : List ℕ
  others : reverse_from g r row col (next + 1) ≡ some rest
  result : out ≡ (if has_column col ds then next ∷ rest else rest)

reverse_from-Round :
    (g : Graph) (r row col next : ℕ) (out : List ℕ)
    → reverse_from g (suc r) row col next ≡ some out
    → Round g r row col next out
unfolding reverse_from
reverse_from-Round g r row col next out e = elim (Option-cases (deps g (row + 1) next)) [
  | inl never ↦ absurd (ground arith)
  | inr (ds, found) ↦ elim (Option-cases (reverse_from g r row col (next + 1))) [
    | inl never ↦ absurd (ground arith)
    | inr (rest, others) ↦ record {
      ds = ds;
      found = found;
      rest = rest;
      others = others;
      result = ground arith;
    }
  ]
]

-- The loop adds no column that it has passed.
reverse_from-passed :
    (g : Graph) (r row col next c : ℕ) (out : List ℕ)
    → reverse_from g r row col next ≡ some out
    → c < next
    → has_column c out ≡ false
unfolding reverse_from
reverse_from-passed g zero row col next c out e lt = ground arith
reverse_from-passed g (suc r) row col next c out e lt =
    let t = reverse_from-Round g r row col next out e in
    let ih = reverse_from-passed g r row col (next + 1) c t.rest t.others (omega arith) in
    rw t.result (ground (arith, ih, has_column-if (has_column col t.ds) c next t.rest))

-- It finds, among the columns that it visits, those whose dependencies have the column.
reverse_from-deps :
    (g : Graph) (r row col next c : ℕ) (out ds : List ℕ)
    → reverse_from g r row col next ≡ some out
    → next ≤ c
    → c < next + r
    → deps g (row + 1) c ≡ some ds
    → has_column c out ≡ has_column col ds
reverse_from-deps g zero row col next c out ds e le lt f = absurd (omega arith)
reverse_from-deps g (suc r) row col next c out ds e le lt f =
    let t = reverse_from-Round g r row col next out e in
    let split = has_column-if (has_column col t.ds) c next t.rest in
    elim (ℕ_discrete next c) [
      | yes same ↦
          let none_after =
            reverse_from-passed g r row col (next + 1) c t.rest t.others (omega arith) in
          let found : deps g (row + 1) c ≡ some t.ds = rw (← same) t.found in
          rw t.result (ground (arith, found, none_after, split))
      | no other ↦
          let ih =
            reverse_from-deps g r row col (next + 1) c t.rest ds t.others (omega arith)
              (omega arith) f in
          rw t.result (ground (arith, ih, split))
    ]

-- For a point of the graph that has a row behind it, `reverse_deps` has exactly the columns of the
-- graph whose points in the next row depend on the point.
pub reverse_deps-deps :
    (g : Graph) (row col c : ℕ) (out ds : List ℕ)
    → contains_point g row col ≡ true
    → row + 1 < g.height
    → reverse_deps g row col ≡ some out
    → c < g.width
    → deps g (row + 1) c ≡ some ds
    → has_column c out ≡ has_column col ds
unfolding reverse_deps
reverse_deps-deps g row col c out ds inside below e lt f =
    let looped : reverse_from g g.width row col 0 ≡ some out = ground arith in
    reverse_from-deps g g.width row col 0 c out ds looped (omega arith) (omega arith) f

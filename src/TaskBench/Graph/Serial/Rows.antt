-- ===== src/TaskBench/Graph/Serial/Rows.antt =====
-- The serial runner of benchmarks/taskbench/runner_serial.h completes every row of the graph.
use oox_kirkon_fork.Base.{
  ℕ, zero, suc, ◌+◌, ◌-◌, ◌≤◌, ◌<◌, ◌≡◌, refl, ◌≢◌, ◌==◌, leb, true, ◌||◌, none, some, List, [],
  ◌∷◌, map, length, get_elem?, arith, Bool-cases, Option-cases, inl, inr,
}
use oox_kirkon_fork.TaskBench.Patterns.{dependency_columns, is_trivial, max_deps}
use oox_kirkon_fork.TaskBench.Config.{random}
use oox_kirkon_fork.TaskBench.Patterns.Sorting.{IsAscending}
use oox_kirkon_fork.TaskBench.Patterns.Ends.{dependency_columns-Ends}
use oox_kirkon_fork.TaskBench.Patterns.Bounds.{Within, Suits, dependency_columns-Within}
use oox_kirkon_fork.TaskBench.Graph.{
  Token, Graph, contains_point, deps, validate_each, validate_inputs, ok, RunKernel, make_token,
  execute_point,
}
use oox_kirkon_fork.TaskBench.Graph.Tokens.{
  IsToken, make_token-IsToken, AreInputs, length-AreInputs, validate_inputs-none,
}
use oox_kirkon_fork.TaskBench.Graph.Serial.{
  gather, run_point, run_row, first_row, run_rows, run_serial,
}

-- The tokens of a row, from column `c` on.
abbrev pub IsRow : (bytes graph_id row c : ℕ) → List Token → Type 0
IsRow bytes graph_id row c [] = Unit
IsRow bytes graph_id row c (t ∷ ts) =
    IsToken bytes graph_id row c t × IsRow bytes graph_id row (suc c) ts

-- A width that suits the pattern, a row at least, and a search for dependencies that ends.
pub record IsSound (g : Graph) : Type 0 where
  pub suits : Suits g.pattern g.width
  pub tall : 0 < g.height
  pub ends : (row col : ℕ) → deps g row col ≢ none

pub deps-Within :
    (g : Graph) (row col : ℕ) (ds : List ℕ)
    → Suits g.pattern g.width
    → col < g.width
    → deps g row col ≡ some ds
    → Within g.width ds × IsAscending ds × (length ds ≤ max_deps)
unfolding deps
deps-Within g row col ds su lt e = elim (Bool-cases (contains_point g row col)) [
  | inr outside ↦
      let none_at_all : [] ≡ ds = ground arith in rw (← none_at_all) (tt, tt, omega arith)
  | inl inside ↦ elim (Bool-cases (row == 0 || is_trivial g.pattern)) [
    | inl first ↦
        let none_at_all : [] ≡ ds = ground arith in rw (← none_at_all) (tt, tt, omega arith)
    | inr later ↦
        let found : dependency_columns g.fuel g.pattern g.seed g.radix g.width row col ≡ some ds =
          ground arith in
        dependency_columns-Within g.fuel g.pattern g.seed g.radix g.width row col ds lt su found
  ]
]

-- The search for the dependencies of a point ends for every pattern but the random one.
pub deps-Ends : (g : Graph) → g.pattern ≢ random → (row col : ℕ) → deps g row col ≢ none
unfolding deps
deps-Ends g ne row col e =
    let never = dependency_columns-Ends g.fuel g.pattern g.seed g.radix g.width row col ne in
    elim (Bool-cases (contains_point g row col)) [
      | inr outside ↦ ground arith
      | inl inside ↦ elim (Bool-cases (row == 0 || is_trivial g.pattern)) [
        | inl first ↦ ground arith
        | inr later ↦ never (ground arith)
      ]
    ]

pub deps-first : (g : Graph) (col : ℕ) → deps g 0 col ≡ some []
unfolding deps
deps-first g col = elim (Bool-cases (contains_point g 0 col)) [
  | inl inside ↦ rw inside refl
  | inr outside ↦ rw outside refl
]

get_elem?-IsRow :
    (bytes graph_id row c : ℕ) (ts : List Token) (d : ℕ)
    → IsRow bytes graph_id row c ts
    → d < length ts
    → (t : Token) × (get_elem? ts d ≡ some t) × IsToken bytes graph_id row (c + d) t
get_elem?-IsRow bytes graph_id row c [] d h lt = absurd (omega arith)
get_elem?-IsRow bytes graph_id row c (t ∷ ts) zero h lt =
    let here : c + 0 ≡ c = omega arith in (t, refl, rw here h.0)
get_elem?-IsRow bytes graph_id row c (t ∷ ts) (suc d) h lt =
    let (u, e, k) = get_elem?-IsRow bytes graph_id row (suc c) ts d h.1 (omega arith) in
    let there : c + suc d ≡ suc c + d = omega arith in (u, e, rw there k)

gather-AreInputs :
    (bytes graph_id row : ℕ) (prev : List Token) (ds : List ℕ)
    → IsRow bytes graph_id row 0 prev
    → Within (length prev) ds
    → (ts : List Token) × (gather prev ds ≡ ok ts) × AreInputs bytes graph_id row ds ts
unfolding gather
gather-AreInputs bytes graph_id row prev [] h w = ([], refl, tt)
gather-AreInputs bytes graph_id row prev (d ∷ ds) h w =
    let (t, e, k) = get_elem?-IsRow bytes graph_id row 0 prev d h w.0 in
    let (ts, f, ks) = gather-AreInputs bytes graph_id row prev ds h w.1 in
    let here : 0 + d ≡ d = omega arith in (t ∷ ts, ground arith, (rw here at k, ks))

module _ (run_kernel : RunKernel) (g : Graph) (sound : IsSound g) (graph_id : ℕ) where
  abbrev Row : ℕ → List Token → Type 0
  Row row ts = IsRow g.output_bytes graph_id row 0 ts × (length ts ≡ g.width)

  run_point-IsToken :
      (row col : ℕ) (prev : List Token)
      → col < g.width
      → Row row prev
      → (t : Token) × (run_point run_kernel g graph_id (suc row) col prev ≡ ok t)
        × IsToken g.output_bytes graph_id (suc row) col t
  unfolding run_point
  run_point-IsToken row col prev lt (h, len) = elim (Option-cases (deps g (suc row) col)) [
    | inl never ↦ absurd (sound.ends (suc row) col never)
    | inr (ds, found) ↦
        let w = deps-Within g (suc row) col ds sound.suits lt found in
        let (ts, e, k) = gather-AreInputs g.output_bytes graph_id row prev ds h (rw len w.0) in
        let valid = validate_inputs-none g graph_id row ds ts k in
        let few : leb (length ts) 8 ≡ true =
          ground (arith, length-AreInputs g.output_bytes graph_id row ds ts k, w.2) in
        (
          make_token run_kernel g.output_bytes g.seed graph_id (suc row) col
              (map (λ t. t.checksum) ts),
          ground arith,
          make_token-IsToken run_kernel g.output_bytes g.seed graph_id (suc row) col
              (map (λ t. t.checksum) ts),
        )
  ]

  run_row-IsRow :
      (r row col : ℕ) (prev : List Token)
      → col + r ≤ g.width
      → Row row prev
      → (ts : List Token) × (run_row run_kernel g r graph_id (suc row) col prev ≡ ok ts)
        × IsRow g.output_bytes graph_id (suc row) col ts
        × (length ts ≡ r)
  unfolding run_row
  run_row-IsRow zero row col prev le p = ([], refl, tt, refl)
  run_row-IsRow (suc r) row col prev le p =
      let (t, e, k) = run_point-IsToken row col prev (omega arith) p in
      let (ts, f, ks, n) = run_row-IsRow r row (suc col) prev (omega arith) p in
      let next : col + 1 ≡ suc col = omega arith in
      (t ∷ ts, rw next (ground arith), (k, ks), omega (arith, n))

  first_point :
      (col : ℕ)
      → (t : Token) × (execute_point run_kernel g graph_id 0 col [] ≡ ok t)
        × IsToken g.output_bytes graph_id 0 col t
  unfolding execute_point validate_inputs validate_each
  first_point col =
      let none_at_all = deps-first g col in
      (
        make_token run_kernel g.output_bytes g.seed graph_id 0 col [],
        rw (none_at_all) (elim (Bool-cases g.validate) [ inl e ↦ rw e refl | inr e ↦ rw e refl ]),
        make_token-IsToken run_kernel g.output_bytes g.seed graph_id 0 col [],
      )

  first_row-IsRow :
      (r col : ℕ)
      → (ts : List Token) × (first_row run_kernel g r graph_id col ≡ ok ts)
        × IsRow g.output_bytes graph_id 0 col ts
        × (length ts ≡ r)
  unfolding first_row
  first_row-IsRow zero col = ([], refl, tt, refl)
  first_row-IsRow (suc r) col =
      let (t, e, k) = first_point col in
      let (ts, f, ks, n) = first_row-IsRow r (suc col) in
      let next : col + 1 ≡ suc col = omega arith in
      (t ∷ ts, rw next (ground arith), (k, ks), omega (arith, n))

  run_rows-Row :
      (r row : ℕ) (prev : List Token)
      → Row row prev
      → (ts : List Token) × (run_rows run_kernel g r graph_id (suc row) prev ≡ ok ts)
        × Row (row + r) ts
  unfolding run_rows
  run_rows-Row zero row prev p = let same : row + 0 ≡ row = omega arith in (prev, refl, rw same p)
  run_rows-Row (suc r) row prev p =
      let (ts, e, h, n) = run_row-IsRow g.width row 0 prev (omega arith) p in
      let (us, f, q) = run_rows-Row r (suc row) ts (h, n) in
      let next : suc row + 1 ≡ suc (suc row) = omega arith in
      let total : row + suc r ≡ suc row + r = omega arith in
      (us, rw next (ground arith), rw total q)

  -- For a graph with a row at least, a width that suits its pattern and a search for dependencies
  -- that ends, the serial runner completes: no point is refused by the validation of its inputs, no
  -- column that a point depends on is missing, and the row that is left is the last one, with a
  -- token of the right place and payload for every column.
  pub run_serial-Row :
      (ts : List Token) × (run_serial run_kernel g graph_id ≡ ok ts)
      × IsRow g.output_bytes graph_id (g.height - 1) 0 ts
      × (length ts ≡ g.width)
  unfolding run_serial
  run_serial-Row =
      let (ts, e, h, n) = first_row-IsRow g.width 0 in
      let (us, f, q) = run_rows-Row (g.height - 1) 0 ts (h, n) in
      let last : 0 + (g.height - 1) ≡ g.height - 1 = omega arith in
      (us, ground arith, rw last at q.0, q.1)

-- ===== src/TaskBench/Graph.antt =====
-- benchmarks/taskbench/taskbench_graph.h: points of a task graph, their dependencies, and the tokens
-- that pass along the edges; and the runner of runner_serial.h. What the kernel gives for a
-- point, `run_kernel`, is a parameter.
pub mod Tokens
pub mod Serial
pub mod Accepted
pub mod Reverse
pub mod Oox
use oox_kirkon_fork.Base.{
  ℕ, zero, suc, ◌+◌, ◌-◌, ◌*◌, ◌/◌, ◌%◌, ◌^◌, ◌==◌, ltb, leb, Bool, true, false, not, ◌&&◌, ◌||◌,
  Option, none, some, List, [], ◌∷◌, ◌++◌, map, if◌then◌else◌, length, get_elem?,
}
use Prim.Native.Nat.{bit_xor}
use oox_kirkon_fork.TaskBench.Config.{Pattern}
use oox_kirkon_fork.TaskBench.Kernels.{u64, mix64, hash_point}
use oox_kirkon_fork.TaskBench.Patterns.{is_trivial, dependency_columns}

-- `Token`, with the bytes of its payload.
pub record Token : Type 0 where
  pub graph : ℕ
  pub row : ℕ
  pub col : ℕ
  pub checksum : ℕ
  pub payload : List ℕ

-- `Graph`: what it keeps of a valid configuration, and the resolved width. `fuel` bounds the search
-- of the random pattern.
pub record Graph : Type 0 where
  pub height : ℕ
  pub width : ℕ
  pub graphs : ℕ
  pub pattern : Pattern
  pub radix : ℕ
  pub output_bytes : ℕ
  pub seed : ℕ
  pub validate : Bool
  pub fuel : ℕ

-- The loop of `checksum_token`.
unfoldable pub mix_inputs : ℕ → List ℕ → ℕ
unfolding mix64
mix_inputs x [] = x
mix_inputs x (input ∷ inputs) = mix_inputs (mix64 (bit_xor x input)) inputs

unfoldable pub checksum_token : (graph row col : ℕ) → List ℕ → (seed : ℕ) → ℕ
unfolding mix_inputs hash_point mix64
checksum_token graph row col inputs seed =
    mix_inputs (bit_xor (hash_point seed graph row col) (mix64 (length inputs))) inputs

unfoldable pub payload_byte : (checksum index : ℕ) → ℕ
unfolding mix64
payload_byte checksum index =
    let x = mix64 (u64 (checksum + (index - index % 8))) in x / 2 ^ (index % 8 * 8) % 256

-- The bytes from `index` on.
unfoldable pub payload_from : (bytes index checksum : ℕ) → List ℕ
payload_from zero index checksum = []
payload_from (suc n) index checksum =
    payload_byte checksum index ∷ payload_from n (index + 1) checksum

unfoldable pub make_payload : (bytes checksum : ℕ) → List ℕ
unfolding payload_from
make_payload bytes checksum = payload_from bytes 0 checksum

-- The loop of `payload_matches_checksum`, from `index` on.
unfoldable pub matches_from : (bytes : List ℕ) (index checksum : ℕ) → Bool
matches_from [] index checksum = true
matches_from (b ∷ bytes) index checksum =
    b == payload_byte checksum index && matches_from bytes (index + 1) checksum

unfoldable pub payload_matches_checksum : Token → ℕ → Bool
unfolding matches_from
payload_matches_checksum t expected_bytes =
    length t.payload == expected_bytes && matches_from t.payload 0 t.checksum

-- `token_payload_matches` of taskbench_validate.h.
unfoldable pub token_payload_matches : Token → ℕ → Bool
token_payload_matches t expected_bytes = payload_matches_checksum t expected_bytes

unfoldable pub contains_point : Graph → (row col : ℕ) → Bool
contains_point g row col = ltb row g.height && ltb col g.width

unfoldable pub deps : Graph → (row col : ℕ) → Option (List ℕ)
unfolding contains_point
deps g row col =
    if not (contains_point g row col)
    then some []
    else if row == 0 || is_trivial g.pattern
    then some []
    else dependency_columns g.fuel g.pattern g.seed g.radix g.width row col

abbrev pub has_column : ℕ → List ℕ → Bool
has_column c [] = false
has_column c (d ∷ ds) = d == c || has_column c ds

-- The loop of `reverse_deps`, from `next_col` on.
unfoldable pub reverse_from : Graph → (rounds row col next_col : ℕ) → Option (List ℕ)
unfolding deps
reverse_from g zero row col next_col = some []
reverse_from g (suc r) row col next_col = elim (deps g (row + 1) next_col) [
  | none ↦ none
  | some d ↦ elim (reverse_from g r row col (next_col + 1)) [
    | none ↦ none
    | some out ↦ some (if has_column col d then next_col ∷ out else out)
  ]
]

unfoldable pub reverse_deps : Graph → (row col : ℕ) → Option (List ℕ)
unfolding reverse_from
reverse_deps g row col =
    if not (contains_point g row col) || leb g.height (row + 1)
    then some []
    else reverse_from g g.width row col 0

-- Why a point is not executed: an exception of `validate_inputs`, an access behind the array of
-- checksums, or a search that does not end.
pub data PointError : Type 0 where
  wrong_dependency_count wrong_dependency_token wrong_payload : PointError
  too_many_inputs no_dependencies missing_column : PointError

pub data Checked (A : Type 0) : Type 0 where
  ok : A → Checked A
  error : PointError → Checked A

infixl 5 ◌>>=◌
abbrev pub ◌>>=◌ : {A B : Type 0} → Checked A → (A → Checked B) → Checked B
ok a >>= f = f a
error e >>= f = error e

-- The loop of `validate_inputs`, once the counts agree.
unfoldable pub validate_each : (bytes graph_id row : ℕ) → List ℕ → List Token → Option PointError
unfolding payload_matches_checksum
validate_each bytes graph_id row expected [] = none
validate_each bytes graph_id row [] (input ∷ inputs) = none
validate_each bytes graph_id row (c ∷ expected) (input ∷ inputs) =
    let rest = validate_each bytes graph_id row expected inputs in
    if not (input.graph == graph_id && input.row + 1 == row && input.col == c)
    then some wrong_dependency_token
    else if not (payload_matches_checksum input bytes)
    then some wrong_payload
    else rest

unfoldable pub validate_inputs :
    Graph → (graph_id row : ℕ) → List ℕ → List Token → Option PointError
unfolding validate_each
validate_inputs g graph_id row expected inputs =
    if not (length inputs == length expected)
    then some wrong_dependency_count
    else validate_each g.output_bytes graph_id row expected inputs

-- What `run_kernel (cfg, graph, row, col, seed)` gives for a point, for instance `Kernels.run_kernel`.
-- A run executes each point once, so that what its calls give is such a function also for the memory
-- kernel, whose scratch memory outlives a call.
abbrev pub RunKernel : Type 0
RunKernel = (graph row col seed : ℕ) → ℕ

abbrev pub expected_or : Option (List ℕ) → Checked (List ℕ)
expected_or none = error no_dependencies
expected_or (some ds) = ok ds

abbrev pub raise : Option PointError → Checked (Unit {0})
raise none = ok tt
raise (some e) = error e

-- The token of a point, from the checksums of its inputs.
unfoldable pub make_token : RunKernel → (bytes seed graph_id row col : ℕ) → List ℕ → Token
unfolding checksum_token make_payload
make_token run_kernel bytes seed graph_id row col checksums =
    let sum = checksum_token graph_id row col checksums seed in
    let checksum = bit_xor sum (run_kernel graph_id row col sum) in
    record {
      graph = graph_id;
      row = row;
      col = col;
      checksum = checksum;
      payload = make_payload bytes checksum;
    }

unfoldable pub execute_point :
    RunKernel → Graph → (graph_id row col : ℕ) → List Token → Checked Token
unfolding deps validate_inputs make_token
execute_point run_kernel g graph_id row col inputs = do
  expected ← expected_or (deps g row col)
  checked ← raise (if g.validate then validate_inputs g graph_id row expected inputs else none)
  fits ← raise (if leb (length inputs) 8 then none else some too_many_inputs)
  ok (make_token run_kernel g.output_bytes g.seed graph_id row col (map (λ t. t.checksum) inputs))

unfoldable pub task_count : Graph → ℕ
task_count g = g.height * g.width * g.graphs

abbrev pub add_edges : Option (List ℕ) → Option ℕ → Option ℕ
add_edges (some ds) (some n) = some (length ds + n)
add_edges _ _ = none

-- The inner loop of `edge_count`, from column `col` on.
unfoldable pub row_edges : Graph → (rounds row col : ℕ) → Option ℕ
unfolding deps
row_edges g zero row col = some 0
row_edges g (suc r) row col = add_edges (deps g row col) (row_edges g r row (col + 1))

abbrev pub sum_edges : Option ℕ → Option ℕ → Option ℕ
sum_edges (some m) (some n) = some (m + n)
sum_edges _ _ = none

unfoldable pub graph_edges : Graph → (rounds row : ℕ) → Option ℕ
unfolding row_edges
graph_edges g zero row = some 0
graph_edges g (suc r) row = sum_edges (row_edges g g.width row 0) (graph_edges g r (row + 1))

unfoldable pub edge_count : Graph → Option ℕ
unfolding graph_edges
edge_count g = elim (graph_edges g g.height 0) [ none ↦ none | some n ↦ some (n * g.graphs) ]

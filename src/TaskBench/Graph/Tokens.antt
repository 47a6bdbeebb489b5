-- ===== src/TaskBench/Graph/Tokens.antt =====
-- Tokens of benchmarks/taskbench/taskbench_graph.h pass the validation of the points that use them.
use oox_kirkon_fork.Base.{
  ℕ, zero, suc, ◌+◌, ◌≡◌, refl, ◌==◌, true, none, List, [], ◌∷◌, length, arith, ◌∙◌,
}
use oox_kirkon_fork.TaskBench.Graph.{
  Token, Graph, payload_from, make_payload, matches_from, payload_matches_checksum, validate_each,
  validate_inputs, RunKernel, make_token,
}

length-payload_from : (n i c : ℕ) → length (payload_from n i c) ≡ n
unfolding payload_from
length-payload_from zero i c = refl
length-payload_from (suc n) i c = omega (arith, length-payload_from n (i + 1) c)

matches_from-payload_from : (n i c : ℕ) → matches_from (payload_from n i c) i c ≡ true
unfolding payload_from matches_from
matches_from-payload_from zero i c = refl
matches_from-payload_from (suc n) i c = ground (arith, matches_from-payload_from n (i + 1) c)

-- A payload that `make_payload` makes for the checksum and the size of a token passes
-- `payload_matches_checksum`, and it does not pass for any other size.
pub payload_matches_checksum-make_payload :
    (t : Token) (bytes expected : ℕ)
    → t.payload ≡ make_payload bytes t.checksum
    → payload_matches_checksum t expected ≡ (bytes == expected)
unfolding payload_matches_checksum make_payload
payload_matches_checksum-make_payload t bytes expected e =
    rw (e, length-payload_from bytes 0 t.checksum, matches_from-payload_from bytes 0 t.checksum)
      (ground arith)

-- The token of a point of a graph.
pub record IsToken (bytes graph_id r c : ℕ) (t : Token) : Type 0 where
  pub graph : t.graph ≡ graph_id
  pub row : t.row ≡ r
  pub col : t.col ≡ c
  pub payload : payload_matches_checksum t bytes ≡ true

pub make_token-IsToken :
    (run_kernel : RunKernel) (bytes seed graph_id row col : ℕ) (checksums : List ℕ)
    → IsToken bytes graph_id row col (make_token run_kernel bytes seed graph_id row col checksums)
unfolding make_token
make_token-IsToken run_kernel bytes seed graph_id row col checksums =
    let t = make_token run_kernel bytes seed graph_id row col checksums in
    record {
      graph = refl;
      row = refl;
      col = refl;
      payload = payload_matches_checksum-make_payload t bytes bytes refl ∙ ground arith;
    }

-- The tokens of the columns `ds`, in order.
abbrev pub AreInputs : (bytes graph_id row : ℕ) → List ℕ → List Token → Type 0
AreInputs bytes graph_id row [] [] = Unit
AreInputs bytes graph_id row (d ∷ ds) (t ∷ ts) =
    IsToken bytes graph_id row d t × AreInputs bytes graph_id row ds ts
AreInputs bytes graph_id row _ _ = ⊥

pub length-AreInputs :
    (bytes graph_id row : ℕ) (ds : List ℕ) (ts : List Token)
    → AreInputs bytes graph_id row ds ts
    → length ts ≡ length ds
length-AreInputs bytes graph_id row [] [] h = refl
length-AreInputs bytes graph_id row (d ∷ ds) (t ∷ ts) h =
    omega (arith, length-AreInputs bytes graph_id row ds ts h.1)
length-AreInputs bytes graph_id row [] (t ∷ ts) h = absurd h
length-AreInputs bytes graph_id row (d ∷ ds) [] h = absurd h

validate_each-none :
    (bytes graph_id row : ℕ) (ds : List ℕ) (ts : List Token)
    → AreInputs bytes graph_id row ds ts
    → validate_each bytes graph_id (suc row) ds ts ≡ none
unfolding validate_each
validate_each-none bytes graph_id row [] [] h = refl
validate_each-none bytes graph_id row (d ∷ ds) (t ∷ ts) h = ground (
  arith,
  h.0.graph,
  h.0.row,
  h.0.col,
  h.0.payload,
  validate_each-none bytes graph_id row ds ts h.1,
)
validate_each-none bytes graph_id row [] (t ∷ ts) h = absurd h
validate_each-none bytes graph_id row (d ∷ ds) [] h = absurd h

-- The tokens of a row, one for each dependency in order, pass the validation of the next row.
pub validate_inputs-none :
    (g : Graph) (graph_id row : ℕ) (ds : List ℕ) (ts : List Token)
    → AreInputs g.output_bytes graph_id row ds ts
    → validate_inputs g graph_id (suc row) ds ts ≡ none
unfolding validate_inputs
validate_inputs-none g graph_id row ds ts h = ground (
  arith,
  length-AreInputs g.output_bytes graph_id row ds ts h,
  validate_each-none g.output_bytes graph_id row ds ts h,
)

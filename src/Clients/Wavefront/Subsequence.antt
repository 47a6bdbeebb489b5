-- ===== src/Clients/Wavefront/Subsequence.antt =====
-- Longest common subsequences, for the programs of examples/wavefront.h.
use oox_kirkon_fork.Base.{
  ℕ, zero, suc, ◌+◌, ◌≤◌, ◌≡◌, refl, ◌==◌, max, List, arith, if◌then◌else◌, Bool-cases, inl, inr,
  dec_lt,
}
use oox_kirkon_fork.Clients.Wavefront.{get_or}

module _ (x y : List ℕ) where
  -- The length for the first `i` characters of `x` and the first `j` of `y`.
  unfoldable pub lcs : ℕ → ℕ → ℕ
  lcs zero j = 0
  lcs (suc i) zero = 0
  lcs (suc i) (suc j) =
      if get_or x i == get_or y j then lcs i j + 1 else max (lcs (suc i) j) (lcs i (suc j))

  -- A common subsequence of length `k` of those prefixes, built from the left.
  pub data Common : ℕ → ℕ → ℕ → Type 0 where
    start : Common 0 0 0
    skip_left : {i j k : ℕ} → Common i j k → Common (suc i) j k
    skip_right : {i j k : ℕ} → Common i j k → Common i (suc j) k
    pair : {i j k : ℕ} → get_or x i ≡ get_or y j → Common i j k → Common (suc i) (suc j) (suc k)

  lcs-zero : (i : ℕ) → lcs i 0 ≡ 0
  unfolding lcs
  lcs-zero zero = refl
  lcs-zero (suc i) = refl

  -- One more character on the right makes a difference of one at most.
  abbrev IsNarrow : ℕ → Type 0
  IsNarrow i = (j : ℕ) → lcs i (suc j) ≤ lcs i j + 1

  -- One more character on the left takes nothing away.
  left_grows : (i : ℕ) → IsNarrow i → (j : ℕ) → lcs i j ≤ lcs (suc i) j
  unfolding lcs
  left_grows i narrow zero = omega (arith, lcs-zero i)
  left_grows i narrow (suc j) = ground (arith, narrow j)

  lcs-IsNarrow : (i : ℕ) → IsNarrow i
  unfolding lcs
  lcs-IsNarrow zero j = omega arith
  lcs-IsNarrow (suc i) j = ground (arith, lcs-IsNarrow i j, left_grows i (lcs-IsNarrow i) j)

  -- The same two with the strings exchanged.
  abbrev IsFlat : ℕ → Type 0
  IsFlat j = (i : ℕ) → lcs (suc i) j ≤ lcs i j + 1

  right_grows : (j : ℕ) → IsFlat j → (i : ℕ) → lcs i j ≤ lcs i (suc j)
  unfolding lcs
  right_grows j flat zero = omega arith
  right_grows j flat (suc i) = ground (arith, flat i)

  lcs-IsFlat : (j : ℕ) → IsFlat j
  unfolding lcs
  lcs-IsFlat zero i = omega (arith, lcs-zero i)
  lcs-IsFlat (suc j) i = ground (arith, lcs-IsFlat j i, right_grows j (lcs-IsFlat j) i)

  -- No common subsequence of the prefixes is longer than `lcs`.
  pub Common-le : {i j k : ℕ} → Common i j k → k ≤ lcs i j
  unfolding lcs
  Common-le start = omega arith
  Common-le (skip_left {i} {j} c) = omega (arith, Common-le c, left_grows i (lcs-IsNarrow i) j)
  Common-le (skip_right {i} {j} c) = omega (arith, Common-le c, right_grows j (lcs-IsFlat j) i)
  Common-le (pair {i} {j} e c) = ground (arith, e, Common-le c)

  skip_all_right : (j : ℕ) → Common 0 j 0
  skip_all_right zero = start
  skip_all_right (suc j) = skip_right (skip_all_right j)

  Common-eq : {i j k l : ℕ} → Common i j k → k ≡ l → Common i j l
  Common-eq c e = rw (← e) c

  -- One of them is as long.
  pub lcs_attained : (i j : ℕ) → Common i j (lcs i j)
  unfolding lcs
  lcs_attained zero j = skip_all_right j
  lcs_attained (suc i) zero = skip_left (Common-eq (lcs_attained i zero) (lcs-zero i))
  lcs_attained (suc i) (suc j) = elim (Bool-cases (get_or x i == get_or y j)) [
    | inl same ↦ Common-eq (pair (ground arith) (lcs_attained i j)) (ground arith)
    | inr other ↦ elim (dec_lt (lcs (suc i) j) (lcs i (suc j))) [
      | yes up ↦ Common-eq (skip_left (lcs_attained i (suc j))) (ground arith)
      | no left ↦ Common-eq (skip_right (lcs_attained (suc i) j)) (ground arith)
    ]
  ]

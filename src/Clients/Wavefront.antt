-- ===== src/Clients/Wavefront.antt =====
-- examples/wavefront.h: the length of the longest common subsequence of two strings, from a table that
-- is filled row by row, or by a task for each cell.
pub mod Subsequence
pub mod Serial
pub mod Straight
use oox_kirkon_fork.Base.{
  ℕ, zero, suc, ◌+◌, ◌-◌, ◌==◌, leb, max, ◌&&◌, Option, none, some, List, [], ◌∷◌, if◌then◌else◌,
  length, get_elem?,
}

-- `MAX_LEN`
abbrev pub max_len : ℕ
max_len = 200

-- `x[i - 1]`; a string has no character of that number out of bounds.
abbrev pub get_or : List ℕ → ℕ → ℕ
get_or [] i = 0
get_or (c ∷ cs) zero = c
get_or (c ∷ cs) (suc i) = get_or cs i

-- The functor `f` of `Straight::LCS`, and the right side of the assignment in `Serial::LCS`.
unfoldable pub cell : List ℕ → List ℕ → (i j f11 f01 f10 : ℕ) → ℕ
cell x y i j f11 f01 f10 = if get_or x (i - 1) == get_or y (j - 1) then f11 + 1 else max f01 f10

-- `int F[MAX_LEN+1][MAX_LEN+1]`
abbrev pub Table : Type 0
Table = ℕ → ℕ → ℕ

abbrev pub set_cell : Table → ℕ → ℕ → ℕ → Table
set_cell F i j v a b = if i == a && j == b then v else F a b

-- The body of the loops; `none` is a write out of bounds.
unfoldable pub fill_cell : List ℕ → List ℕ → (i j : ℕ) → Table → Option Table
fill_cell x y i j F =
    if leb i max_len && leb j max_len
    then some (set_cell F i j (cell x y i j (F (i - 1) (j - 1)) (F i (j - 1)) (F (i - 1) j)))
    else none

-- The inner loop, from `j` on.
unfoldable pub fill_row : List ℕ → List ℕ → (rounds i j : ℕ) → Table → Option Table
fill_row x y zero i j F = some F
fill_row x y (suc r) i j F = elim (fill_cell x y i j F) [
  | none ↦ none
  | some G ↦ fill_row x y r i (j + 1) G
]

-- The outer loop, from `i` on.
unfoldable pub fill_rows : List ℕ → List ℕ → (rounds i : ℕ) → Table → Option Table
fill_rows x y zero i F = some F
fill_rows x y (suc r) i F = elim (fill_row x y (length y) i 1 F) [
  | none ↦ none
  | some G ↦ fill_rows x y r (i + 1) G
]

-- `Serial::LCS`
unfoldable pub serial_lcs : List ℕ → List ℕ → Option ℕ
serial_lcs x y = elim (fill_rows x y (length x) 1 (λ i j. 0)) [
  | none ↦ none
  | some F ↦ some (F (length x) (length y))
]

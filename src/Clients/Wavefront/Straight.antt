-- ===== src/Clients/Wavefront/Straight.antt =====
-- `Straight::LCS` of examples/wavefront.h: a task for each cell of the table, which reads the three
-- cells before it. Which of the tasks whose cells are there runs next is left open.
use oox_kirkon_fork.Base.{
  ℕ, suc, ◌≤◌, ◌<◌, ◌≡◌, ◌==◌, ◌&&◌, Option, none, some, List, length, if◌then◌else◌,
}
use oox_kirkon_fork.Base.Sums.{total}
use oox_kirkon_fork.Clients.Wavefront.{cell, max_len}
use oox_kirkon_fork.Clients.Wavefront.Subsequence.{lcs}

-- The variables `F[i][j]` that have their value.
abbrev pub Cells : Type 0
Cells = ℕ → ℕ → Option ℕ

-- The variables of the first row and column are empty when the tasks are made, so each gets a storage
-- with the default value of `int`.
abbrev pub start : Cells
start i j = if i == 0 then some 0 else if j == 0 then some 0 else none

abbrev pub set : Cells → ℕ → ℕ → ℕ → Cells
set F i j v a b = if i == a && j == b then some v else F a b

module _ (x y : List ℕ) where
  -- The task of the cell `(suc i, suc j)`, which the array has, is executed.
  pub data Step (F : Cells) : Cells → Type 0 where
    execute :
        (i j : ℕ) {a b c : ℕ}
        → i < length x
        → j < length y
        → suc i ≤ max_len
        → suc j ≤ max_len
        → F (suc i) (suc j) ≡ none
        → F i j ≡ some a
        → F (suc i) j ≡ some b
        → F i (suc j) ≡ some c
        → Step F (set F (suc i) (suc j) (cell x y (suc i) (suc j) a b c))

  pub data Reach : ℕ → Cells → Type 0 where
    here : Reach 0 start
    later : {n : ℕ} {F G : Cells} → Reach n F → Step F G → Reach (suc n) G

  record Inv (F : Cells) : Type 0 where
    top : (j : ℕ) → F 0 j ≡ some 0
    left : (i : ℕ) → F i 0 ≡ some 0
    right : (i j v : ℕ) → F i j ≡ some v → v ≡ lcs x y i j

  abbrev present : Option ℕ → ℕ
  present none = 0
  present (some v) = 1

  abbrev filled_row : Cells → ℕ → ℕ
  filled_row F i = total (length y) (λ j. present (F (suc i) (suc j)))

  abbrev filled : Cells → ℕ
  filled F = total (length x) (filled_row F)

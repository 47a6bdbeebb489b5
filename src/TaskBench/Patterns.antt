-- ===== src/TaskBench/Patterns.antt =====
-- benchmarks/taskbench/taskbench_patterns.h: the columns of the row before on which a point depends.
-- The configuration has passed `validate_config`, so the radix is not negative, and columns and
-- widths are small enough for `int`.
pub mod Sorting
pub mod Bounds
pub mod Ends
pub mod Powers
use oox_kirkon_fork.Base.{
  ℕ, zero, suc, ◌+◌, ◌-◌, ◌*◌, ◌/◌, ◌%◌, ◌^◌, min, max, ◌==◌, ltb, leb, Bool, true, false, ◌||◌,
  Option, none, some, List, [], ◌∷◌, ◌++◌, if◌then◌else◌, length, take,
}
use Prim.Native.Nat.{bit_xor}
use oox_kirkon_fork.Base.Int.{ℤ, pos, negsuc, sub_ℕ}
use oox_kirkon_fork.TaskBench.Config.{
  Pattern, trivial, stencil, sweep, nearest, spread, fft, tree, random,
}
use oox_kirkon_fork.TaskBench.Kernels.{u64, mix64, hash_point}

-- `OOX_TASKBENCH_MAX_DEPS`
abbrev pub max_deps : ℕ
max_deps = 8

unfoldable pub append_dep_if_valid : List ℕ → ℕ → ℤ → List ℕ
append_dep_if_valid out width (pos col) = if ltb col width then out ++ col ∷ [] else out
append_dep_if_valid out width (negsuc col) = out

-- The loop of `nearest_deps`, for `rounds` values of `k`.
unfoldable pub nearest_loop : (rounds : ℕ) → List ℕ → (width col left k : ℕ) → List ℕ
unfolding append_dep_if_valid
nearest_loop zero out width col left k = out
nearest_loop (suc r) out width col left k =
    nearest_loop r (append_dep_if_valid out width (sub_ℕ (col + k) left)) width col left (k + 1)

unfoldable pub nearest_deps : List ℕ → (radix width col : ℕ) → List ℕ
unfolding nearest_loop
nearest_deps out radix width col =
    if radix == 0 then out else nearest_loop radix out width col (radix / 2) 0

-- The loop of `spread_deps`, for `rounds` values of `k`.
unfoldable pub spread_loop : (rounds : ℕ) → List ℕ → (radix width col k : ℕ) → List ℕ
unfolding append_dep_if_valid
spread_loop zero out radix width col k = out
spread_loop (suc r) out radix width col k =
    let offset = k * max 1 (width - 1) / max 1 (radix - 1) in
    spread_loop r (append_dep_if_valid out width (pos ((col + offset) % width))) radix width col
      (k + 1)

unfoldable pub spread_deps : List ℕ → (radix width col : ℕ) → List ℕ
unfolding spread_loop
spread_deps out radix width col =
    if radix == 0
    then out
    else if radix == 1 || width == 1
    then out ++ col ∷ []
    else spread_loop radix out radix width col 0

-- `for (int w = width; w > 1; w >>= 1) ++levels;`
unfoldable pub count_levels : (fuel w levels : ℕ) → ℕ
count_levels zero w levels = levels
count_levels (suc f) w levels =
    let rest = count_levels f (w / 2) (levels + 1) in if ltb 1 w then rest else levels

-- The width halves in each round, so that it is fuel enough.
unfoldable pub levels_of : ℕ → ℕ
unfolding count_levels
levels_of width = count_levels width width 0

unfoldable pub fft_deps : List ℕ → (width row col : ℕ) → List ℕ
unfolding levels_of
fft_deps out width row col =
    let bit = (row - 1) % max 1 (levels_of width) in (out ++ col ∷ []) ++ bit_xor col (2 ^ bit) ∷ []

-- `phase < levels ? phase : (2 * levels - phase - 1)`
unfoldable pub tree_level : (levels row : ℕ) → ℕ
tree_level levels row =
    let phase = (row - 1) % (2 * levels) in
    if ltb phase levels then phase else 2 * levels - phase - 1

unfoldable pub tree_deps : List ℕ → (width row col : ℕ) → List ℕ
unfolding levels_of tree_level
tree_deps out width row col =
    if levels_of width == 0
    then out ++ col ∷ []
    else (out ++ col ∷ []) ++ bit_xor col (2 ^ tree_level (levels_of width) row) ∷ []

-- `std::sort`, and `std::unique` with the `erase` behind it.
unfoldable pub insert_sorted : ℕ → List ℕ → List ℕ
insert_sorted x [] = x ∷ []
insert_sorted x (y ∷ ys) = if leb x y then x ∷ y ∷ ys else y ∷ insert_sorted x ys

unfoldable pub sort : List ℕ → List ℕ
unfolding insert_sorted
sort [] = []
sort (x ∷ xs) = insert_sorted x (sort xs)

-- `prev` is the last element that was kept.
unfoldable pub unique_after : ℕ → List ℕ → List ℕ
unique_after prev [] = []
unique_after prev (x ∷ xs) = let rest = unique_after x xs in if prev == x then rest else x ∷ rest

unfoldable pub unique : List ℕ → List ℕ
unfolding unique_after
unique [] = []
unique (x ∷ xs) = x ∷ unique_after x xs

-- The first loop of `random_deps`: the candidates whose hash is small.
unfoldable pub random_candidates :
    (rounds : ℕ) → List ℕ → (seed count width row col candidate : ℕ) → List ℕ
unfolding mix64 hash_point
random_candidates zero out seed count width row col candidate = out
random_candidates (suc r) out seed count width row col candidate =
    let h = mix64 (bit_xor seed (hash_point row col candidate width)) in
    let out' = if ltb (h % width) count then out ++ candidate ∷ [] else out in
    let rest = random_candidates r out' seed count width row col (candidate + 1) in
    if ltb (length out) count then rest else out

-- The second loop, which adds hashes until there are `count` columns. Nothing in the source bounds
-- it: `none` is fuel that ran out.
unfoldable pub random_fill :
    (fuel : ℕ) → List ℕ → (seed count width row col salt : ℕ) → Option (List ℕ)
unfolding mix64 hash_point sort unique
random_fill zero out seed count width row col salt = none
random_fill (suc f) out seed count width row col salt =
    let next = mix64 (u64 (seed + hash_point row col salt count)) % width in
    let rest =
      random_fill f (unique (sort (out ++ next ∷ []))) seed count width row col (salt + 1) in
    if ltb (length out) count then rest else some out

unfoldable pub random_deps : (fuel : ℕ) → List ℕ → (seed radix width row col : ℕ) → Option (List ℕ)
unfolding random_candidates random_fill
random_deps fuel out seed radix width row col =
    let count = min radix width in
    random_fill fuel (random_candidates width out seed count width row col 0) seed count width row
      col 0

-- The `switch` of `dependency_columns`.
unfoldable pub pattern_deps :
    (fuel : ℕ) → Pattern → (seed radix width row col : ℕ) → Option (List ℕ)
unfolding nearest_deps spread_deps fft_deps tree_deps random_deps append_dep_if_valid
pattern_deps fuel trivial seed radix width row col = some []
pattern_deps fuel stencil seed radix width row col =
    let left = append_dep_if_valid [] width (sub_ℕ col 1) in
    let middle = append_dep_if_valid left width (pos col) in
    some (append_dep_if_valid middle width (pos (col + 1)))
pattern_deps fuel sweep seed radix width row col =
    let left = append_dep_if_valid [] width (sub_ℕ col 1) in
    some (append_dep_if_valid left width (pos col))
pattern_deps fuel nearest seed radix width row col = some (nearest_deps [] radix width col)
pattern_deps fuel spread seed radix width row col = some (spread_deps [] radix width col)
pattern_deps fuel fft seed radix width row col = some (fft_deps [] width row col)
pattern_deps fuel tree seed radix width row col = some (tree_deps [] width row col)
pattern_deps fuel random seed radix width row col = random_deps fuel [] seed radix width row col

abbrev pub is_trivial : Pattern → Bool
is_trivial trivial = true
is_trivial _ = false

-- Sorted, without duplicates, and no more than the maximum.
unfoldable pub finish_deps : List ℕ → List ℕ
unfolding sort unique
finish_deps out = take max_deps (unique (sort out))

unfoldable pub dependency_columns :
    (fuel : ℕ) → Pattern → (seed radix width row col : ℕ) → Option (List ℕ)
unfolding pattern_deps finish_deps
dependency_columns fuel pattern seed radix width row col =
    if row == 0 || is_trivial pattern
    then some []
    else elim (pattern_deps fuel pattern seed radix width row col) [
      | none ↦ none
      | some out ↦ some (finish_deps out)
    ]

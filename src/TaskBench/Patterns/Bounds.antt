-- ===== src/TaskBench/Patterns/Bounds.antt =====
-- The dependencies of benchmarks/taskbench/taskbench_patterns.h name columns of the graph.
use oox_kirkon_fork.Base.{
  ℕ, zero, suc, ◌+◌, ◌-◌, ◌*◌, ◌/◌, ◌%◌, ◌^◌, ◌≤◌, ◌<◌, ◌≡◌, ◌==◌, ltb, min, max, Bool, true, false,
  List, [], ◌∷◌, ◌++◌, ◌||◌, if◌then◌else◌, length, All, arith, Bool-cases, inl, inr, some, ltb→lt,
  lt→ltb, Option-cases,
}
use native.Mathlib.Nat.{pow-suc}
use Prim.Native.Nat.{bit_xor}
use oox_kirkon_fork.Base.Int.{ℤ, pos, negsuc, sub_ℕ}
use oox_kirkon_fork.Base.Digits.{bit_xor-lt}
use oox_kirkon_fork.TaskBench.Kernels.{u64, mix64, hash_point}
use oox_kirkon_fork.TaskBench.Config.{
  Pattern, trivial, stencil, sweep, nearest, spread, fft, tree, random,
}
use oox_kirkon_fork.TaskBench.Patterns.{
  max_deps, append_dep_if_valid, nearest_loop, nearest_deps, spread_loop, spread_deps, count_levels,
  levels_of, fft_deps, tree_level, tree_deps, random_candidates, random_fill, random_deps,
  pattern_deps, is_trivial, finish_deps, dependency_columns, sort, unique,
}
use oox_kirkon_fork.TaskBench.Patterns.Sorting.{
  IsAscending, finish_deps-IsAscending, finish_deps-All, sort-All, unique-All, All-append,
}

-- The columns of a graph of that width.
abbrev pub Within : ℕ → List ℕ → Type 0
Within width xs = All (λ c. c < width) xs

module _ (width : ℕ) where
  append_dep_if_valid-Within :
      (out : List ℕ) (col : ℤ) → Within width out → Within width (append_dep_if_valid out width col)
  unfolding append_dep_if_valid
  append_dep_if_valid-Within out (pos c) h = elim (Bool-cases (ltb c width)) [
    | inl valid ↦ rw valid (All-append _ out (c ∷ []) h (ltb→lt c width valid, tt))
    | inr off ↦ rw off h
  ]
  append_dep_if_valid-Within out (negsuc c) h = h

  nearest_loop-Within :
      (r : ℕ) (out : List ℕ) (col left k : ℕ)
      → Within width out
      → Within width (nearest_loop r out width col left k)
  unfolding nearest_loop
  nearest_loop-Within zero out col left k h = h
  nearest_loop-Within (suc r) out col left k h =
      nearest_loop-Within r (append_dep_if_valid out width (sub_ℕ (col + k) left)) col left (k + 1)
        (append_dep_if_valid-Within out (sub_ℕ (col + k) left) h)

  spread_loop-Within :
      (r : ℕ) (out : List ℕ) (radix col k : ℕ)
      → Within width out
      → Within width (spread_loop r out radix width col k)
  unfolding spread_loop
  spread_loop-Within zero out radix col k h = h
  spread_loop-Within (suc r) out radix col k h =
      let offset = k * max 1 (width - 1) / max 1 (radix - 1) in
      spread_loop-Within r (append_dep_if_valid out width (pos ((col + offset) % width))) radix col
        (k + 1) (append_dep_if_valid-Within out (pos ((col + offset) % width)) h)

  Within-if :
      (b : Bool) (xs ys : List ℕ)
      → Within width xs
      → Within width ys
      → Within width (if b then xs else ys)
  Within-if true xs ys h k = h
  Within-if false xs ys h k = k

  Within-some : (xs out : List ℕ) → Within width xs → some xs ≡ some out → Within width out
  Within-some xs out h e = let same : xs ≡ out = ground arith in rw (← same) h

  random_candidates-Within :
      (r : ℕ) (out : List ℕ) (seed count row col candidate : ℕ)
      → candidate + r ≤ width
      → Within width out
      → Within width (random_candidates r out seed count width row col candidate)
  unfolding random_candidates
  random_candidates-Within zero out seed count row col candidate le h = h
  random_candidates-Within (suc r) out seed count row col candidate le h =
      let small = ltb (mix64 (bit_xor seed (hash_point row col candidate width)) % width) count in
      let grown = All-append (λ c. c < width) out (candidate ∷ []) h (omega arith, tt) in
      let rest =
        random_candidates-Within r (if small then out ++ candidate ∷ [] else out) seed count row col
          (candidate + 1) (omega arith) (Within-if small (out ++ candidate ∷ []) out grown h) in
      Within-if (ltb (length out) count) _ out rest h

  random_fill-Within :
      (f : ℕ) (out found : List ℕ) (seed count row col salt : ℕ)
      → 0 < width
      → Within width out
      → random_fill f out seed count width row col salt ≡ some found
      → Within width found
  unfolding random_fill
  random_fill-Within zero out found seed count row col salt p h e = cc
  random_fill-Within (suc f) out found seed count row col salt p h e =
      let next = mix64 (u64 (seed + hash_point row col salt count)) % width in
      let kept = unique (sort (out ++ next ∷ [])) in
      let grown = All-append (λ c. c < width) out (next ∷ []) h (omega arith, tt) in
      let kept-Within =
        unique-All _ (sort (out ++ next ∷ [])) (sort-All _ (out ++ next ∷ []) grown) in
      elim (Bool-cases (ltb (length out) count)) [
        | inl more ↦
            random_fill-Within f kept found seed count row col (salt + 1) p kept-Within
              (rw more at e)
        | inr full ↦ let same : out ≡ found = ground arith in rw (← same) h
      ]

pow-pos : (k : ℕ) → 0 < 2 ^ k
pow-pos zero = omega arith
pow-pos (suc k) = omega (arith, pow-suc 2 k, pow-pos k)

module _ (width col : ℕ) (lt : col < width) where
  nearest_deps-Within : (radix : ℕ) → Within width (nearest_deps [] radix width col)
  unfolding nearest_deps
  nearest_deps-Within radix =
      Within-if width (radix == 0) [] (nearest_loop radix [] width col (radix / 2) 0) tt
        (nearest_loop-Within width radix [] col (radix / 2) 0 tt)

  spread_deps-Within : (radix : ℕ) → Within width (spread_deps [] radix width col)
  unfolding spread_deps
  spread_deps-Within radix =
      let many = spread_loop radix [] radix width col 0 in
      Within-if width (radix == 0) [] (if radix == 1 || width == 1 then col ∷ [] else many) tt (
        Within-if width (radix == 1 || width == 1) (col ∷ []) many (lt, tt)
          (spread_loop-Within width radix [] radix col 0 tt))

  random_deps-Within :
      (fuel seed radix row : ℕ) (out : List ℕ)
      → random_deps fuel [] seed radix width row col ≡ some out
      → Within width out
  unfolding random_deps
  random_deps-Within fuel seed radix row out e =
      let count = min radix width in
      let found = random_candidates width [] seed count width row col 0 in
      random_fill-Within width fuel found out seed count row col 0 (omega arith)
        (random_candidates-Within width width [] seed count row col 0 (omega arith) tt) e

-- A width of `2 ^ k` has `k` levels.
count_levels-pow : (f k l : ℕ) → 2 ^ k ≤ f → count_levels f (2 ^ k) l ≡ l + k
unfolding count_levels
count_levels-pow zero k l le = absurd (omega (arith, pow-pos k))
count_levels-pow (suc f) zero l le = omega arith
count_levels-pow (suc f) (suc k) l le =
    let more : ltb 1 (2 ^ suc k) ≡ true =
      lt→ltb 1 (2 ^ suc k) (omega (arith, pow-suc 2 k, pow-pos k)) in
    let half : 2 ^ suc k / 2 ≡ 2 ^ k = omega (arith, pow-suc 2 k) in
    rw (more, half)
      (omega (arith, count_levels-pow f k (l + 1) (omega (arith, pow-suc 2 k, pow-pos k))))

levels_of-pow : (k : ℕ) → levels_of (2 ^ k) ≡ k
unfolding levels_of
levels_of-pow k = omega (arith, count_levels-pow (2 ^ k) k 0 (omega arith))

pow_mono : (j k : ℕ) → j < k → 2 ^ j < 2 ^ k
pow_mono j zero h = absurd (omega arith)
pow_mono zero (suc k) h = omega (arith, pow-suc 2 k, pow-pos k)
pow_mono (suc j) (suc k) h = omega (arith, pow-suc 2 k, pow-suc 2 j, pow_mono j k (omega arith))

tree_level-lt : (levels row : ℕ) → 0 < levels → tree_level levels row < levels
unfolding tree_level
tree_level-lt levels row h =
    let m : (row - 1) % (2 * levels) < 2 * levels = omega arith in ground arith

partner-lt : (k b col : ℕ) → b < k → col < 2 ^ k → bit_xor col (2 ^ b) < 2 ^ k
partner-lt k b col h lt = bit_xor-lt k col (2 ^ b) lt (pow_mono b k h)

fft_deps-Within :
    (k row col : ℕ) → 0 < k → col < 2 ^ k → Within (2 ^ k) (fft_deps [] (2 ^ k) row col)
unfolding fft_deps
fft_deps-Within k row col h lt =
    let b : (row - 1) % max 1 (levels_of (2 ^ k)) < k = rw (levels_of-pow k) (omega arith) in
    (lt, (partner-lt k _ col b lt, tt))

tree_deps-Within : (k row col : ℕ) → col < 2 ^ k → Within (2 ^ k) (tree_deps [] (2 ^ k) row col)
unfolding tree_deps
tree_deps-Within k row col lt = rw (levels_of-pow k) (elim (Bool-cases (k == 0)) [
  | inl flat ↦ rw flat (lt, tt)
  | inr deep ↦
      let b : tree_level k row < k = tree_level-lt k row (ground arith) in
      rw deep (lt, (partner-lt k (tree_level k row) col b lt, tt))
])

-- The widths that the pattern is made for: a power of two for the tree, and one above 1 for the FFT.
abbrev pub Suits : Pattern → ℕ → Type 0
Suits fft width = (k : ℕ) × (0 < k) × (width ≡ 2 ^ k)
Suits tree width = (k : ℕ) × (width ≡ 2 ^ k)
Suits _ width = Unit

pattern_deps-Within :
    (fuel : ℕ) (p : Pattern) (seed radix width row col : ℕ) (out : List ℕ)
    → col < width
    → Suits p width
    → pattern_deps fuel p seed radix width row col ≡ some out
    → Within width out
unfolding pattern_deps
pattern_deps-Within fuel trivial seed radix width row col out lt su e =
    Within-some width [] out tt e
pattern_deps-Within fuel stencil seed radix width row col out lt su e =
    let left = append_dep_if_valid [] width (sub_ℕ col 1) in
    let left-Within = append_dep_if_valid-Within width [] (sub_ℕ col 1) tt in
    let middle = append_dep_if_valid left width (pos col) in
    let middle-Within = append_dep_if_valid-Within width left (pos col) left-Within in
    Within-some width (append_dep_if_valid middle width (pos (col + 1))) out
      (append_dep_if_valid-Within width middle (pos (col + 1)) middle-Within) e
pattern_deps-Within fuel sweep seed radix width row col out lt su e =
    let left = append_dep_if_valid [] width (sub_ℕ col 1) in
    let left-Within = append_dep_if_valid-Within width [] (sub_ℕ col 1) tt in
    Within-some width (append_dep_if_valid left width (pos col)) out
      (append_dep_if_valid-Within width left (pos col) left-Within) e
pattern_deps-Within fuel nearest seed radix width row col out lt su e =
    Within-some width (nearest_deps [] radix width col) out (nearest_deps-Within width col lt radix)
      e
pattern_deps-Within fuel spread seed radix width row col out lt su e =
    Within-some width (spread_deps [] radix width col) out (spread_deps-Within width col lt radix) e
pattern_deps-Within fuel fft seed radix width row col out lt (k, some_level, w) e =
    Within-some width (fft_deps [] width row col) out
      (rw w (fft_deps-Within k row col some_level (rw w at lt))) e
pattern_deps-Within fuel tree seed radix width row col out lt (k, w) e =
    Within-some width (tree_deps [] width row col) out
      (rw w (tree_deps-Within k row col (rw w at lt))) e
pattern_deps-Within fuel random seed radix width row col out lt su e =
    random_deps-Within width col lt fuel seed radix row out e

-- The dependencies of a point in the graph are columns of the graph, rise strictly and so have no
-- duplicates, and are no more than the maximum, for every pattern at a width that suits it: a power
-- of two for the tree, a power of two above 1 for the FFT, and any width for the others.
pub dependency_columns-Within :
    (fuel : ℕ) (p : Pattern) (seed radix width row col : ℕ) (out : List ℕ)
    → col < width
    → Suits p width
    → dependency_columns fuel p seed radix width row col ≡ some out
    → Within width out × IsAscending out × (length out ≤ max_deps)
unfolding dependency_columns
dependency_columns-Within fuel p seed radix width row col out lt su e =
    elim (Bool-cases (row == 0 || is_trivial p)) [
      | inl first ↦
          let none_at_all : [] ≡ out = ground arith in rw (← none_at_all) (tt, tt, omega arith)
      | inr later ↦ elim (Option-cases (pattern_deps fuel p seed radix width row col)) [
        | inl stuck ↦ absurd (ground arith)
        | inr (found, q) ↦
            let same : finish_deps found ≡ out = ground arith in
            let rises = finish_deps-IsAscending found in
            let inside =
              finish_deps-All (λ c. c < width) found
                (pattern_deps-Within fuel p seed radix width row col found lt su q) in
            rw (← same) (inside, rises.0, rises.1)
      ]
    ]

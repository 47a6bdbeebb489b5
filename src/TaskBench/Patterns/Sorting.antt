-- ===== src/TaskBench/Patterns/Sorting.antt =====
-- The sorting of dependencies in benchmarks/taskbench/taskbench_patterns.h.
use oox_kirkon_fork.Base.{
  ℕ, zero, suc, ◌≤◌, ◌<◌, ◌≡◌, ◌==◌, leb, List, [], ◌∷◌, ◌++◌, length, take, All, arith, Bool-cases,
  inl, inr, leb→le,
}
use oox_kirkon_fork.TaskBench.Patterns.{
  max_deps, insert_sorted, sort, unique_after, unique, finish_deps,
}

-- The list goes on from `x` without falling, or rising at each place.
abbrev SortedAfter : ℕ → List ℕ → Type 0
SortedAfter x [] = Unit
SortedAfter x (y ∷ ys) = (x ≤ y) × SortedAfter y ys

abbrev pub AscendingAfter : ℕ → List ℕ → Type 0
AscendingAfter x [] = Unit
AscendingAfter x (y ∷ ys) = (x < y) × AscendingAfter y ys

abbrev pub IsAscending : List ℕ → Type 0
IsAscending [] = Unit
IsAscending (x ∷ xs) = AscendingAfter x xs

abbrev IsSorted : List ℕ → Type 0
IsSorted [] = Unit
IsSorted (x ∷ xs) = SortedAfter x xs

insert_sorted-SortedAfter :
    (z x : ℕ) (xs : List ℕ) → z ≤ x → SortedAfter z xs → SortedAfter z (insert_sorted x xs)
unfolding insert_sorted
insert_sorted-SortedAfter z x [] le h = (le, tt)
insert_sorted-SortedAfter z x (y ∷ ys) le h = elim (Bool-cases (leb x y)) [
  | inl below ↦ rw below (le, (leb→le x y below, h.1))
  | inr above ↦ rw above (h.0, insert_sorted-SortedAfter y x ys (ground arith) h.1)
]

insert_sorted-IsSorted : (x : ℕ) (xs : List ℕ) → IsSorted xs → IsSorted (insert_sorted x xs)
unfolding insert_sorted
insert_sorted-IsSorted x [] h = tt
insert_sorted-IsSorted x (y ∷ ys) h = elim (Bool-cases (leb x y)) [
  | inl below ↦ rw below (leb→le x y below, h)
  | inr above ↦ rw above (insert_sorted-SortedAfter y x ys (ground arith) h)
]

sort-IsSorted : (xs : List ℕ) → IsSorted (sort xs)
unfolding sort
sort-IsSorted [] = tt
sort-IsSorted (x ∷ xs) = insert_sorted-IsSorted x (sort xs) (sort-IsSorted xs)

unique_after-AscendingAfter :
    (prev : ℕ) (xs : List ℕ) → SortedAfter prev xs → AscendingAfter prev (unique_after prev xs)
unfolding unique_after
unique_after-AscendingAfter prev [] h = tt
unique_after-AscendingAfter prev (x ∷ xs) h = elim (Bool-cases (prev == x)) [
  | inl same ↦
      let e : prev ≡ x = ground arith in rw same (rw e (unique_after-AscendingAfter x xs h.1))
  | inr other ↦ rw other (ground arith, unique_after-AscendingAfter x xs h.1)
]

unique-IsAscending : (xs : List ℕ) → IsSorted xs → IsAscending (unique xs)
unfolding unique
unique-IsAscending [] h = tt
unique-IsAscending (x ∷ xs) h = unique_after-AscendingAfter x xs h

take-AscendingAfter :
    (n prev : ℕ) (xs : List ℕ) → AscendingAfter prev xs → AscendingAfter prev (take n xs)
take-AscendingAfter zero prev xs h = tt
take-AscendingAfter (suc n) prev [] h = tt
take-AscendingAfter (suc n) prev (x ∷ xs) h = (h.0, take-AscendingAfter n x xs h.1)

take-IsAscending : (n : ℕ) (xs : List ℕ) → IsAscending xs → IsAscending (take n xs)
take-IsAscending zero xs h = tt
take-IsAscending (suc n) [] h = tt
take-IsAscending (suc n) (x ∷ xs) h = take-AscendingAfter n x xs h

length-take-le : (n : ℕ) (xs : List ℕ) → length (take n xs) ≤ n
length-take-le zero xs = omega arith
length-take-le (suc n) [] = omega arith
length-take-le (suc n) (x ∷ xs) = omega (arith, length-take-le n xs)

pub finish_deps-IsAscending :
    (out : List ℕ) → IsAscending (finish_deps out) × (length (finish_deps out) ≤ max_deps)
unfolding finish_deps
finish_deps-IsAscending out = (
  take-IsAscending max_deps (unique (sort out)) (unique-IsAscending (sort out) (sort-IsSorted out)),
  length-take-le max_deps (unique (sort out)),
)

-- A property of every element is kept.
module _ (P : ℕ → Type 0) where
  insert_sorted-All : (x : ℕ) (xs : List ℕ) → P x → All P xs → All P (insert_sorted x xs)
  unfolding insert_sorted
  insert_sorted-All x [] p h = (p, tt)
  insert_sorted-All x (y ∷ ys) p h = elim (Bool-cases (leb x y)) [
    | inl below ↦ rw below (p, h)
    | inr above ↦ rw above (h.0, insert_sorted-All x ys p h.1)
  ]

  pub sort-All : (xs : List ℕ) → All P xs → All P (sort xs)
  unfolding sort
  sort-All [] h = tt
  sort-All (x ∷ xs) h = insert_sorted-All x (sort xs) h.0 (sort-All xs h.1)

  unique_after-All : (prev : ℕ) (xs : List ℕ) → All P xs → All P (unique_after prev xs)
  unfolding unique_after
  unique_after-All prev [] h = tt
  unique_after-All prev (x ∷ xs) h = elim (Bool-cases (prev == x)) [
    | inl same ↦ rw same (unique_after-All x xs h.1)
    | inr other ↦ rw other (h.0, unique_after-All x xs h.1)
  ]

  pub unique-All : (xs : List ℕ) → All P xs → All P (unique xs)
  unfolding unique
  unique-All [] h = tt
  unique-All (x ∷ xs) h = (h.0, unique_after-All x xs h.1)

  take-All : (n : ℕ) (xs : List ℕ) → All P xs → All P (take n xs)
  take-All zero xs h = tt
  take-All (suc n) [] h = tt
  take-All (suc n) (x ∷ xs) h = (h.0, take-All n xs h.1)

  pub finish_deps-All : (out : List ℕ) → All P out → All P (finish_deps out)
  unfolding finish_deps
  finish_deps-All out h =
      take-All max_deps (unique (sort out)) (unique-All (sort out) (sort-All out h))

  pub All-append : (xs ys : List ℕ) → All P xs → All P ys → All P (xs ++ ys)
  All-append [] ys h k = k
  All-append (x ∷ xs) ys h k = (h.0, All-append xs ys h.1 k)

-- ===== src/Runtime/Dependence/Progress.antt =====
-- A program on oox/oox.h always has a task that is ready, if no task is given a variable twice.
use oox_kirkon_fork.Base.{
  ℕ, zero, suc, ◌<◌, ◌≡◌, ◌==◌, ◌||◌, Bool, true, false, List, [], ◌∷◌, ◌++◌, All, arith,
  Bool-cases, inl, inr, ◌⊎◌, ℕ_discrete,
}
use oox_kirkon_fork.Runtime.Store.Execute.{Argument, plain, writes, reads}
use oox_kirkon_fork.Runtime.Dependence.{
  Track, Tracks, note, note_all, task_list, waits_for, waits_for_all, Program, State, Step, execute,
  tracks, prerequisites, is_used,
}

-- No variable is given twice.
abbrev pub AreDistinct : List Argument → Type 0
AreDistinct [] = Unit
AreDistinct (plain ∷ rest) = AreDistinct rest
AreDistinct (reads u a ∷ rest) = (is_used rest u ≡ false) × AreDistinct rest
AreDistinct (writes u a ∷ rest) = (is_used rest u ≡ false) × AreDistinct rest

All-append : (P : ℕ → Type 0) (xs ys : List ℕ) → All P xs → All P ys → All P (xs ++ ys)
All-append P [] ys h k = k
All-append P (x ∷ xs) ys h k = (h.0, All-append P xs ys h.1 k)

pub All-map : (P Q : ℕ → Type 0) (xs : List ℕ) → ((x : ℕ) → P x → Q x) → All P xs → All Q xs
All-map P Q [] f h = tt
All-map P Q (x ∷ xs) f h = (f x h.0, All-map P Q xs f h.1)

-- The writer and the readers of a variable come before the task `t`.
abbrev Below : ℕ → Track → Type 0
Below t cell = All (λ d. d < t) (task_list cell.writer) × All (λ d. d < t) cell.readers

Below-suc : (t : ℕ) (cell : Track) → Below t cell → Below (suc t) cell
Below-suc t cell h = (
  All-map (λ d. d < t) (λ d. d < suc t) (task_list cell.writer) (λ d lt. omega arith) h.0,
  All-map (λ d. d < t) (λ d. d < suc t) cell.readers (λ d lt. omega arith) h.1,
)

note_all-Below :
    (t : ℕ) (rest : List Argument) (trs : Tracks)
    → ((v : ℕ) → Below (suc t) (trs v))
    → (v : ℕ) → Below (suc t) (note_all t rest trs v)
unfolding note_all note
note_all-Below t [] trs h v = h v
note_all-Below t (plain ∷ rest) trs h v = note_all-Below t rest (note t plain trs) h v
note_all-Below t (reads u a ∷ rest) trs h v =
    note_all-Below t rest (note t (reads u a) trs)
      (λ w. elim (Bool-cases (u == w)) [
        | inl same ↦ rw same ((h w).0, (omega arith, (h w).1))
        | inr other ↦ rw other (h w)
      ])
      v
note_all-Below t (writes u a ∷ rest) trs h v =
    note_all-Below t rest (note t (writes u a) trs)
      (λ w. elim (Bool-cases (u == w)) [
        | inl same ↦ rw same ((omega arith, tt), tt)
        | inr other ↦ rw other (h w)
      ])
      v

tracks-Below : {V : Type 0} (p : Program V) (t v : ℕ) → Below t (tracks p t v)
unfolding tracks
tracks-Below p zero v = (tt, tt)
tracks-Below p (suc t) v =
    note_all-Below t (p t).args (tracks p t) (λ w. Below-suc t (tracks p t w) (tracks-Below p t w))
      v

apart_of_used :
    (rest : List Argument) (u v : ℕ)
    → is_used rest u ≡ false
    → is_used rest v ≡ true
    → (u == v) ≡ false
apart_of_used rest u v nu us = elim (Bool-cases (u == v)) [
  | inr other ↦ other
  | inl same ↦
      let q : u ≡ v = ground arith in
      let us' : is_used rest u ≡ true = rw q us in absurd (ground arith)
]

waits_for_all-Below :
    (t : ℕ) (rest : List Argument) (trs : Tracks)
    → AreDistinct rest
    → ((v : ℕ) → is_used rest v ≡ true → Below t (trs v))
    → All (λ d. d < t) (waits_for_all t rest trs)
unfolding waits_for_all waits_for note
waits_for_all-Below t [] trs dist h = tt
waits_for_all-Below t (plain ∷ rest) trs dist h =
    waits_for_all-Below t rest (note t plain trs) dist h
waits_for_all-Below t (reads u a ∷ rest) trs dist h =
    All-append (λ d. d < t) (task_list (trs u).writer) _ (h u (ground arith)).0
      (waits_for_all-Below t rest (note t (reads u a) trs) dist.1 (λ v us.
        let apart = apart_of_used rest u v dist.0 us in
        let used : (u == v || is_used rest v) ≡ true = ground arith in rw apart (h v used)))
waits_for_all-Below t (writes u a ∷ rest) trs dist h =
    All-append (λ d. d < t) (task_list (trs u).writer ++ (trs u).readers) _
      (All-append (λ d. d < t) (task_list (trs u).writer) (trs u).readers (h u (ground arith)).0
        (h u (ground arith)).1)
      (waits_for_all-Below t rest (note t (writes u a) trs) dist.1 (λ v us.
        let apart = apart_of_used rest u v dist.0 us in
        let used : (u == v || is_used rest v) ≡ true = ground arith in rw apart (h v used)))

-- Either all of the first `n` tasks are through, or there is a first that is not.
first_open :
    (completed : ℕ → Bool) (n : ℕ)
    → ((t : ℕ) → t < n → completed t ≡ true)
      ⊎ ((t : ℕ) × (t < n) × (completed t ≡ false) × ((d : ℕ) → d < t → completed d ≡ true))
first_open completed zero = inl (λ t lt. absurd (omega arith))
first_open completed (suc n) = elim (first_open completed n) [
  | inr (t, lt, unset, before) ↦ inr (t, omega arith, unset, before)
  | inl all ↦ elim (Bool-cases (completed n)) [
    | inr unset ↦ inr (n, omega arith, unset, all)
    | inl set ↦
        inl (λ t lt. elim (ℕ_discrete t n) [
          | yes same ↦ rw same set
          | no other ↦ all t (omega arith)
        ])
  ]
]

-- If no task is given a variable twice, then whatever tasks are through, all of the first `n` are, or
-- one that is not has all its prerequisites through.
pub ready_task :
    {V : Type 0} (p : Program V) (n : ℕ) (s : State V)
    → ((t : ℕ) → t < n → AreDistinct (p t).args)
    → ((t : ℕ) → t < n → s.completed t ≡ true) ⊎ ((s' : State V) × Step p n s s')
unfolding prerequisites
ready_task p n s dist = elim (first_open s.completed n) [
  | inl all ↦ inl all
  | inr (t, lt, unset, before) ↦
      let below =
        waits_for_all-Below t (p t).args (tracks p t) (dist t lt) (λ v us. tracks-Below p t v) in
      inr (
        _,
        execute t lt unset
            (All-map (λ d. d < t) (λ d. s.completed d ≡ true) (prerequisites p t) before below),
      )
]

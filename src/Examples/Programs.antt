-- ===== src/Examples/Programs.antt =====
-- The theorems on the dependences of oox/oox.h at a program of three tasks: one writes the variable 1,
-- one reads it and writes the variable 2, and one writes the variable 1 again.
use oox_kirkon_fork.Base.{
  Bool, not, ◌==◌, some, ℕ, zero, suc, ◌+◌, ◌≤◌, ◌<◌, ◌≡◌, refl, ◌⊎◌, true, false, List, [], ◌∷◌,
  arith,
}
use oox_kirkon_fork.Runtime.Store.Execute.{writes, reads}
use oox_kirkon_fork.Runtime.Dependence.{
  Program, Values, State, Step, execute, Reach, here, later, prerequisites, serial, apply,
  is_written, waits_for_all, waits_for, tracks, note_all, note,
}
use oox_kirkon_fork.Base.Family.{update}
use oox_kirkon_fork.Runtime.Dependence.Equivalence.{serial_equivalence}
use oox_kirkon_fork.Runtime.Dependence.Progress.{AreDistinct, ready_task}
use oox_kirkon_fork.Runtime.Policy.{Policies, Call, compiles, accepts, Fails, thrown, inherited}
use oox_kirkon_fork.Runtime.Policy.Soundness.{IsTyped, policies_sound}
use oox_kirkon_fork.Runtime.Dependence.Aliasing.{aliased_never_runs}

-- What the functors make of the values of their variables.
abbrev next_value : List ℕ → ℕ → ℕ
next_value [] v = 7
next_value (a ∷ rest) v = a + 1

abbrev program : Program ℕ
program zero = record { args = writes 1 100 ∷ []; functor = λ xs v. 7 }
program (suc zero) = record { args = reads 1 100 ∷ writes 2 200 ∷ []; functor = next_value }
program (suc (suc t)) = record { args = writes 1 100 ∷ []; functor = next_value }

abbrev zeros : Values ℕ
zeros v = 0

waits : (prerequisites program 1 ≡ 0 ∷ []) × (prerequisites program 2 ≡ 0 ∷ 1 ∷ [])
unfolding prerequisites waits_for_all waits_for tracks note_all note
waits = (refl, refl)

abbrev after0 : State ℕ
after0 = record { memory = apply (program 0) zeros; completed = update (λ t. false) 0 true }

abbrev after1 : State ℕ
after1 = record {
  memory = apply (program 1) after0.memory;
  completed = update after0.completed 1 true;
}

abbrev after2 : State ℕ
after2 = record {
  memory = apply (program 2) after1.memory;
  completed = update after1.completed 2 true;
}

one_task : Reach program 3 zeros 1 after0
unfolding prerequisites waits_for_all waits_for tracks note_all note
one_task = later here (execute 0 (omega arith) refl tt)

all_tasks : Reach program 3 zeros 3 after2
unfolding prerequisites waits_for_all waits_for tracks note_all note
all_tasks =
    later (later one_task (execute 1 (omega arith) refl (refl, tt)))
      (execute 2 (omega arith) refl (refl, (refl, tt)))

serial_equivalence_example :
    (3 ≤ 3)
    × ((v : ℕ)
        → ((t : ℕ) → t < 3 → is_written (program t).args v ≡ true → after2.completed t ≡ true)
        → after2.memory v ≡ serial program zeros 3 v)
serial_equivalence_example = serial_equivalence program 3 zeros all_tasks

ends : (serial program zeros 3 1 ≡ 8) × (serial program zeros 3 2 ≡ 8)
unfolding serial apply
ends = (refl, refl)

distinct : (t : ℕ) → t < 3 → AreDistinct (program t).args
distinct zero lt = (refl, tt)
distinct (suc zero) lt = (refl, (refl, tt))
distinct (suc (suc t)) lt = (refl, tt)

ready_task_example :
    ((t : ℕ) → t < 3 → after0.completed t ≡ true) ⊎ ((s : State ℕ) × Step program 3 after0 s)
ready_task_example = ready_task program 3 after0 distinct

-- The task 1 is given the variable 1 twice.
abbrev doubled : Program ℕ
doubled zero = record { args = writes 2 200 ∷ []; functor = λ xs v. 7 }
doubled (suc t) = record { args = reads 1 100 ∷ writes 1 100 ∷ []; functor = next_value }

abbrev after_first : State ℕ
after_first = record { memory = apply (doubled 0) zeros; completed = update (λ t. false) 0 true }

first_task : Reach doubled 2 zeros 1 after_first
unfolding prerequisites waits_for_all waits_for tracks note_all note
first_task = later here (execute 0 (omega arith) refl tt)

aliased_never_runs_example : after_first.completed 1 ≡ false
aliased_never_runs_example = aliased_never_runs doubled 2 zeros 1 1 first_task refl

-- The first task throws, the second reads what it writes, and the third cannot throw and writes another
-- variable, which cannot throw either.
abbrev mixed : Program ℕ
mixed zero = record { args = writes 1 100 ∷ []; functor = λ xs v. 7 }
mixed (suc zero) = record { args = reads 1 100 ∷ writes 2 200 ∷ []; functor = next_value }
mixed (suc (suc t)) = record { args = writes 3 300 ∷ []; functor = next_value }

abbrev mixed_calls : ℕ → Call
mixed_calls zero = record { can_throw = true; is_noexcept = false }
mixed_calls (suc zero) = record { can_throw = true; is_noexcept = true }
mixed_calls (suc (suc t)) = record { can_throw = false; is_noexcept = true }

abbrev mixed_policies : Policies
mixed_policies v = not (v == 3)

abbrev first_throws : ℕ → Bool
first_throws t = t == 0

mixed-IsTyped : IsTyped mixed_policies mixed_calls mixed first_throws
unfolding compiles accepts
mixed-IsTyped = record { typed = typed; quiet = quiet }
  where
    typed :
        (t : ℕ)
        → compiles mixed_policies
            (mixed_calls t).can_throw
            (mixed_calls t).is_noexcept
            (mixed t).args
          ≡ true
    typed zero = refl
    typed (suc zero) = refl
    typed (suc (suc t)) = refl

    quiet : (t : ℕ) → (mixed_calls t).is_noexcept ≡ true → first_throws t ≡ false
    quiet zero e = cc
    quiet (suc t) e = ground arith

second_fails : Fails mixed first_throws 1
unfolding tracks note_all note
second_fails = inherited 1 refl refl (thrown refl)

policies_sound_example :
    ((mixed_calls 1).can_throw ≡ true)
    × ((n v : ℕ) → (tracks mixed n v).writer ≡ some 1 → mixed_policies v ≡ true)
policies_sound_example =
    policies_sound mixed_policies mixed_calls mixed first_throws mixed-IsTyped 1 second_fails

-- ===== src/Clients/Fibonacci/Schedule.antt =====
-- Both ways of examples/fibonacci.h to compute by tasks give the serial number in every schedule.
use oox_kirkon_fork.Base.{
  ℕ, zero, suc, ◌+◌, ◌^◌, ◌≤◌, ◌<◌, ◌≡◌, refl, ◌⊎◌, Option, some, arith, ℕ_discrete,
}
use oox_kirkon_fork.Base.Int.{ℤ, pos, negsuc}
use oox_kirkon_fork.Clients.Dataflow.{Var, value, call, add, Step, Steps}
use oox_kirkon_fork.Clients.Dataflow.Schedule.{Plan, plan, Meets, every_schedule}
use oox_kirkon_fork.Clients.Fibonacci.{word, add_int, fib_from, fib, oox1_fib, tree, oox2_fib}

-- The tasks behind a call of `OOX1::Fib` and of `OOX2::Fib`.
abbrev pub tasks1_from : ℕ → ℕ
tasks1_from zero = 0
tasks1_from (suc zero) = 0
tasks1_from (suc (suc n)) = suc (suc (tasks1_from (suc n)) + suc (tasks1_from n))

abbrev pub tasks2_from : ℕ → ℕ
tasks2_from zero = 0
tasks2_from (suc zero) = 0
tasks2_from (suc (suc n)) = suc (tasks2_from (suc n) + suc (tasks2_from n))

abbrev pub tasks1 : ℤ → ℕ
tasks1 (pos n) = tasks1_from n
tasks1 (negsuc n) = 0

abbrev pub tasks2 : ℤ → ℕ
tasks2 (pos n) = tasks2_from n
tasks2 (negsuc n) = 0

abbrev spec1 : ℤ → Option Plan
spec1 n = some (fib n, suc (tasks1 n))

abbrev spec2 : ℤ → Option Plan
spec2 n = some (fib n, suc (tasks2 n))

oox1_fib-Meets : Meets add_int spec1 oox1_fib
unfolding fib oox1_fib
oox1_fib-Meets (negsuc n) a c e = (value (word (negsuc n)), 0, refl, ground arith, ground arith)
oox1_fib-Meets (pos zero) a c e = (value 0, 0, refl, ground arith, ground arith)
oox1_fib-Meets (pos (suc zero)) a c e = (value 1, 0, refl, ground arith, ground arith)
oox1_fib-Meets (pos (suc (suc n))) a c e = (
  add (call (pos (suc n))) (call (pos n)),
  tasks1_from (suc (suc n)),
  ground arith,
  ground arith,
  ground arith,
)

plan-tree : (n : ℕ) → plan add_int spec2 (tree n) ≡ some (fib_from n, tasks2_from n)
unfolding fib tree
plan-tree zero = refl
plan-tree (suc zero) = refl
plan-tree (suc (suc n)) = rw (plan-tree (suc n)) refl

oox2_fib-Meets : Meets add_int spec2 oox2_fib
unfolding oox2_fib fib
oox2_fib-Meets (pos n) a c e =
    (tree n, tasks2_from n, refl, ground (arith, plan-tree n), ground arith)
oox2_fib-Meets (negsuc n) a c e = (value (word (negsuc n)), 0, refl, ground arith, ground arith)

-- The Fibonacci number of `n` and the next one, without a bound.
abbrev pair : ℕ → ℕ × ℕ
pair zero = (0, 1)
pair (suc n) = let (a, b) = pair n in (b, a + b)

abbrev pub fibonacci : ℕ → ℕ
fibonacci n = (pair n).0

fibonacci-rises : (n : ℕ) → fibonacci n ≤ fibonacci (suc n)
fibonacci-rises zero = omega arith
fibonacci-rises (suc n) = omega arith

fibonacci-le : (m n : ℕ) → m ≤ n → fibonacci m ≤ fibonacci n
fibonacci-le zero zero le = omega arith
fibonacci-le (suc m) zero le = absurd (omega arith)
fibonacci-le m (suc n) le = elim (ℕ_discrete m (suc n)) [
  | yes same ↦ rw same (omega arith)
  | no other ↦ omega (arith, fibonacci-le m n (omega arith), fibonacci-rises n)
]

-- The largest number that is an `int` is the one of 46.
fibonacci-lt : (n : ℕ) → n ≤ 46 → fibonacci n < 2 ^ 31
fibonacci-lt n le =
    let last : fibonacci 46 ≡ 1836311903 = refl in omega (arith, last, fibonacci-le n 46 le)

fib_from-fibonacci : (n : ℕ) → n ≤ 46 → fib_from n ≡ fibonacci n
unfolding fib_from
fib_from-fibonacci zero le = refl
fib_from-fibonacci (suc zero) le = refl
fib_from-fibonacci (suc (suc n)) le = omega (
  arith,
  fib_from-fibonacci (suc n) (omega arith),
  fib_from-fibonacci n (omega arith),
  fibonacci-lt (suc (suc n)) le,
)

-- What Fib means: the Fibonacci number, which is an `int`, or the argument itself if that is negative.
abbrev pub IsFib : ℤ → ℕ → Type 0
IsFib (pos n) r = (r ≡ fibonacci n) × (r < 2 ^ 31)
IsFib (negsuc n) r = r ≡ word (negsuc n)

-- The arguments whose number is an `int`.
abbrev pub InRange : ℤ → Type 0
InRange (pos n) = n ≤ 46
InRange (negsuc n) = n < 2 ^ 31

fib-IsFib : (n : ℤ) → InRange n → IsFib n (fib n)
unfolding fib
fib-IsFib (pos n) le =
    let same = fib_from-fibonacci n le in (same, omega (arith, same, fibonacci-lt n le))
fib-IsFib (negsuc n) lt = refl

-- For any `int` that is negative or at most 46, beyond which the addition overflows, the serial function
-- gives a negative argument back and the Fibonacci number otherwise, less than 2 ^ 31. In any schedule of
-- the tasks, after `j` of them, for `OOX1::Fib` and for `OOX2::Fib`: there are never more than the
-- function makes, and either the variable holds the serial number, once all of them are through, or a
-- task is left that is ready.
pub fib_schedules :
    (n : ℤ) (j : ℕ) (v : Var ℤ)
    → InRange n
    → IsFib n (fib n)
      × (Steps oox1_fib add_int j (call n) v
          → (j ≤ suc (tasks1 n))
            × (((v ≡ value (fib n)) × (j ≡ suc (tasks1 n)))
                ⊎ ((j < suc (tasks1 n)) × ((w : Var ℤ) × Step oox1_fib add_int v w))))
      × (Steps oox2_fib add_int j (call n) v
          → (j ≤ suc (tasks2 n))
            × (((v ≡ value (fib n)) × (j ≡ suc (tasks2 n)))
                ⊎ ((j < suc (tasks2 n)) × ((w : Var ℤ) × Step oox2_fib add_int v w))))
fib_schedules n j v range = (
  fib-IsFib n range,
  λ r.
      every_schedule add_int spec1 oox1_fib oox1_fib-Meets (call n) v (fib n) (suc (tasks1 n)) refl
        r,
  λ r.
      every_schedule add_int spec2 oox2_fib oox2_fib-Meets (call n) v (fib n) (suc (tasks2 n)) refl
        r,
)

-- `OOX2::Fib` makes fewer tasks than `OOX1::Fib`, wherever either makes any.
tasks_saved : (n : ℕ) → (tasks2_from n ≤ tasks1_from n) × (1 < n → tasks2_from n < tasks1_from n)
tasks_saved zero = (omega arith, λ h. omega arith)
tasks_saved (suc zero) = (omega arith, λ h. omega arith)
tasks_saved (suc (suc n)) =
    let p = tasks_saved (suc n) in
    let q = tasks_saved n in (omega (arith, p.0, q.0), λ h. omega (arith, p.0, q.0))

-- ===== src/Examples/Clients.antt =====
-- The programs of examples/ on small inputs.
use oox_kirkon_fork.Base.{
  ℕ, zero, suc, ◌-◌, ◌%◌, ◌^◌, ◌≤◌, ◌<◌, ◌≡◌, refl, ◌⊎◌, ◌↔◌, none, some, List, [], ◌∷◌, ◌++◌,
  arith, ap,
}
use oox_kirkon_fork.Clients.Dataflow.{Var, value, call, add, Step, run_call, Steps, here, then_step}
use oox_kirkon_fork.Clients.Fibonacci.{add_int, fib_from, fib, oox1_fib, oox2_fib}
use oox_kirkon_fork.Base.Int.{ℤ, pos}
use oox_kirkon_fork.Clients.Fibonacci.Schedule.{tasks1, tasks2, IsFib, fib_schedules}
use oox_kirkon_fork.Clients.Filesystem.{
  serial_disk_usage, simple_disk_usage, sum_children, is_file, add_size,
}
use oox_kirkon_fork.Clients.Filesystem.Schedule.{simple_schedules, IsTree}
use oox_kirkon_fork.Clients.Filesystem.Accumulate
use oox_kirkon_fork.Clients.Wavefront.{cell, serial_lcs, fill_rows, fill_row, fill_cell}
use oox_kirkon_fork.Clients.Wavefront.Subsequence.{Common}
use oox_kirkon_fork.Clients.Wavefront.Serial.{serial_lcs-Common}
use oox_kirkon_fork.Clients.Wavefront.Straight

abbrev two_calls : Var ℤ
two_calls = add (call (pos 2)) (call (pos 1))

fib_schedules_example :
    IsFib (pos 3) (fib (pos 3))
    × (Steps oox1_fib add_int 1 (call (pos 3)) two_calls
        → (1 ≤ suc (tasks1 (pos 3)))
          × (((two_calls ≡ value (fib (pos 3))) × (1 ≡ suc (tasks1 (pos 3))))
              ⊎ ((1 < suc (tasks1 (pos 3))) × ((w : Var ℤ) × Step oox1_fib add_int two_calls w))))
    × (Steps oox2_fib add_int 1 (call (pos 3)) two_calls
        → (1 ≤ suc (tasks2 (pos 3)))
          × (((two_calls ≡ value (fib (pos 3))) × (1 ≡ suc (tasks2 (pos 3))))
              ⊎ ((1 < suc (tasks2 (pos 3))) × ((w : Var ℤ) × Step oox2_fib add_int two_calls w))))
fib_schedules_example = fib_schedules (pos 3) 1 two_calls (omega arith)

one_step : Steps oox1_fib add_int 1 (call (pos 3)) two_calls
unfolding oox1_fib
one_step = then_step here (run_call refl)

fib_runs : (fib (pos 10) ≡ 55) × (tasks1 (pos 10) ≡ 264) × (tasks2 (pos 10) ≡ 176)
unfolding fib fib_from add_int
fib_runs = (refl, refl, refl)

-- The tree of the source.
abbrev inodes : List ℕ
inodes = 4 ∷ 2 ∷ 3 ∷ 8 ∷ 9 ∷ 10 ∷ []

inside : IsTree inodes
unfolding is_file
inside zero v e file = ground arith
inside (suc zero) v e file = ground arith
inside (suc (suc zero)) v e file = ground arith
inside (suc (suc (suc zero))) v e file = ground arith
inside (suc (suc (suc (suc zero)))) v e file = ground arith
inside (suc (suc (suc (suc (suc zero))))) v e file = ground arith
inside (suc (suc (suc (suc (suc (suc node)))))) v e file = ground arith

simple_schedules_example :
    (a c : ℕ) × (serial_disk_usage 6 inodes 0 ≡ some a)
    × ((j : ℕ) (v : Var ℕ)
        → Steps (simple_disk_usage inodes) add_size j (call 0) v
        → (j ≤ c)
          × (((v ≡ value a) × (j ≡ c))
              ⊎ ((j < c) × ((w : Var ℕ) × Step (simple_disk_usage inodes) add_size v w))))
simple_schedules_example = simple_schedules inodes 0 inside (omega arith)

disk_usage_runs : serial_disk_usage 6 inodes 0 ≡ some 79
unfolding serial_disk_usage sum_children is_file
disk_usage_runs = refl

-- Two sizes, whose sum is more than an `int` holds, pushed in the other order.
abbrev push_back : List ℕ → ℕ → List ℕ
push_back v x = v ++ x ∷ []

append_nil : (v : List ℕ) → v ≡ v ++ []
append_nil [] = refl
append_nil (x ∷ v) = ap (λ w. x ∷ w) (append_nil v)

push_back-Inserts : Accumulate.Inserts push_back
push_back-Inserts v x = (v, [], append_nil v, refl)

abbrev sizes : List ℕ
sizes = 2147483647 ∷ 1 ∷ []

pushed : (s : Accumulate.System) × Accumulate.Reach push_back sizes s
pushed = (
  _,
  Accumulate.later
      (Accumulate.later
        (Accumulate.later Accumulate.here (Accumulate.push (2147483647 ∷ []) 1 [] refl))
        (Accumulate.push [] 2147483647 [] refl))
      (Accumulate.finish refl refl),
)

any_order_example :
    (pushed.0.result ≡ none → (t : Accumulate.System) × Accumulate.Step push_back pushed.0 t)
    × ((r : ℕ)
        → pushed.0.result ≡ some r
        → (r ≡ Accumulate.size_of_int (Accumulate.sum sizes % 2 ^ 32))
          × (Accumulate.sum sizes < 2 ^ 64 - 2 ^ 31
              → (r ≡ Accumulate.serial_sum sizes 0) ↔ (Accumulate.sum sizes < 2 ^ 31)))
any_order_example = Accumulate.any_order push_back push_back-Inserts sizes pushed.1

truncated : (Accumulate.total sizes ≡ 2 ^ 64 - 2 ^ 31) × (Accumulate.serial_sum sizes 0 ≡ 2 ^ 31)
unfolding Accumulate.total Accumulate.accumulate Accumulate.size_of_int
truncated = (refl, refl)

-- "abc" and "xacb".
abbrev short : List ℕ
short = 97 ∷ 98 ∷ 99 ∷ []

abbrev long : List ℕ
long = 120 ∷ 97 ∷ 99 ∷ 98 ∷ []

serial_lcs-Common_example :
    (k : ℕ) × (serial_lcs short long ≡ some k)
    × Common short long 3 4 k
    × ((l : ℕ) → Common short long 3 4 l → l ≤ k)
serial_lcs-Common_example = serial_lcs-Common short long (omega arith) (omega arith)

lcs_runs : serial_lcs short long ≡ some 2
unfolding serial_lcs fill_rows fill_row fill_cell cell
lcs_runs = refl

-- ===== src/Clients/Fibonacci.antt =====
-- examples/fibonacci.h: the Fibonacci numbers, serial and by tasks in two ways, for every `int` that may
-- be given. The variables hold the 32-bit words of the numbers. An addition wraps around where the
-- source overflows, which C++ leaves undefined.
pub mod Schedule
use oox_kirkon_fork.Base.{ℕ, zero, suc, ◌+◌, ◌-◌, ◌%◌, ◌^◌, ltb, Option, some, if◌then◌else◌}
use oox_kirkon_fork.Base.Int.{ℤ, pos, negsuc}
use oox_kirkon_fork.Clients.Dataflow.{Var, value, call, add}

-- The word of an `int`.
abbrev pub word : ℤ → ℕ
word (pos n) = n % 2 ^ 32
word (negsuc n) = 2 ^ 32 - 1 - n

-- `std::plus<int>`
unfoldable pub add_int : ℕ → ℕ → ℕ
add_int a b = (a + b) % 2 ^ 32

-- `Serial::Fib`, for an argument that is not negative.
unfoldable pub fib_from : ℕ → ℕ
unfolding add_int
fib_from zero = 0
fib_from (suc zero) = 1
fib_from (suc (suc n)) = add_int (fib_from (suc n)) (fib_from n)

-- `Serial::Fib`; a negative argument is given back.
unfoldable pub fib : ℤ → ℕ
unfolding fib_from
fib (pos n) = fib_from n
fib (negsuc n) = word (negsuc n)

-- `OOX1::Fib`, where a task calls it for `n - 1` and another for `n - 2`.
unfoldable pub oox1_fib : ℤ → Option (Var ℤ)
oox1_fib (pos n) =
    if ltb n 2
    then some (value (word (pos n)))
    else some (add (call (pos (n - 1))) (call (pos (n - 2))))
oox1_fib (negsuc n) = some (value (word (negsuc n)))

-- `OOX2::Fib`, which calls itself for `n - 1` and leaves `n - 2` to a task.
unfoldable pub tree : ℕ → Var ℤ
tree zero = value 0
tree (suc zero) = value 1
tree (suc (suc n)) = add (tree (suc n)) (call (pos n))

unfoldable pub oox2_fib : ℤ → Option (Var ℤ)
unfolding tree
oox2_fib (pos n) = some (tree n)
oox2_fib (negsuc n) = some (value (word (negsuc n)))

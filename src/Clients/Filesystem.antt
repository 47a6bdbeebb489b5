-- ===== src/Clients/Filesystem.antt =====
-- examples/filesystem.h: the disk usage of a directory tree that lies in an array. A node of the
-- array is its index, and an access behind the array is `none`.
pub mod Schedule
pub mod Accumulate
use oox_kirkon_fork.Base.{
  ℕ, zero, suc, ◌+◌, ◌-◌, ◌%◌, ◌^◌, ltb, leb, Bool, Option, none, some, List, [], ◌∷◌, ◌++◌,
  if◌then◌else◌, get_elem?,
}
use oox_kirkon_fork.Clients.Dataflow.{Var, value, call, add}

-- `INode::is_file`, `size`, and `begin` to `end` as the first child and how many there are.
unfoldable pub is_file : ℕ → Bool
is_file v = ltb 7 v

-- The sum of two `size_t`.
abbrev pub add_size : ℕ → ℕ → ℕ
add_size a b = (a + b) % 2 ^ 64

-- The loop of `disk_usage`, over `rounds` children from `node` on.
unfoldable pub sum_children : (ℕ → Option ℕ) → (rounds node sum : ℕ) → Option ℕ
sum_children usage zero node sum = some sum
sum_children usage (suc r) node sum = elim (usage node) [
  | none ↦ none
  | some s ↦ sum_children usage r (node + 1) (add_size sum s)
]

-- `Serial::disk_usage`. A child lies behind its directory, so that the length of the array is fuel
-- enough.
unfoldable pub serial_disk_usage : (fuel : ℕ) → List ℕ → ℕ → Option ℕ
unfolding sum_children is_file
serial_disk_usage zero tree node = none
serial_disk_usage (suc f) tree node = elim (get_elem? tree node) [
  | none ↦ none
  | some v ↦ if is_file v then some v else sum_children (serial_disk_usage f tree) v (node + 1) 0
]

-- The loop of `disk_usage`: an addition for each child, one after the other on `sum`.
unfoldable pub add_children : (rounds node : ℕ) → Var ℕ → Var ℕ
add_children zero node sum = sum
add_children (suc r) node sum = add_children r (node + 1) (add sum (call node))

-- `Simple::disk_usage`
unfoldable pub simple_disk_usage : List ℕ → ℕ → Option (Var ℕ)
unfolding add_children is_file
simple_disk_usage tree node = elim (get_elem? tree node) [
  | none ↦ none
  | some v ↦ some (if is_file v then value v else add_children v (node + 1) (value 0))
]

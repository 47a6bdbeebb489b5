-- ===== src/Runtime/Start.antt =====
-- `task_node::start_count` of oox/oox.h: 27 bits count the prerequisites that are left, the bits 28
-- to 31 hold the failures of the task. An operation is one atomic read-modify-write of the word.
pub mod Gate
use oox_kirkon_fork.Base.{
  ℕ, ◌-◌, ◌*◌, ◌/◌, ◌%◌, ◌^◌, ◌==◌, leb, Bool, false, not, ◌&&◌, ◌||◌, Option, none, some,
  if◌then◌else◌,
}
use oox_kirkon_fork.Base.Bits.{low_bits, bit, set_bit, sub32}
use oox_kirkon_fork.Runtime.Node.{TaskNode, head_is_done}

abbrev pub start_count_bits : ℕ
start_count_bits = 27

abbrev pub start_count_mask : ℕ
start_count_mask = 2 ^ start_count_bits - 1

-- `start_dependency_cancelled_bit`, `start_user_cancelled_bit` and `start_exception_bit`.
pub data FailureBit : Type 0 where
  dependency_cancelled user_cancelled exception : FailureBit

-- the position of the bit
abbrev pub position : FailureBit → ℕ
position dependency_cancelled = 28
position user_cancelled = 29
position exception = 30

-- the position of `start_failure_flag`
abbrev pub failure_flag : ℕ
failure_flag = 31

abbrev pub has_bit : FailureBit → ℕ → Bool
has_bit b w = bit w (position b)

unfoldable pub start_prerequisite_count : ℕ → ℕ
start_prerequisite_count w = low_bits w start_count_bits

-- `& start_failure_bits_mask`: the three bits in their places.
unfoldable pub failure_bits : TaskNode → ℕ
failure_bits t = t.start_count / 2 ^ 28 % 8 * 2 ^ 28

unfoldable pub has_failure : TaskNode → Bool
unfolding failure_bits
has_failure t = not (failure_bits t == 0)

unfoldable pub has_start_failure : TaskNode → Bool
unfolding failure_bits
has_start_failure t = not (failure_bits t == 0)

unfoldable pub has_non_user_start_failure : TaskNode → Bool
has_non_user_start_failure t =
    has_bit dependency_cancelled t.start_count || has_bit exception t.start_count

-- The test of `start_failure_flag` by `do_notify_arcs`.
unfoldable pub producer_failed : TaskNode → Bool
producer_failed t = bit t.start_count failure_flag

-- The loop ends by a compare-exchange on the word that it read, so it acts at once. The result says
-- whether the bit is new.
unfoldable pub mark_failure : TaskNode → FailureBit → TaskNode × Bool
mark_failure t b = if head_is_done t.head then (t, false) else (
  record t { start_count = set_bit (set_bit t.start_count failure_flag) (position b) },
  not (has_bit b t.start_count),
)

-- What `remove_prerequisite` does once the word is decremented: leave the task waiting, spawn it,
-- or notify its successors in its place.
pub data Dispatch : Type 0 where
  waiting spawn skip : Dispatch

-- `none` where the assertion fails: fewer prerequisites are left than are removed.
unfoldable pub remove_prerequisite : TaskNode → ℕ → Option (TaskNode × Dispatch)
unfolding start_prerequisite_count has_non_user_start_failure
remove_prerequisite t n =
    let t' : TaskNode = record t { start_count = sub32 t.start_count n } in
    if leb n (start_prerequisite_count t.start_count)
    then some (
      t',
      if start_prerequisite_count t.start_count == n
          then (if has_non_user_start_failure t' then skip else spawn)
          else waiting,
    )
    else none

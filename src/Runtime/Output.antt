-- ===== src/Runtime/Output.antt =====
-- `output_node` of oox/oox.h: the slot for a value that a task writes. `countdown` counts the
-- consumers that still use the value, and the last of them lets the next writer go on.
pub mod Countdown
use oox_kirkon_fork.Base.{
  ℕ, ◌+◌, ◌-◌, ◌/◌, ◌^◌, ◌==◌, leb, Bool, true, false, Option, none, some, if◌then◌else◌,
}
use oox_kirkon_fork.Runtime.Node.{OutputNode, NextWriter, unknown, ready, no_owner, owner, writer}

-- `std::numeric_limits<int>::max()/2`
abbrev pub max_count : ℕ
max_count = (2 ^ 31 - 1) / 2

-- The store by which `notify_successors` starts on a slot.
unfoldable pub start_countdown : OutputNode → OutputNode
start_countdown o = record o { countdown = max_count }

-- The increment by which `assign_prerequisite` keeps the slot of a done task. `none` where the
-- assertion `k > 1` fails.
unfoldable pub retain : OutputNode → Option OutputNode
retain o = if leb 2 (o.countdown + 1) then some (record o { countdown = o.countdown + 1 }) else none

-- The compare-exchange of `do_notify_out`, and whether it installed the marker.
unfoldable pub mark_ready : OutputNode → OutputNode × Bool
mark_ready o = elim o.next_writer [
  | unknown ↦ (record o { next_writer = ready }, true)
  | other ↦ (o, false)
]

-- `countdown -= n` of `remove_back_arc`, with the next writer to notify if nothing is left. `none`
-- where the assertion fails.
unfoldable pub remove_back_arc : OutputNode → ℕ → Option (OutputNode × Option NextWriter)
remove_back_arc o n =
    if leb n o.countdown
    then some (
      record o { countdown = o.countdown - n },
      if o.countdown - n == 0 then some o.next_writer else none,
    )
    else none

-- What `set_next_writer` has to do about the marker that it found: give back the conceptual back
-- arc of the variable, or nothing. `none` where an assertion fails.
unfoldable pub displaced : (old new : NextWriter) → Option Bool
displaced unknown d = some false
displaced ready d = some true
displaced no_owner no_owner = some false
displaced _ _ = none

-- The exchange of `set_next_writer`.
unfoldable pub exchange_writer : OutputNode → NextWriter → NextWriter × OutputNode
exchange_writer o d = (o.next_writer, record o { next_writer = d })

-- What `notify_next_writer` does for the task `self`: the references to give back, and the task
-- that is released or loses a prerequisite. `none` where it would follow a null pointer.
pub data Effect : Type 0 where
  nothing : Effect
  release : (task : ℕ) → Effect
  remove_prerequisite : (task : ℕ) → Effect

unfoldable pub notify_next_writer : ℕ → NextWriter → Option (ℕ × Effect)
notify_next_writer self unknown = none
notify_next_writer self ready = none
notify_next_writer self no_owner = some (1, nothing)
notify_next_writer self (owner t) = if t == self then some (2, nothing) else some (1, release t)
notify_next_writer self (writer t) = some (1, remove_prerequisite t)

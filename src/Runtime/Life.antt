-- ===== src/Runtime/Life.antt =====
-- `task_life` of oox/oox.h: the count of the references that keep a task alive, run by one thread.
pub mod Sharing
use oox_kirkon_fork.Base.{ℕ, ◌+◌, ◌-◌, ◌==◌, leb, Bool, true, Option, none, some, if◌then◌else◌}

unfoldable pub life_add_count : (life_count lifetime : ℕ) → ℕ
life_add_count life_count lifetime = life_count + lifetime

unfoldable pub life_set_count : (life_count lifetime : ℕ) → ℕ
life_set_count life_count lifetime = lifetime

-- The second part of `life_release`: `life_count -= n`. `none` where the assertion fails.
unfoldable pub life_subtract : (life_count n : ℕ) → Option (ℕ × Bool)
life_subtract life_count n =
    if leb n life_count then some (life_count - n, life_count - n == 0) else none

-- The new count, and whether the caller has to delete the task. A caller that finds its own
-- references alone leaves the count.
unfoldable pub life_release : (life_count n : ℕ) → Option (ℕ × Bool)
unfolding life_subtract
life_release life_count n =
    if life_count == n then some (life_count, true) else life_subtract life_count n

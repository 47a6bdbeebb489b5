-- ===== src/Runtime/ArcList.antt =====
-- `arc_list` of oox/oox.h: the successors of a task, a list that is closed when the task is done.
pub mod Stack
use oox_kirkon_fork.Base.{Bool, true, false, Option, none, some, List, ◌∷◌}
use oox_kirkon_fork.Runtime.Node.{Arc, Head, live, head_is_tagged}

-- `add_arc`, whose loop acts at once, in the compare-exchange that ends it.
unfoldable pub add_arc : Head → Arc → Head × Bool
add_arc (live arcs) i = (live (i ∷ arcs), true)
add_arc h i = (h, false)

-- The arcs of a list that an exchange took; `none` for a tagged word, which leads to no arc.
unfoldable pub live_arcs : Head → Option (List Arc)
live_arcs (live arcs) = some arcs
live_arcs h = none

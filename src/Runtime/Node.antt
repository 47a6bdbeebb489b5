-- ===== src/Runtime/Node.antt =====
-- The data of oox/oox.h: arcs, arc lists, output nodes and task nodes. A task and an exception
-- control are named by a number, their address.
use oox_kirkon_fork.Base.{ℕ, Option, List, ◌∷◌, Bool, true, false}

-- `arc::kinds`, without `exception_signal`, which has a constructor of its own below.
pub data ArcKind : Type 0 where
  flow_only back_only flow_back flow_copy forward_copy : ArcKind

-- `arc`: its union holds a task, or the exception control of an `exception_signal`.
pub data Arc : Type 0 where
  edge : (kind : ArcKind) (node port : ℕ) → Arc
  exception_signal : (control : ℕ) → Arc

-- `arc_list::head`. A live list is owned by the head that points to it, so it is a list of arcs,
-- the newest first; `nullptr` is the empty one. The other values are tagged words.
pub data Head : Type 0 where
  live : List Arc → Head
  task_done : Head
  terminal_exception : (control : ℕ) → Head
  deferred_redirect : (node port : ℕ) → Head

-- `output_node::next_writer`, a tagged word: see its comment in the source.
pub data NextWriter : Type 0 where
  unknown ready no_owner : NextWriter
  owner : (task : ℕ) → NextWriter
  writer : (task : ℕ) → NextWriter

pub record OutputNode : Type 0 where
  pub next_writer : NextWriter
  pub countdown : ℕ

-- `oox_var_base`. `owner` is the task whose storage the variable refers to, `storage_ptr` less
-- `storage_offset`; it is `none` where the offset is 0, as for `var<void>`.
pub record Var : Type 0 where
  pub current_task : Option ℕ
  pub owner : Option ℕ
  pub current_port : ℕ
  pub is_forwarded : Bool
  pub is_deferred : Bool

-- `task_node`, with `task_life::life_count`, the output nodes of `output_slots_storage` and, for a
-- task whose functor returns a variable, that variable once it is stored as the task's result.
pub record TaskNode : Type 0 where
  pub life_count : ℕ
  pub head : Head
  pub start_count : ℕ
  pub output_nodes : List OutputNode
  pub forwarded : Option ℕ

-- The tests of the tagged word, on the constructors.
abbrev pub head_is_live : Head → Bool
head_is_live (live (a ∷ rest)) = true
head_is_live _ = false

abbrev pub head_is_tagged : Head → Bool
head_is_tagged (live arcs) = false
head_is_tagged _ = true

abbrev pub head_is_terminal : Head → Bool
head_is_terminal (terminal_exception c) = true
head_is_terminal _ = false

abbrev pub head_is_done : Head → Bool
head_is_done task_done = true
head_is_done (terminal_exception c) = true
head_is_done _ = false

abbrev pub head_is_redirect : Head → Bool
head_is_redirect (deferred_redirect n p) = true
head_is_redirect _ = false

abbrev pub writer_is_tagged : NextWriter → Bool
writer_is_tagged NextWriter.unknown = false
writer_is_tagged (NextWriter.writer t) = false
writer_is_tagged _ = true

abbrev pub writer_is_ready : NextWriter → Bool
writer_is_ready NextWriter.ready = true
writer_is_ready _ = false

abbrev pub writer_is_no_owner : NextWriter → Bool
writer_is_no_owner NextWriter.no_owner = true
writer_is_no_owner _ = false

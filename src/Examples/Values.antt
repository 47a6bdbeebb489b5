-- ===== src/Examples/Values.antt =====
-- The theorems on values of oox/oox.h at a concrete state and a concrete chain of variables.
use oox_kirkon_fork.Base.{ℕ, ◌==◌, ◌≡◌, refl, true, false, none, some, [], ◌∷◌, if◌then◌else◌}
use oox_kirkon_fork.Runtime.Node.{TaskNode, Var, task_done}
use oox_kirkon_fork.Runtime.Result.Lifetime.{
  Tally, emplacing, resetting, consuming, perform, perform_all, is_there, values_balanced,
}
use oox_kirkon_fork.Runtime.Store.{Store, ok}
use oox_kirkon_fork.Runtime.Store.Vars.{empty_var}
use oox_kirkon_fork.Runtime.Store.Values.{value_of, wait_and_get}
use oox_kirkon_fork.Runtime.Store.Values.Get.{get, misread}

-- A default value that is given to a writer, and one that is put in after a reset.
abbrev used : Tally ℕ
used = record {
  state = record { state_set = true; storage = some 7 };
  constructed = 2;
  destroyed = 1;
}

abbrev gone : Tally ℕ
gone = record {
  state = record { state_set = false; storage = none };
  constructed = 2;
  destroyed = 2;
}

values_balanced_example :
    (used.state.state_set ≡ is_there used.state.storage)
    × (gone.state.storage ≡ none)
    × (gone.constructed ≡ gone.destroyed)
unfolding perform_all perform
values_balanced_example =
    values_balanced (consuming true 0 ∷ resetting ∷ emplacing 7 ∷ consuming false 0 ∷ []) used gone
      refl refl

-- The task 1 has returned the variable 8, which the task 2 has given its value.
abbrev done_node : TaskNode
done_node = record {
  life_count = 2;
  head = task_done;
  start_count = 0;
  output_nodes = [];
  forwarded = none;
}

abbrev outer : Var
outer = record {
  current_task = some 1;
  owner = some 1;
  current_port = 0;
  is_forwarded = true;
  is_deferred = false;
}

abbrev inner : Var
inner = record {
  current_task = some 2;
  owner = some 2;
  current_port = 0;
  is_forwarded = false;
  is_deferred = false;
}

abbrev memory : Store
memory = record {
  task = λ t.
      if t == 1
      then some (record done_node { forwarded = some 8 })
      else if t == 2
      then some done_node
      else none;
  control = λ c. none;
  next_control = 0;
  var = λ v. if v == 7 then outer else if v == 8 then inner else empty_var;
  spawned = [];
  woken = [];
}

-- Where the result of a task is the variable of another, `wait_and_get` follows it, and `get` does not.
forwarded_reads :
    (wait_and_get true 2 7 memory ≡ ok (value_of 2) memory)
    × (get true 7 memory ≡ ok (misread 1) memory)
unfolding wait_and_get get
forwarded_reads = (refl, refl)

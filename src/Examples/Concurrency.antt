-- ===== src/Examples/Concurrency.antt =====
-- The theorems on the words that threads share in oox/oox.h, at concrete runs.
use oox_kirkon_fork.Base.{
  List, ◌++◌, ℕ, ◌≤◌, ◌≡◌, refl, ◌↔◌, Bool, true, false, none, some, [], ◌∷◌, arith,
}
use oox_kirkon_fork.Runtime.Node.{TaskNode, live}
use oox_kirkon_fork.Runtime.Start.{
  user_cancelled, exception, has_non_user_start_failure, start_prerequisite_count, waiting, skip,
}
use oox_kirkon_fork.Runtime.Start.Gate
use oox_kirkon_fork.Runtime.Start.Gate.{take, mark, gate_opens_once}
use oox_kirkon_fork.Runtime.Life.{life_subtract}
use oox_kirkon_fork.Runtime.Life.Sharing
use oox_kirkon_fork.Runtime.Life.Sharing.{holding, differing, finished, deleted_once}

-- A task with five prerequisites.
abbrev five : TaskNode
five = record {
  life_count = 3;
  head = live [];
  start_count = 5;
  output_nodes = [];
  forwarded = none;
}

gate_opens_once_example :
    (u : TaskNode) × (Gate.run (take 3 ∷ mark user_cancelled ∷ mark exception ∷ take 2 ∷ []) five
      ≡ some (waiting ∷ skip ∷ [], u))
    × (start_prerequisite_count u.start_count ≡ 0)
unfolding has_non_user_start_failure start_prerequisite_count
gate_opens_once_example =
    gate_opens_once (take 3 ∷ mark user_cancelled ∷ mark exception ∷ []) 2 five refl (omega arith)
      (omega arith) refl

-- Two threads with one and two references; the first gives its reference back, then the second.
abbrev shared : Sharing.System
shared = record { life_count = 3; holders = holding 1 ∷ holding 2 ∷ [] }

abbrev first_differs : Sharing.System
first_differs = record { life_count = 3; holders = differing 1 ∷ holding 2 ∷ [] }

abbrev first_gone : Sharing.System
first_gone = record { life_count = 2; holders = finished false ∷ holding 2 ∷ [] }

abbrev both_gone : Sharing.System
both_gone = record { life_count = 2; holders = finished false ∷ finished true ∷ [] }

shared-IsStart : Sharing.IsStart shared
shared-IsStart = record {
  each = (omega arith, (omega arith, tt));
  some_one = omega arith;
  counted = refl;
  none_deletes = refl;
}

to_first_differs : Sharing.Reach shared first_differs
to_first_differs =
    Sharing.later Sharing.here
      (Sharing.pick [] (holding 2 ∷ []) refl (Sharing.load_other (λ e. omega arith)) refl)

to_both_gone : Sharing.Reach shared both_gone
unfolding life_subtract
to_both_gone =
    Sharing.later {t = first_gone}
      (Sharing.later to_first_differs
        (Sharing.pick [] (holding 2 ∷ []) refl (Sharing.subtract refl) refl))
      (Sharing.pick (finished false ∷ []) [] refl (Sharing.load_equal refl) refl)

deleted_once_example :
    (Sharing.deleters first_differs ≤ 1)
    × ((Sharing.deleters first_differs ≡ 1) ↔ (Sharing.outstanding first_differs ≡ 0))
    × ((pre post : List Sharing.Holder) (n : ℕ)
        → first_differs.holders ≡ pre ++ differing n ∷ post
        → ((r : ℕ × Bool) × (life_subtract first_differs.life_count n ≡ some r))
          × (Sharing.deleters first_differs ≡ 0))
deleted_once_example = deleted_once to_first_differs shared-IsStart

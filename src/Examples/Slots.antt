-- ===== src/Examples/Slots.antt =====
-- The theorems on an output slot of oox/oox.h at a run with one consumer and a next writer.
use oox_kirkon_fork.Base.{ℕ, ◌-◌, ◌<◌, ◌≡◌, refl, ◌≢◌, ◌⊎◌, ◌↔◌, none, [], ◌∷◌, arith}
use oox_kirkon_fork.Runtime.Node.{NextWriter, ready, writer}
use oox_kirkon_fork.Runtime.Output.{
  start_countdown, retain, mark_ready, remove_back_arc, displaced, exchange_writer, max_count,
}
use oox_kirkon_fork.Runtime.Output.Countdown.{
  System, Step, Reach, here, later, begin, give, load_null, exchange, subtract, consume, set,
  remove, finished, returned, absent, removing, counting, before,
}
use oox_kirkon_fork.Runtime.Output.Countdown.Invariant.{IsFinal}
use oox_kirkon_fork.Runtime.Output.Countdown.Safety.{notified_once, slot_safe}

-- The task 7 writes next.
abbrev next : NextWriter
next = writer 7

next-IsFinal : IsFinal next
next-IsFinal = (λ e. cc, λ e. cc)

-- The producer is through, and one consumer has a back arc.
abbrev waiting : System
waiting = record {
  out = record { next_writer = ready; countdown = 2 };
  producer = finished;
  setter = absent;
  held = 1;
  notified = [];
}

to_waiting : Reach next waiting
unfolding start_countdown mark_ready remove_back_arc
to_waiting =
    let r1 = later here (begin refl) in
    let r2 = later r1 (give max_count refl (omega arith) (λ e. cc)) in
    let r3 = later r2 (load_null (max_count - 1) refl refl) in
    let r4 = later r3 (exchange (max_count - 1) refl) in
    later r4 (subtract (max_count - 2) refl refl)

-- The variable is written again, and the consumer ends.
abbrev through : System
through = record {
  out = record { next_writer = next; countdown = 0 };
  producer = finished;
  setter = returned;
  held = 0;
  notified = next ∷ [];
}

to_through : Reach next through
unfolding displaced exchange_writer remove_back_arc
to_through =
    let r1 = later to_waiting (set refl refl) in
    let r2 = later r1 (remove refl refl) in later r2 (consume (omega arith) refl)

notified_once_example :
    ((through.notified ≡ []) ⊎ (through.notified ≡ next ∷ []))
    × ((through.notified ≡ next ∷ [])
        ↔ ((through.producer ≡ finished) × (through.setter ≡ returned) × (through.held ≡ 0)))
notified_once_example = notified_once next-IsFinal to_through

slot_safe_example :
    ((c : ℕ) → waiting.producer ≡ counting c → remove_back_arc waiting.out c ≢ none)
    × (0 < waiting.held → remove_back_arc waiting.out 1 ≢ none)
    × (waiting.setter ≡ removing → remove_back_arc waiting.out 1 ≢ none)
    × (waiting.setter ≡ absent → waiting.producer ≢ before → retain waiting.out ≢ none)
    × (waiting.setter ≡ absent → displaced waiting.out.next_writer next ≢ none)
    × ((t : System) → waiting.notified ≡ next ∷ [] → ¬ (Step next waiting t))
slot_safe_example = slot_safe next-IsFinal to_waiting

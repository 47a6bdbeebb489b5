-- ===== src/Runtime/Output/Countdown/Safety.antt =====
-- When the next writer of an output slot of oox/oox.h is notified, and the assertions on the slot.
use oox_kirkon_fork.Base.{ℕ, ◌<◌, ◌≡◌, ◌≢◌, ◌⊎◌, ◌↔◌, none, [], ◌∷◌, arith}
use oox_kirkon_fork.Runtime.Node.{NextWriter}
use oox_kirkon_fork.Runtime.Output.{retain, remove_back_arc, displaced}
use oox_kirkon_fork.Runtime.Output.Countdown.{
  before, counting, finished, absent, removing, returned, System, Step, begin, give, attach,
  load_null, load_other, exchange, subtract, consume, set, remove, Reach,
}
use oox_kirkon_fork.Runtime.Output.Countdown.Invariant.{Inv, Reach-Inv, IsFinal}

module _ {d : NextWriter} (final : IsFinal d) where
  -- Let `d` be a final value for `next_writer`, neither null nor the ready marker. In every state
  -- that is reached, `notify_next_writer` has been called at most once, with `d`, and it has been
  -- called exactly when the producer is through with the slot, `set_next_writer` has returned, and
  -- no consumer has a back arc left.
  pub notified_once :
      {s : System}
      → Reach d s
      → ((s.notified ≡ []) ⊎ (s.notified ≡ d ∷ []))
        × ((s.notified ≡ d ∷ []) ↔ ((s.producer ≡ finished) × (s.setter ≡ returned) × (s.held ≡ 0)))
  notified_once {s} r =
      let inv = Reach-Inv final r in
      (
        ground (arith, inv.told),
        (
          λ e. ground (arith, inv.place, inv.written, inv.counted, inv.told),
          λ e. ground (arith, inv.place, inv.written, inv.counted, inv.told),
        ),
      )

  slot_assertions :
      {s : System}
      → Reach d s
      → ((c : ℕ) → s.producer ≡ counting c → remove_back_arc s.out c ≢ none)
        × (0 < s.held → remove_back_arc s.out 1 ≢ none)
        × (s.setter ≡ removing → remove_back_arc s.out 1 ≢ none)
        × (s.setter ≡ absent → s.producer ≢ before → retain s.out ≢ none)
        × (s.setter ≡ absent → displaced s.out.next_writer d ≢ none)
  unfolding remove_back_arc retain displaced
  slot_assertions {s} r =
      let inv = Reach-Inv final r in
      (
        λ c e h. ground (arith, inv.place, inv.written, inv.counted),
        λ h q. ground (arith, inv.place, inv.written, inv.counted),
        λ e q. ground (arith, inv.place, inv.written, inv.counted),
        λ e p q. ground (arith, inv.place, inv.written, inv.counted),
        λ e q. ground (arith, inv.place, inv.written),
      )

  notified_is_last : {s t : System} → Reach d s → s.notified ≡ d ∷ [] → ¬ (Step d s t)
  unfolding remove_back_arc retain displaced
  notified_is_last {s} r e st = quiet (Reach-Inv final r) st
    where
      quiet : {t : System} → Inv d s → Step d s t → ⊥
      quiet inv (begin p) = ground (arith, inv.place, inv.told)
      quiet inv (give c p l n) = ground (arith, inv.place, inv.counted, inv.told)
      quiet inv (attach p q x) = ground (arith, inv.place, inv.written, inv.counted, inv.told)
      quiet inv (load_null c p n) = ground (arith, inv.place, inv.counted, inv.told)
      quiet inv (load_other c p n) = ground (arith, inv.place, inv.counted, inv.told)
      quiet inv (exchange c p) = ground (arith, inv.place, inv.counted, inv.told)
      quiet inv (subtract c p x) = ground (arith, inv.place, inv.counted, inv.told)
      quiet inv (consume h x) = ground (arith, inv.place, inv.counted, inv.told)
      quiet inv (set q x) = ground (arith, inv.place, inv.written, inv.counted, inv.told)
      quiet inv (remove q x) = ground (arith, inv.place, inv.written, inv.counted, inv.told)

  -- In every state that is reached, no assertion fails on the slot: not in `remove_back_arc`, called
  -- by the producer, a consumer or `set_next_writer`, nor in `assign_prerequisite` while the
  -- variable refers to the done task, nor about the value that `set_next_writer` displaces. And once
  -- the next writer has been notified, no thread takes a step on the slot again.
  pub slot_safe :
      {s : System}
      → Reach d s
      → ((c : ℕ) → s.producer ≡ counting c → remove_back_arc s.out c ≢ none)
        × (0 < s.held → remove_back_arc s.out 1 ≢ none)
        × (s.setter ≡ removing → remove_back_arc s.out 1 ≢ none)
        × (s.setter ≡ absent → s.producer ≢ before → retain s.out ≢ none)
        × (s.setter ≡ absent → displaced s.out.next_writer d ≢ none)
        × ((t : System) → s.notified ≡ d ∷ [] → ¬ (Step d s t))
  slot_safe {s} r =
      let (counts, holds, removes, retains, displaces) = slot_assertions r in
      (counts, holds, removes, retains, displaces, λ t e. notified_is_last r e)

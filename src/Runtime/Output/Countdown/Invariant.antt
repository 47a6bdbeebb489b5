-- ===== src/Runtime/Output/Countdown/Invariant.antt =====
-- What holds of an output slot of oox/oox.h in every state that is reached.
use oox_kirkon_fork.Base.{
  ℕ, ◌+◌, ◌≤◌, ◌≡◌, refl, ◌≢◌, ◌⊎◌, inl, ◌==◌, [], ◌∷◌, arith, if◌then◌else◌,
}
use oox_kirkon_fork.Runtime.Node.{OutputNode, NextWriter, unknown, ready}
use oox_kirkon_fork.Runtime.Output.{
  start_countdown, retain, mark_ready, remove_back_arc, displaced, exchange_writer,
}
use oox_kirkon_fork.Runtime.Output.Countdown.{
  Producer, before, giving, saw_null, counting, finished, Setter, absent, removing, System, Step,
  begin, give, attach, load_null, load_other, exchange, subtract, consume, set, remove, Reach, here,
  later,
}

abbrev pub pending : Producer → ℕ
pending (giving c) = c
pending (saw_null c) = c
pending (counting c) = c
pending _ = 0

-- The conceptual back arc of the variable, once the ready marker stands for it.
abbrev pub conceptual : NextWriter → Setter → ℕ
conceptual ready absent = 1
conceptual n removing = 1
conceptual n s = 0

-- What the producer's place says of the slot.
abbrev pub Place : NextWriter → Producer → OutputNode → Setter → ℕ → Type 0
Place d before o s held = (held ≡ 0) × (o.countdown ≡ 1) × (o.next_writer ≢ ready) × (s ≢ removing)
Place d (giving c) o s held = (2 ≤ c) × (o.next_writer ≢ ready) × (s ≢ removing)
Place d (saw_null c) o s held = (2 ≤ c) × (o.next_writer ≢ ready) × (s ≢ removing)
Place d (counting c) o s held = (1 ≤ c) × (o.next_writer ≢ unknown)
Place d finished o s held = o.next_writer ≢ unknown

abbrev pub Written : NextWriter → NextWriter → Setter → Type 0
Written d n absent = (n ≡ unknown) ⊎ (n ≡ ready)
Written d n _ = n ≡ d

pub record Inv (d : NextWriter) (s : System) : Type 0 where
  pub place : Place d s.producer s.out s.setter s.held
  pub written : Written d s.out.next_writer s.setter
  pub counted :
      (s.producer ≡ before)
      ⊎ (s.out.countdown ≡ s.held + pending s.producer + conceptual s.out.next_writer s.setter)
  pub told : s.notified ≡ (if s.out.countdown == 0 then d ∷ [] else [])

-- A variable names a task or nobody as the next writer.
abbrev pub IsFinal : NextWriter → Type 0
IsFinal d = (d ≢ unknown) × (d ≢ ready)

module _ {d : NextWriter} (final : IsFinal d) where
  Step-Inv : {s t : System} → Step d s t → Inv d s → Inv d t
  unfolding start_countdown retain mark_ready remove_back_arc displaced exchange_writer
  Step-Inv {s} (begin e) inv = record {
    place = ground (arith, inv.place);
    written = inv.written;
    counted = ground (arith, inv.place, inv.written);
    told = ground (arith, inv.place, inv.told);
  }
  Step-Inv {s} (give c e lt nw) inv = record {
    place = ground (arith, inv.place);
    written = inv.written;
    counted = ground (arith, inv.counted);
    told = inv.told;
  }
  Step-Inv {s} (attach p e r) inv = record {
    place = ground (arith, inv.place, inv.written);
    written = ground (arith, inv.place, inv.written);
    counted = ground (arith, inv.place, inv.written, inv.counted);
    told = ground (arith, inv.place, inv.written, inv.counted, inv.told);
  }
  Step-Inv {s} (load_null c e n) inv = record {
    place = ground (arith, inv.place, inv.written);
    written = ground (arith, inv.place, inv.written);
    counted = ground (arith, inv.place, inv.written, inv.counted);
    told = ground (arith, inv.place, inv.written, inv.counted, inv.told);
  }
  Step-Inv {s} (load_other c e n) inv = record {
    place = ground (arith, inv.place, inv.written);
    written = ground (arith, inv.place, inv.written);
    counted = ground (arith, inv.place, inv.written, inv.counted);
    told = ground (arith, inv.place, inv.written, inv.counted, inv.told);
  }
  Step-Inv {s} (exchange c e) inv = record {
    place = ground (arith, inv.place, inv.written);
    written = ground (arith, inv.place, inv.written);
    counted = ground (arith, inv.place, inv.written, inv.counted);
    told = ground (arith, inv.place, inv.written, inv.counted, inv.told);
  }
  Step-Inv {s} (subtract c e r) inv = record {
    place = ground (arith, inv.place, inv.written);
    written = ground (arith, inv.place, inv.written);
    counted = ground (arith, inv.place, inv.written, inv.counted);
    told = ground (arith, inv.place, inv.written, inv.counted, inv.told);
  }
  Step-Inv {s} (consume h r) inv = record {
    place = ground (arith, inv.place, inv.written);
    written = ground (arith, inv.place, inv.written);
    counted = ground (arith, inv.place, inv.written, inv.counted);
    told = ground (arith, inv.place, inv.written, inv.counted, inv.told);
  }
  Step-Inv {s} (set e r) inv = record {
    place = ground (arith, inv.place, inv.written);
    written = ground (arith, inv.place, inv.written);
    counted = ground (arith, inv.place, inv.written, inv.counted);
    told = ground (arith, inv.place, inv.written, inv.counted, inv.told);
  }
  Step-Inv {s} (remove e r) inv = record {
    place = ground (arith, inv.place, inv.written);
    written = ground (arith, inv.place, inv.written);
    counted = ground (arith, inv.place, inv.written, inv.counted);
    told = ground (arith, inv.place, inv.written, inv.counted, inv.told);
  }

  pub Reach-Inv : {s : System} → Reach d s → Inv d s
  Reach-Inv here = record {
    place = ground (arith, final);
    written = inl refl;
    counted = inl refl;
    told = refl;
  }
  Reach-Inv (later r st) = Step-Inv st (Reach-Inv r)

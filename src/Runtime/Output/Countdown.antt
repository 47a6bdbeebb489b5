-- ===== src/Runtime/Output/Countdown.antt =====
-- One output slot of oox/oox.h as it runs: the producer in `notify_successors`, the thread that
-- rewrites or drops the variable in `set_next_writer`, and any number of consumers.
pub mod Invariant
pub mod Safety
use oox_kirkon_fork.Base.{
  ℕ, ◌+◌, ◌-◌, ◌≤◌, ◌<◌, ◌≡◌, refl, ◌≢◌, ◌⊎◌, inl, ◌↔◌, ◌==◌, Bool, Option, none, some, List, [],
  ◌∷◌, arith, if◌then◌else◌,
}
use oox_kirkon_fork.Runtime.Node.{OutputNode, NextWriter, unknown, ready, no_owner}
use oox_kirkon_fork.Runtime.Output.{
  max_count, start_countdown, retain, mark_ready, remove_back_arc, displaced, exchange_writer,
}

-- Where the producer stands, with `count[i]`.
pub data Producer : Type 0 where
  before : Producer
  giving : (count : ℕ) → Producer  -- in `do_notify_arcs`
  saw_null : (count : ℕ) → Producer  -- in `do_notify_out`, before the compare-exchange
  counting : (count : ℕ) → Producer  -- before the call of `remove_back_arc`
  finished : Producer

-- Where `set_next_writer` stands.
pub data Setter : Type 0 where
  absent : Setter
  removing : Setter  -- it found the ready marker
  returned : Setter

pub record System : Type 0 where
  pub out : OutputNode
  pub producer : Producer
  pub setter : Setter
  pub held : ℕ  -- the back arcs of consumers
  pub notified : List NextWriter  -- the arguments of `notify_next_writer`

abbrev pub start : System
start = record {
  out = record { next_writer = unknown; countdown = 1 };
  producer = before;
  setter = absent;
  held = 0;
  notified = [];
}

abbrev pub tell : List NextWriter → Option NextWriter → List NextWriter
tell ds none = ds
tell ds (some d) = d ∷ ds

-- `d` is the next writer that is set.
pub data Step (d : NextWriter) (s : System) : System → Type 0 where
  begin :
      s.producer ≡ before
      → Step d s (record s { out = start_countdown s.out; producer = giving max_count })
  -- A `flow_back` arc: the consumer gets a back arc. Fewer than `max_count - 2` arcs are assumed.
  give :
      (count : ℕ)
      → s.producer ≡ giving count
      → 3 ≤ count
      → s.out.next_writer ≢ no_owner
      → Step d s (record s { producer = giving (count - 1); held = s.held + 1 })
  -- A consumer that comes when the task is done, while the variable still refers to it.
  attach :
      {o : OutputNode}
      → s.producer ≢ before
      → s.setter ≡ absent
      → retain s.out ≡ some o
      → Step d s (record s { out = o; held = s.held + 1 })
  load_null :
      (count : ℕ)
      → s.producer ≡ giving count
      → s.out.next_writer ≡ unknown
      → Step d s (record s { producer = saw_null count })
  load_other :
      (count : ℕ)
      → s.producer ≡ giving count
      → s.out.next_writer ≢ unknown
      → Step d s (record s { producer = counting count })
  exchange :
      (count : ℕ)
      → s.producer ≡ saw_null count
      → Step d s (record s {
        out = (mark_ready s.out).0;
        producer = counting (if (mark_ready s.out).1 then count - 1 else count);
      })
  subtract :
      (count : ℕ) {o : OutputNode} {n : Option NextWriter}
      → s.producer ≡ counting count
      → remove_back_arc s.out count ≡ some (o, n)
      → Step d s (record s { out = o; producer = finished; notified = tell s.notified n })
  consume :
      {o : OutputNode} {n : Option NextWriter}
      → 0 < s.held
      → remove_back_arc s.out 1 ≡ some (o, n)
      → Step d s (record s { out = o; held = s.held - 1; notified = tell s.notified n })
  set :
      {b : Bool}
      → s.setter ≡ absent
      → displaced s.out.next_writer d ≡ some b
      → Step d s (record s {
        out = (exchange_writer s.out d).1;
        setter = if b then removing else returned;
      })
  remove :
      {o : OutputNode} {n : Option NextWriter}
      → s.setter ≡ removing
      → remove_back_arc s.out 1 ≡ some (o, n)
      → Step d s (record s { out = o; setter = returned; notified = tell s.notified n })

pub data Reach (d : NextWriter) : System → Type 0 where
  here : Reach d start
  later : {s t : System} → Reach d s → Step d s t → Reach d t

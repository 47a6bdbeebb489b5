-- ===== src/Runtime/Start/Gate.antt =====
-- The start gate of a task in oox/oox.h: removals of prerequisites and marks of failures reach
-- `task_node::start_count` from many threads, in any order.
use oox_kirkon_fork.Base.{
  ℕ, ◌+◌, ◌-◌, ◌/◌, ◌%◌, ◌^◌, ◌≤◌, ◌<◌, ◌≡◌, refl, Bool, true, false, ◌||◌, Option, none, some,
  List, [], ◌∷◌, ◌++◌, arith, if◌then◌else◌,
}
use oox_kirkon_fork.Base.Bits.{sub32}
use oox_kirkon_fork.Runtime.Node.{TaskNode, head_is_done}
use oox_kirkon_fork.Runtime.Start.{
  FailureBit, dependency_cancelled, user_cancelled, exception, start_prerequisite_count,
  has_non_user_start_failure, mark_failure, Dispatch, waiting, spawn, skip, remove_prerequisite,
}

pub data Event : Type 0 where
  take : (n : ℕ) → Event
  mark : FailureBit → Event

-- The decisions of the removals, in order.
unfoldable pub run : List Event → TaskNode → Option (List Dispatch × TaskNode)
run [] t = some ([], t)
run (take n ∷ evs) t = elim (remove_prerequisite t n) [
  | none ↦ none
  | some (t', d) ↦ elim (run evs t') [ none ↦ none | some (ds, u) ↦ some (d ∷ ds, u) ]
]
run (mark b ∷ evs) t = run evs (mark_failure t b).0

abbrev pub taken : List Event → ℕ
taken [] = 0
taken (take n ∷ evs) = n + taken evs
taken (mark b ∷ evs) = taken evs

-- One `waiting` for each removal.
abbrev pub all_waiting : List Event → List Dispatch
all_waiting [] = []
all_waiting (take n ∷ evs) = waiting ∷ all_waiting evs
all_waiting (mark b ∷ evs) = all_waiting evs

abbrev pub is_non_user : FailureBit → Bool
is_non_user user_cancelled = false
is_non_user _ = true

-- Some mark is not a cancellation by the user.
abbrev pub marks_non_user : List Event → Bool
marks_non_user [] = false
marks_non_user (take n ∷ evs) = marks_non_user evs
marks_non_user (mark b ∷ evs) = is_non_user b || marks_non_user evs

sub32-eq-sub : (w n : ℕ) → w < 2 ^ 32 → n ≤ w % 2 ^ 27 → sub32 w n ≡ w - n
sub32-eq-sub w n h le = omega arith

-- A removal within the count leaves the bits above it.
high_bits_kept :
    (w n : ℕ)
    → n ≤ w % 2 ^ 27
    → ((w - n) / 2 ^ 28 ≡ w / 2 ^ 28)
      × ((w - n) / 2 ^ 30 ≡ w / 2 ^ 30)
      × ((w - n) % 2 ^ 27 + n ≡ w % 2 ^ 27)
high_bits_kept w n le = omega arith

-- What a removal within the count does to the node.
record Removed (t : TaskNode) (n : ℕ) (d : Dispatch) (u : TaskNode) : Type 0 where
  result : remove_prerequisite t n ≡ some (u, d)
  head : u.head ≡ t.head
  fits : u.start_count < 2 ^ 32
  count : start_prerequisite_count u.start_count + n ≡ start_prerequisite_count t.start_count
  failures : has_non_user_start_failure u ≡ has_non_user_start_failure t

abbrev less : TaskNode → ℕ → TaskNode
less t n = record t { start_count = t.start_count - n }

module _ (t : TaskNode) (n : ℕ) (h : t.start_count < 2 ^ 32) where
  Removed-waits : n < start_prerequisite_count t.start_count → Removed t n waiting (less t n)
  unfolding remove_prerequisite
  Removed-waits lt =
      let (p, q, r) = high_bits_kept t.start_count n (omega arith) in
      record {
        result = rw (sub32-eq-sub t.start_count n h (omega arith)) (ground arith);
        head = refl;
        fits = omega arith;
        count = r;
        failures = rw (p, q);
      }

  Removed-opens :
      n ≡ start_prerequisite_count t.start_count
      → Removed t n (if has_non_user_start_failure t then skip else spawn) (less t n)
  unfolding remove_prerequisite
  Removed-opens e =
      let (p, q, r) = high_bits_kept t.start_count n (omega arith) in
      record {
        result = rw (sub32-eq-sub t.start_count n h (omega arith), p, q) (ground arith);
        head = refl;
        fits = omega arith;
        count = r;
        failures = rw (p, q);
      }

-- What a mark does to a node that is not done.
record Marked (t : TaskNode) (b : FailureBit) (u : TaskNode) : Type 0 where
  head : u.head ≡ t.head
  fits : u.start_count < 2 ^ 32
  count : start_prerequisite_count u.start_count ≡ start_prerequisite_count t.start_count
  failures : has_non_user_start_failure u ≡ (is_non_user b || has_non_user_start_failure t)

mark_failure-Marked :
    (t : TaskNode) (b : FailureBit)
    → head_is_done t.head ≡ false
    → t.start_count < 2 ^ 32
    → Marked t b (mark_failure t b).0
unfolding mark_failure start_prerequisite_count has_non_user_start_failure
mark_failure-Marked t dependency_cancelled e h = record {
  head = rw e;
  fits = rw e (ground arith);
  count = rw e (ground arith);
  failures = rw e (ground arith);
}
mark_failure-Marked t user_cancelled e h = record {
  head = rw e;
  fits = rw e (ground arith);
  count = rw e (ground arith);
  failures = rw e (ground arith);
}
mark_failure-Marked t exception e h = record {
  head = rw e;
  fits = rw e (ground arith);
  count = rw e (ground arith);
  failures = rw e (ground arith);
}

-- Let the removals of `evs` and a last one of `n > 0` take all the prerequisites of a node that is
-- not done, with marks of failures anywhere between them. Then no assertion fails, each removal but
-- the last leaves the task waiting, and the last one skips the task if a failure that is no
-- cancellation by the user was there before or is marked in `evs`, and spawns it otherwise. The
-- count is then 0.
pub gate_opens_once :
    (evs : List Event) (n : ℕ) (t : TaskNode)
    → head_is_done t.head ≡ false
    → t.start_count < 2 ^ 32
    → 0 < n
    → taken evs + n ≡ start_prerequisite_count t.start_count
    → (u : TaskNode) × (run (evs ++ take n ∷ []) t
        ≡ some (
          all_waiting evs
              ++ (if has_non_user_start_failure t || marks_non_user evs then skip else spawn) ∷ [],
          u,
        ))
      × (start_prerequisite_count u.start_count ≡ 0)
unfolding run
gate_opens_once [] n t e h pos s =
    let r = Removed-opens t n h (omega arith) in
    (less t n, ground (arith, r.result), omega (arith, r.count))
gate_opens_once (take m ∷ evs) n t e h pos s =
    let r = Removed-waits t m h (omega arith) in
    let (u, p, z) =
      gate_opens_once evs n (less t m) (rw r.head e) r.fits pos (omega (arith, r.count)) in
    (u, ground (arith, r.result, r.failures, p), z)
gate_opens_once (mark b ∷ evs) n t e h pos s =
    let m = mark_failure-Marked t b e h in
    let (u, p, z) =
      gate_opens_once evs n (mark_failure t b).0 (rw m.head e) m.fits pos
        (omega (arith, m.count)) in
    (u, ground (arith, m.failures, p), z)

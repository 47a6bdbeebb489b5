-- ===== src/Runtime/Store/Execute/Late.antt =====
-- The order that `oox::run` of oox/oox.h gives to readers of a variable that come when the producer is
-- done, any number of them, and the next writer of the variable.
use oox_kirkon_fork.Base.{
  ℕ, suc, ◌-◌, ◌<◌, ◌≤◌, ◌≡◌, ap, ◌∙◌, ◌==◌, leb, if◌then◌else◌, some, true, false, List, [], ◌∷◌,
  All, arith, length,
}
use oox_kirkon_fork.Runtime.Node.{live, task_done, terminal_exception, unknown, ready, writer}
use oox_kirkon_fork.Runtime.Dependence.Trackers.{has}
use oox_kirkon_fork.Runtime.Store.{Store, Cmd, ◌>>◌}
use oox_kirkon_fork.Runtime.Store.Execute.{
  value, reads, writes, run, Outcome, returns, throws, execute,
}
use oox_kirkon_fork.Runtime.Store.Execute.Lifecycle.{Ends}
use oox_kirkon_fork.Runtime.Store.Execute.Steps.{Ends-bind, Ends-map, slot, node, RefersTo}
use oox_kirkon_fork.Runtime.Store.Execute.Apart.{
  IsApart, AreApart, apart_sym, All-zip, IsApart-none, rev_onto, length-rev_onto, All-rev_onto,
  All-of_rev_onto, All-some,
}
use oox_kirkon_fork.Runtime.Store.Execute.Readers.{make_readers, AreDifferent, kept_tasks}
use oox_kirkon_fork.Runtime.Store.Execute.Giving.{reading, Running}
use oox_kirkon_fork.Runtime.Store.Execute.Reading.{execute_all, executed}

-- A producer `t` with its result in `r` is executed, and then the readers of the result are made.
pub late_readers : (f t r : ℕ) (q : ℕ → ℕ) (us : List ℕ) (spare : ℕ) → Outcome → Cmd (Unit {0})
unfolding run execute
late_readers f t r q us spare o = do
  (do run f t r value []; execute f true t o)
  make_readers f q r spare us

-- The same, with a task `w` that writes the result.
pub late_writer : (f t r : ℕ) (q : ℕ → ℕ) (us : List ℕ) (w spare : ℕ) → Cmd (Unit {0})
unfolding late_readers run
late_writer f t r q us w spare = do
  late_readers f t r q us spare returns
  run f w (q w) value (writes r spare ∷ [])

-- The same, and then the tasks in the list `vs` are executed.
pub late_consumed :
    (f t r : ℕ) (q : ℕ → ℕ) (us : List ℕ) (w spare : ℕ) (o : ℕ → Outcome) → List ℕ → Cmd (Unit {0})
unfolding late_writer
late_consumed f t r q us w spare o vs = do late_writer f t r q us w spare; execute_all f o vs

module _ (f t r : ℕ) (q : ℕ → ℕ) (spare : ℕ) where
  -- The producer is done, and the readers keep its value.
  abbrev Kept : List ℕ → (before : List ℕ) → Store → Type 0
  Kept us before s =
      (s.task t ≡ some (node 2 task_done 0 (slot ready (suc (length us)) ∷ [])))
      × RefersTo (s.var r) t
      × All (λ u. s.task u ≡ some (reading t)) us
      × (s.spawned ≡ before)

  producer-done :
      (s : Store)
      → Ends
          ((run (suc (suc f)) t r value [] >> execute (suc (suc f)) true t returns) s)
          (Kept [] (t ∷ s.spawned))
  unfolding run execute
  producer-done s = ground arith

  reader-started :
      (u c : ℕ) (s : Store)
      → (t == u) ≡ false
      → (r == q u) ≡ false
      → s.task t ≡ some (node 2 task_done 0 (slot ready (suc c) ∷ []))
      → RefersTo (s.var r) t
      → Ends (run (suc (suc f)) u (q u) value (reads r spare ∷ []) s) (λ e.
        (e.task t ≡ some (node 2 task_done 0 (slot ready (suc (suc c)) ∷ [])))
        × (e.task u ≡ some (reading t))
        × RefersTo (e.var r) t
        × (e.spawned ≡ u ∷ s.spawned)
        × ((x : ℕ) → (t == x) ≡ false → (u == x) ≡ false → e.task x ≡ s.task x))
  unfolding run
  reader-started u c s tu rq ht hv = ground arith

  writer-waits :
      (w c : ℕ) (s : Store)
      → (t == w) ≡ false
      → (r == q w) ≡ false
      → leb 1 (c - 1) ≡ true
      → (c - 1 == 0) ≡ false
      → s.task t ≡ some (node 2 task_done 0 (slot ready c ∷ []))
      → RefersTo (s.var r) t
      → Ends (run (suc (suc f)) w (q w) value (writes r spare ∷ []) s) (λ e.
        (e.task t ≡ some (node 2 task_done 0 (slot (writer w) (c - 1) ∷ [])))
        × (e.task w ≡ some (node 4 (live []) 1 (slot unknown 1 ∷ slot unknown 1 ∷ [])))
        × (e.spawned ≡ s.spawned)
        × ((x : ℕ) → (t == x) ≡ false → (w == x) ≡ false → e.task x ≡ s.task x))
  unfolding run
  writer-waits w c s tw rq le ne ht hv = ground arith

  -- The producer has thrown, and no reader of its result is spawned.
  abbrev Thrown : ℕ → (k : ℕ) → (before : List ℕ) → Store → Type 0
  Thrown x k before s =
      (s.task t ≡ some (node 2 (terminal_exception x) 3221225472 (slot ready 1 ∷ [])))
      × (s.control x ≡ some (suc k))
      × RefersTo (s.var r) t
      × (s.spawned ≡ before)

  producer-thrown :
      (s : Store)
      → Ends
          ((run (suc (suc f)) t r value [] >> execute (suc (suc f)) true t throws) s)
          (Thrown s.next_control 0 (t ∷ s.spawned))
  unfolding run execute
  producer-thrown s = ground arith

  reader-failed :
      (x k u : ℕ) (s : Store) (before : List ℕ)
      → (t == u) ≡ false
      → (r == q u) ≡ false
      → Thrown x k before s
      → Ends (run (suc (suc f)) u (q u) value (reads r spare ∷ []) s) (Thrown x (suc k) before)
  unfolding run
  reader-failed x k u s before tu rq h = ground arith

  readers-started :
      (us ms before : List ℕ) (s : Store)
      → Kept ms before s
      → IsApart t us
      → IsApart t ms
      → All (λ u. (r == q u) ≡ false) us
      → AreApart us
      → All (λ u. IsApart u ms) us
      → Ends
          (make_readers (suc (suc f)) q r spare us s)
          (Kept (rev_onto us ms) (rev_onto us before))
  unfolding make_readers
  readers-started [] ms before s h a b rq d c = h
  readers-started (u ∷ us) ms before s h a b rq d c =
      Ends-bind (Kept (u ∷ ms) (u ∷ before))
        (Kept (rev_onto us (u ∷ ms)) (rev_onto us (u ∷ before)))
        (run (suc (suc f)) u (q u) value (reads r spare ∷ []))
        (make_readers (suc (suc f)) q r spare us) s
        (Ends-map _ (Kept (u ∷ ms) (u ∷ before)) _ (reader-started u (length ms) s a.0 rq.0 h.0 h.1)
          (λ e k. (
            k.0,
            k.2,
            (k.1, kept_tasks t u (reading t) s e ms k.4 b c.0 h.2),
            k.3 ∙ ap (λ ys. u ∷ ys) h.3,
          )))
        (λ e k.
          readers-started us (u ∷ ms) (u ∷ before) e k a.1 (a.0, b) rq.1 d.1
            (All-zip (λ v. (u == v) ≡ false) (λ v. IsApart v ms) (λ v. IsApart v (u ∷ ms)) us
              (λ v g i. (apart_sym u v g, i)) d.0 c.1))

  none-started :
      (us before : List ℕ) (x k : ℕ) (s : Store)
      → Thrown x k before s
      → IsApart t us
      → All (λ u. (r == q u) ≡ false) us
      → Ends (make_readers (suc (suc f)) q r spare us s) (λ e. e.spawned ≡ before)
  unfolding make_readers
  none-started [] before x k s h a rq = h.3
  none-started (u ∷ us) before x k s h a rq =
      Ends-bind (Thrown x (suc k) before) _ (run (suc (suc f)) u (q u) value (reads r spare ∷ []))
        (make_readers (suc (suc f)) q r spare us) s (reader-failed x k u s before a.0 rq.0 h)
        (λ e g. none-started us before x (suc k) e g a.1 rq.1)

module _ (s : Store) (f t r : ℕ) (q : ℕ → ℕ) (us : List ℕ) (w spare : ℕ)
    (d : AreDifferent t r q us w) where
  kept :
      Ends
        (late_readers (suc (suc f)) t r q us spare returns s)
        (Kept f t r q spare (rev_onto us []) (rev_onto us (t ∷ s.spawned)))
  unfolding late_readers
  kept =
      Ends-bind (Kept f t r q spare [] (t ∷ s.spawned)) _
        (run (suc (suc f)) t r value [] >> execute (suc (suc f)) true t returns)
        (make_readers (suc (suc f)) q r spare us) s (producer-done f t r q spare s)
        (λ e h.
          readers-started f t r q spare us [] (t ∷ s.spawned) e h d.producer_apart tt
            d.results_apart d.readers_apart (IsApart-none us))

  waiting :
      0 < length us
      → Ends
          (late_writer (suc (suc f)) t r q us w spare s)
          (Running f t w (length us) us (rev_onto us (t ∷ s.spawned)))
  unfolding late_writer
  waiting some_reader =
      let ms = rev_onto us [] in
      let len : length ms ≡ length us = omega (arith, length-rev_onto us []) in
      Ends-bind (Kept f t r q spare ms (rev_onto us (t ∷ s.spawned))) _
        (late_readers (suc (suc f)) t r q us spare returns)
        (run (suc (suc f)) w (q w) value (writes r spare ∷ [])) s kept
        (λ e h.
          let count : suc (length ms) ≡ suc (length us) = ap suc len in
          Ends-map _ (Running f t w (length us) us (rev_onto us (t ∷ s.spawned)))
            (run (suc (suc f)) w (q w) value (writes r spare ∷ []) e)
            (writer-waits f t r q spare w (suc (length us)) e d.next_apart d.last_apart
              (ground arith) (ground arith) (rw count at h.0) h.1)
            (λ e' g.
              let less : suc (length us) - 1 ≡ length us = omega arith in
              (
                rw less at g.0,
                g.1,
                (All-of_rev_onto (λ u. e'.task u ≡ some (reading t)) us []
                    (kept_tasks t w (reading t) e e' ms g.3
                      (All-rev_onto (λ u. (t == u) ≡ false) us [] d.producer_apart tt)
                      (All-rev_onto (λ u. (w == u) ≡ false) us [] d.writer_apart tt) h.2)).0,
                g.2 ∙ h.3,
              )))

  thrown :
      Ends (late_readers (suc (suc f)) t r q us spare throws s) (λ e. e.spawned ≡ t ∷ s.spawned)
  unfolding late_readers
  thrown =
      Ends-bind (Thrown f t r q spare s.next_control 0 (t ∷ s.spawned)) _
        (run (suc (suc f)) t r value [] >> execute (suc (suc f)) true t throws)
        (make_readers (suc (suc f)) q r spare us) s (producer-thrown f t r q spare s)
        (λ e h.
          none-started f t r q spare us (t ∷ s.spawned) s.next_control 0 e h d.producer_apart
            d.results_apart)

-- Let a producer be executed before any number of readers of its result, at least one, are made, and
-- then a task that writes this result, all at different addresses, and the result at another one than
-- those of the others. If the producer returns, each reader is spawned as soon as it is made, and the
-- writer is not spawned until every reader has been executed, in any order, whether they return or
-- throw; then it is. If the producer throws, no reader is spawned.
pub late_order :
    (s : Store) (f t r : ℕ) (q : ℕ → ℕ) (us : List ℕ) (w spare : ℕ) (o : ℕ → Outcome) (vs : List ℕ)
    → AreDifferent t r q us w
    → 0 < length us
    → AreApart vs
    → All (λ v. has v us ≡ true) vs
    → length vs ≤ length us
    → Ends
        (late_readers (suc (suc f)) t r q us spare returns s)
        (λ e. e.spawned ≡ rev_onto us (t ∷ s.spawned))
      × Ends
          (late_writer (suc (suc f)) t r q us w spare s)
          (λ e. e.spawned ≡ rev_onto us (t ∷ s.spawned))
      × Ends (late_consumed (suc (suc f)) t r q us w spare o vs s) (λ e. e.spawned ≡ (
          if length vs == length us
          then w ∷ rev_onto us (t ∷ s.spawned)
          else rev_onto us (t ∷ s.spawned)))
      × Ends (late_readers (suc (suc f)) t r q us spare throws s) (λ e. e.spawned ≡ t ∷ s.spawned)
unfolding late_consumed
late_order s f t r q us w spare o vs d some_reader dv sub le =
    let all = suc (suc f) in
    let sp = rev_onto us (t ∷ s.spawned) in
    let end = waiting s f t r q us w spare d some_reader in
    (
      Ends-map (Kept f t r q spare (rev_onto us []) sp) _
          (late_readers all t r q us spare returns s) (kept s f t r q us w spare d) (λ e h. h.3),
      Ends-map (Running f t w (length us) us sp) _ (late_writer all t r q us w spare s) end
          (λ e h. h.3),
      Ends-bind (Running f t w (length us) us sp) _ (late_writer all t r q us w spare)
          (execute_all all o vs) s end
          (executed f t w d.next_apart o sp us vs some_reader
            (All-some (λ u. (t == u) ≡ false) us vs d.producer_apart sub)
            (All-some (λ u. (w == u) ≡ false) us vs d.writer_apart sub) dv sub le),
      thrown s f t r q us w spare d,
    )

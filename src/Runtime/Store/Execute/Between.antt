-- ===== src/Runtime/Store/Execute/Between.antt =====
-- Any number of readers of oox/oox.h between two tasks that write the same variable.
use oox_kirkon_fork.Base.{
  ℕ, suc, ◌<◌, ◌≤◌, ◌≡◌, refl, ◌∙◌, ◌==◌, some, true, false, List, [], ◌∷◌, ◌++◌, All, arith,
  length, if◌then◌else◌,
}
use oox_kirkon_fork.Runtime.Dependence.Trackers.{has}
use oox_kirkon_fork.Runtime.Output.{max_count}
use oox_kirkon_fork.Runtime.Store.{Store, Cmd, ◌>>◌}
use oox_kirkon_fork.Runtime.Store.Execute.{execute, Outcome, returns, throws}
use oox_kirkon_fork.Runtime.Store.Execute.Lifecycle.{Ends}
use oox_kirkon_fork.Runtime.Store.Execute.Steps.{Ends-bind, Ends-map}
use oox_kirkon_fork.Runtime.Store.Execute.Apart.{
  AreApart, IsApart-none, rev_onto, rev_onto_twice, length-rev_onto, All-rev_onto,
  AreApart-rev_onto, All-of_rev_onto, All-some,
}
use oox_kirkon_fork.Runtime.Store.Execute.Readers.{
  make_all, make_all-Published, AreDifferent, Published,
}
use oox_kirkon_fork.Runtime.Store.Execute.Reading.{execute_all, executed}
use oox_kirkon_fork.Runtime.Store.Execute.Failing.{readers-failed}
use oox_kirkon_fork.Runtime.Store.Execute.Giving.{reading, Running, producer-executed}

-- All tasks are made, and the producer is executed.
pub produced : (f t r : ℕ) (q : ℕ → ℕ) (us : List ℕ) (w spare : ℕ) → Outcome → Cmd (Unit {0})
unfolding execute
produced f t r q us w spare o = do make_all f t r q us w spare; execute f true t o

-- The same, and then the tasks in the list `vs`.
pub consumed :
    (f t r : ℕ) (q : ℕ → ℕ) (us : List ℕ) (w spare : ℕ) (o : ℕ → Outcome) → List ℕ → Cmd (Unit {0})
unfolding produced
consumed f t r q us w spare o vs = do produced f t r q us w spare returns; execute_all f o vs

produced-Running :
    (s : Store) (f t r : ℕ) (q : ℕ → ℕ) (us : List ℕ) (w spare : ℕ)
    → AreDifferent t r q us w
    → 0 < length us
    → length us < max_count
    → Ends
        (produced (suc (suc f)) t r q us w spare returns s)
        (Running f t w (length us) us (us ++ t ∷ s.spawned))
unfolding produced
produced-Running s f t r q us w spare d some_reader few =
    let ms = rev_onto us [] in
    let len : length ms ≡ length us = omega (arith, length-rev_onto us []) in
    Ends-bind (Published t w ms (t ∷ s.spawned)) _ (make_all (suc (suc f)) t r q us w spare)
      (execute (suc (suc f)) true t returns) s (make_all-Published f t r q us w spare s d)
      (λ e h.
        Ends-map (Running f t w (length ms) ms (rev_onto ms (t ∷ s.spawned))) _ _
          (producer-executed f t w ms (t ∷ s.spawned) e (omega (arith, len)) (omega (arith, len))
            (All-rev_onto (λ u. (t == u) ≡ false) us [] d.producer_apart tt)
            (All-rev_onto (λ u. (w == u) ≡ false) us [] d.writer_apart tt) d.next_apart
            (AreApart-rev_onto us [] d.readers_apart tt (IsApart-none us)) h)
          (λ e' g. (
            rw len at g.0,
            g.1,
            (All-of_rev_onto (λ u. e'.task u ≡ some (reading t)) us [] g.2).0,
            g.3 ∙ rev_onto_twice us [] (t ∷ s.spawned),
          )))

failed :
    (s : Store) (f t r : ℕ) (q : ℕ → ℕ) (us : List ℕ) (w spare : ℕ)
    → AreDifferent t r q us w
    → length us < max_count
    → Ends (produced (suc (suc f)) t r q us w spare throws s) (λ e. e.spawned ≡ w ∷ t ∷ s.spawned)
unfolding produced
failed s f t r q us w spare d few =
    let ms = rev_onto us [] in
    Ends-bind (Published t w ms (t ∷ s.spawned)) _ (make_all (suc (suc f)) t r q us w spare)
      (execute (suc (suc f)) true t throws) s (make_all-Published f t r q us w spare s d)
      (λ e h.
        readers-failed f t w e.next_control ms (t ∷ s.spawned) e refl
          (omega (arith, length-rev_onto us [], few))
          (All-rev_onto (λ u. (t == u) ≡ false) us [] d.producer_apart tt)
          (All-rev_onto (λ u. (w == u) ≡ false) us [] d.writer_apart tt) d.next_apart
          (AreApart-rev_onto us [] d.readers_apart tt (IsApart-none us)) h)

-- Let there be a producer, readers of its result, at least one and fewer than half of the largest `int`,
-- rounded down, which is 2 ^ 30 - 1, and a task that writes the result, all at different addresses, and the result at another one than those of the others. The
-- producer is spawned when all are made. Once it has been executed and has returned, all readers are
-- spawned, and the writer is not until every reader has been executed, in any order, whether they
-- return or throw; then it is. If the producer throws, no reader is spawned, and the writer is at once.
pub readers_between :
    (s : Store) (f t r : ℕ) (q : ℕ → ℕ) (us : List ℕ) (w spare : ℕ) (o : ℕ → Outcome) (vs : List ℕ)
    → AreDifferent t r q us w
    → 0 < length us
    → length us < max_count
    → AreApart vs
    → All (λ v. has v us ≡ true) vs
    → length vs ≤ length us
    → Ends (make_all (suc (suc f)) t r q us w spare s) (λ e. e.spawned ≡ t ∷ s.spawned)
      × Ends
          (produced (suc (suc f)) t r q us w spare returns s)
          (λ e. e.spawned ≡ us ++ t ∷ s.spawned)
      × Ends (consumed (suc (suc f)) t r q us w spare o vs s) (λ e.
        e.spawned
        ≡ (if length vs == length us then w ∷ us ++ t ∷ s.spawned else us ++ t ∷ s.spawned))
      × Ends (produced (suc (suc f)) t r q us w spare throws s) (λ e. e.spawned ≡ w ∷ t ∷ s.spawned)
unfolding consumed
readers_between s f t r q us w spare o vs d some_reader few dv sub le =
    let all = suc (suc f) in
    let end = produced-Running s f t r q us w spare d some_reader few in
    (
      Ends-map (Published t w (rev_onto us []) (t ∷ s.spawned)) _ (make_all all t r q us w spare s)
          (make_all-Published f t r q us w spare s d) (λ e h. h.2),
      Ends-map (Running f t w (length us) us (us ++ t ∷ s.spawned)) _
          (produced all t r q us w spare returns s) end (λ e h. h.3),
      Ends-bind (Running f t w (length us) us (us ++ t ∷ s.spawned)) _
          (produced all t r q us w spare returns) (execute_all all o vs) s end
          (executed f t w d.next_apart o (us ++ t ∷ s.spawned) us vs some_reader
            (All-some (λ u. (t == u) ≡ false) us vs d.producer_apart sub)
            (All-some (λ u. (w == u) ≡ false) us vs d.writer_apart sub) dv sub le),
      failed s f t r q us w spare d few,
    )

-- ===== src/Runtime/Store/Execute/Failing.antt =====
-- The execution of a task of oox/oox.h that throws and has any number of readers.
use oox_kirkon_fork.Base.{
  ℕ, suc, ◌-◌, ◌<◌, ◌≡◌, ap, ◌∙◌, ◌==◌, some, true, false, List, [], ◌∷◌, arith, length,
}
use oox_kirkon_fork.Base.Family.{update}
use oox_kirkon_fork.Runtime.Node.{live, exception_signal, unknown, writer}
use oox_kirkon_fork.Runtime.Output.{max_count}
use oox_kirkon_fork.Runtime.Store.{Store, Cmd, ◌>>=◌, ◌>>◌, wakeup}
use oox_kirkon_fork.Runtime.Store.Failure.{set_exception}
use oox_kirkon_fork.Runtime.Store.Notify.{
  release, remove_prerequisite, do_notify_outs, release_with,
}
use oox_kirkon_fork.Runtime.Store.Execute.{execute, notify_successors, throws}
use oox_kirkon_fork.Runtime.Store.Execute.Lifecycle.{Ends}
use oox_kirkon_fork.Runtime.Store.Execute.Steps.{Ends-map, Ends-left, Leaves-nested, slot, node}
use oox_kirkon_fork.Runtime.Store.Execute.Apart.{IsApart, AreApart, flip_apart}
use oox_kirkon_fork.Runtime.Store.Execute.Readers.{arcs_of, unread, kept_tasks, Published}
use oox_kirkon_fork.Runtime.Store.Execute.Giving.{other_task}
use oox_kirkon_fork.Runtime.Store.Execute.Skipping.{
  thrown_word, failing, AllSkipped, notify_arcs, each_skipped,
}

module _ (f t w x : ℕ) where
  abbrev HasThrown : List ℕ → Store → Store → Type 0
  HasThrown us s e =
      (e.task t
        ≡ some
            (node 3 (live (exception_signal x ∷ arcs_of us)) thrown_word (slot (writer w) 1 ∷ [])))
      × (e.control x ≡ some 1)
      × ((y : ℕ) → (t == y) ≡ false → e.task y ≡ s.task y)
      × (e.spawned ≡ s.spawned)

  exception-set :
      (us : List ℕ) (s : Store)
      → s.next_control ≡ x
      → s.task t ≡ some (node 3 (live (arcs_of us)) 0 (slot (writer w) 1 ∷ []))
      → Ends (set_exception t true s) (HasThrown us s)
  unfolding set_exception
  exception-set us s e ht = ground arith

  execute-throws :
      (us : List ℕ) (s : Store)
      → s.task t ≡ some (node 3 (live (arcs_of us)) 0 (slot (writer w) 1 ∷ []))
      → execute (suc (suc f)) true t throws s
        ≡ (set_exception t true
              >> notify_successors (suc (suc f)) true t
              >> release (suc (suc f)) t 1)
            s
  unfolding execute
  execute-throws us s ht = ground arith

  abbrev notify_outs : List ℕ → Cmd ℕ
  notify_outs = do_notify_outs (release (suc (suc f))) (remove_prerequisite (suc (suc f))) t 0

  abbrev wake_and_release : ℕ → Cmd (Unit {0})
  wake_and_release n =
      wakeup t >> release_with (release (suc (suc f))) (remove_prerequisite (suc (suc f))) t n

  -- The list is closed, with the exception for its terminal value.
  abbrev closing : List ℕ → Store → Store
  closing us s = record s {
    task =
        update
          (update s.task t (
            some (
              node 3 (live (exception_signal x ∷ arcs_of us)) thrown_word
                (slot (writer w) max_count ∷ []))))
          t (some (failing x w max_count));
    control = update s.control x (some 2);
  }

  notify-throws :
      (us : List ℕ) (s : Store)
      → s.task t
        ≡ some
            (node 3 (live (exception_signal x ∷ arcs_of us)) thrown_word (slot (writer w) 1 ∷ []))
      → s.control x ≡ some 1
      → (notify_successors (suc (suc f)) true t >> release (suc (suc f)) t 1) s
        ≡ (notify_arcs f t w x (exception_signal x ∷ arcs_of us) (max_count ∷ [])
              >>= notify_outs
              >>= wake_and_release
              >>= (λ x. release (suc (suc f)) t 1))
            (closing us s)
  unfolding notify_successors
  notify-throws us s ht hx = ground arith

  failure-ended :
      (c : ℕ) (s : Store)
      → 0 < c
      → (t == w) ≡ false
      → s.task t ≡ some (failing x w c)
      → s.task w ≡ some (node 4 (live []) 1 (slot unknown 1 ∷ slot unknown 1 ∷ []))
      → Ends
          ((notify_outs (c ∷ []) >>= wake_and_release >>= (λ x. release (suc (suc f)) t 1)) s)
          (λ e. e.spawned ≡ w ∷ s.spawned)
  unfolding do_notify_outs wakeup release_with release
  failure-ended c s lo tw ht hw = ground arith

  pub readers-failed :
      (us before : List ℕ) (s : Store)
      → s.next_control ≡ x
      → length us < max_count
      → IsApart t us
      → IsApart w us
      → (t == w) ≡ false
      → AreApart us
      → Published t w us before s
      → Ends (execute (suc (suc f)) true t throws s) (λ e. e.spawned ≡ w ∷ before)
  readers-failed us before s hx few tu wu tw d (ht, hw, sp, h) = rw (execute-throws us s ht) (
      Ends-left (HasThrown us s) _ (set_exception t true) (notify_successors (suc (suc f)) true t)
        (release (suc (suc f)) t 1) s (exception-set us s hx ht)
        (λ e g.
          let e1 = closing us e in
          let here : e1.task t ≡ some (failing x w max_count) = ground arith in
          let counted : e1.control x ≡ some 2 = ground arith in
          let frame = λ (y : ℕ) (a : (t == y) ≡ false). other_task t e y _ _ a ∙ g.2 y a in
          rw (notify-throws us e g.0 g.1) (
            Leaves-nested (AllSkipped f t w x us (max_count - length us) e1) _
              (notify_arcs f t w x (exception_signal x ∷ arcs_of us) (max_count ∷ [])) notify_outs
              wake_and_release (λ y. release (suc (suc f)) t 1) e1 ((max_count - length us) ∷ [])
              (each_skipped f t w x us e1 tu d few here counted
                (kept_tasks t t unread s e1 us (λ y a b. frame y a) tu tu h))
              (λ e' j.
                Ends-map _ (λ e'. e'.spawned ≡ w ∷ before) _
                  (failure-ended (max_count - length us) e' (omega (arith, few)) tw j.0
                    (j.1 w tw (flip_apart w us wu) ∙ frame w tw ∙ hw))
                  (λ e'' k. k ∙ ap (λ ys. w ∷ ys) (j.2 ∙ g.3 ∙ sp))))))

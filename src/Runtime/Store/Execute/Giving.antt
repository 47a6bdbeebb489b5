-- ===== src/Runtime/Store/Execute/Giving.antt =====
-- The execution of a task of oox/oox.h that has any number of readers, and of the readers.
use oox_kirkon_fork.Base.{
  ℕ, suc, ◌-◌, ◌<◌, ◌≤◌, ◌≡◌, refl, ap, ◌∙◌, ◌==◌, some, true, false, List, [], ◌∷◌, All, arith,
  length,
}
use oox_kirkon_fork.Base.Family.{update}
use oox_kirkon_fork.Runtime.Node.{
  TaskNode, Arc, live, task_done, edge, back_only, flow_back, unknown, writer,
}
use oox_kirkon_fork.Runtime.Output.{max_count}
use oox_kirkon_fork.Runtime.Store.{Store, Cmd, ◌>>=◌, ◌>>◌, wakeup, load, add_arc}
use oox_kirkon_fork.Runtime.Store.Notify.{
  release, remove_prerequisite, do_notify_arc, do_notify_arcs, do_notify_outs, release_with,
  notify_consumer,
}
use oox_kirkon_fork.Runtime.Store.Execute.{execute, returns}
use oox_kirkon_fork.Runtime.Store.Execute.Lifecycle.{Ends, Leaves}
use oox_kirkon_fork.Runtime.Store.Execute.Steps.{
  Ends-map, Ends-Leaves, Leaves-bind, Leaves-map, Leaves-nested, loaded, slot, node,
}
use oox_kirkon_fork.Runtime.Store.Execute.Apart.{IsApart, AreApart, flip_apart, rev_onto}
use oox_kirkon_fork.Runtime.Store.Execute.Readers.{arcs_of, unread, kept_tasks, Published}

-- A reader that keeps the value of `t`.
abbrev pub reading : ℕ → TaskNode
reading t = node 3 (live (edge back_only t 0 ∷ [])) 0 (slot unknown 1 ∷ [])

-- The producer, while it notifies its readers.
abbrev giver : ℕ → TaskNode
giver w = node 3 task_done 0 (slot (writer w) max_count ∷ [])

pub other_task :
    (t : ℕ) (s : Store) (x : ℕ) (a b : TaskNode)
    → (t == x) ≡ false
    → update (update s.task t (some a)) t (some b) x ≡ s.task x
other_task t s x a b h = ground arith

module _ (f t w : ℕ) where
  abbrev notify_arcs : List Arc → List ℕ → Cmd (List ℕ)
  notify_arcs =
      do_notify_arcs (release (suc (suc f))) (remove_prerequisite (suc (suc f))) false t false

  -- The reader has the arc that leads back, and then its prerequisite.
  abbrev Linked : ℕ → Store → Store → Type 0
  Linked u s e =
      (e.task t ≡ some (giver w))
      × (e.task u ≡ some (node 3 (live (edge back_only t 0 ∷ [])) 1 (slot unknown 1 ∷ [])))
      × ((x : ℕ) → (u == x) ≡ false → e.task x ≡ s.task x)
      × (e.spawned ≡ s.spawned)

  abbrev Given : ℕ → Store → Store → Type 0
  Given u s e =
      (e.task t ≡ some (giver w))
      × (e.task u ≡ some (reading t))
      × ((x : ℕ) → (u == x) ≡ false → e.task x ≡ s.task x)
      × (e.spawned ≡ u ∷ s.spawned)

  linked :
      (u : ℕ) (s : Store)
      → (t == u) ≡ false
      → s.task t ≡ some (giver w)
      → s.task u ≡ some unread
      → Leaves (add_arc u (edge back_only t 0) s) true (Linked u s)
  unfolding add_arc
  linked u s tu ht hu = ground arith

  notified :
      (u : ℕ) (s e : Store)
      → (t == u) ≡ false
      → Linked u s e
      → Ends
          (notify_consumer
            (release (suc (suc f)))
            (remove_prerequisite (suc (suc f)))
            t
            false
            u
            0
            e)
          (Given u s)
  unfolding notify_consumer remove_prerequisite
  notified u s e tu h = ground arith

  arc-given :
      (u c : ℕ) (s : Store)
      → (t == u) ≡ false
      → s.task t ≡ some (giver w)
      → s.task u ≡ some unread
      → Leaves
          (do_notify_arc
            (release (suc (suc f)))
            (remove_prerequisite (suc (suc f)))
            false
            t
            false
            (edge flow_back u 0)
            (c ∷ [])
            s)
          ((c - 1) ∷ [])
          (Given u s)
  unfolding do_notify_arc
  arc-given u c s tu ht hu =
      Leaves-bind (λ e. e ≡ s) (Given u s) (load t) _ s (giver w) ((c - 1) ∷ [])
        (loaded t (giver w) s ht)
        (λ e same.
          Leaves-bind (Linked u s) (Given u s) (add_arc u (edge back_only t 0)) _ e true
            ((c - 1) ∷ []) (rw same (linked u s tu ht hu))
            (λ e' h.
              Ends-Leaves (Given u s) (Given u s)
                (notify_consumer (release (suc (suc f))) (remove_prerequisite (suc (suc f))) t false
                  u 0)
                _ e' ((c - 1) ∷ []) (notified u s e' tu h) (λ e'' k. (refl, k))))

  execute-notify :
      (s : Store) (us : List ℕ)
      → s.task t ≡ some (node 3 (live (arcs_of us)) 0 (slot (writer w) 1 ∷ []))
      → execute (suc (suc f)) true t returns s
        ≡ (notify_arcs (arcs_of us) (max_count ∷ [])
              >>= do_notify_outs (release (suc (suc f))) (remove_prerequisite (suc (suc f))) t 0
              >>= (λ n.
                  wakeup t
                  >> release_with (release (suc (suc f))) (remove_prerequisite (suc (suc f))) t n)
              >>= (λ x. release (suc (suc f)) t 1))
            (record s {
              task =
                  update
                    (update s.task t
                      (some (node 3 (live (arcs_of us)) 0 (slot (writer w) max_count ∷ []))))
                    t
                    (some (giver w));
            })
  unfolding execute
  execute-notify s us ht = ground arith

  -- The readers in the list have been given the value.
  abbrev AllGiven : List ℕ → Store → Store → Type 0
  AllGiven us s e =
      (e.task t ≡ some (giver w))
      × All (λ u. e.task u ≡ some (reading t)) us
      × ((x : ℕ) → All (λ u. (u == x) ≡ false) us → e.task x ≡ s.task x)
      × (e.spawned ≡ rev_onto us s.spawned)

  arcs-given :
      (us : List ℕ) (c : ℕ) (s : Store)
      → IsApart t us
      → AreApart us
      → s.task t ≡ some (giver w)
      → All (λ u. s.task u ≡ some unread) us
      → Leaves (notify_arcs (arcs_of us) (c ∷ []) s) ((c - length us) ∷ []) (AllGiven us s)
  unfolding do_notify_arcs
  arcs-given [] c s tu d ht h =
      let same : c ≡ c - 0 = omega arith in (ap (λ n. n ∷ []) same, (ht, tt, λ x a. refl, refl))
  arcs-given (u ∷ us) c s tu d ht h =
      let less : c - 1 - length us ≡ c - suc (length us) = omega arith in
      rw (← less) (
        Leaves-bind (Given u s) (AllGiven (u ∷ us) s)
          (do_notify_arc (release (suc (suc f))) (remove_prerequisite (suc (suc f))) false t false
            (edge flow_back u 0) (c ∷ []))
          (notify_arcs (arcs_of us)) s ((c - 1) ∷ []) ((c - 1 - length us) ∷ [])
          (arc-given u c s tu.0 ht h.0)
          (λ e g.
            Leaves-map (AllGiven us e) (AllGiven (u ∷ us) s) _ _
              (arcs-given us (c - 1) e tu.1 d.1 g.0
                (kept_tasks t u unread s e us (λ x a b. g.2 x b) tu.1 d.0 h.1))
              (λ e' k. (
                k.0,
                (k.2 u (flip_apart u us d.0) ∙ g.1, k.1),
                (λ x a. k.2 x a.1 ∙ g.2 x a.0),
                k.3 ∙ ap (rev_onto us) g.3,
              ))))

  abbrev notify_outs : List ℕ → Cmd ℕ
  notify_outs = do_notify_outs (release (suc (suc f))) (remove_prerequisite (suc (suc f))) t 0

  abbrev wake_and_release : ℕ → Cmd (Unit {0})
  wake_and_release n =
      wakeup t >> release_with (release (suc (suc f))) (remove_prerequisite (suc (suc f))) t n

  -- What is left of the execution, with a reader at least.
  abbrev Shared : ℕ → Store → Store → Type 0
  Shared k s e =
      (e.task t ≡ some (node 2 task_done 0 (slot (writer w) k ∷ [])))
      × ((x : ℕ) → (t == x) ≡ false → e.task x ≡ s.task x)
      × (e.spawned ≡ s.spawned)

  execution-ended :
      (k : ℕ) (s : Store)
      → 0 < k
      → k ≤ max_count
      → s.task t ≡ some (giver w)
      → Ends
          ((notify_outs ((max_count - k) ∷ [])
              >>= wake_and_release
              >>= (λ x. release (suc (suc f)) t 1))
            s)
          (Shared k s)
  unfolding do_notify_outs wakeup release_with release
  execution-ended k s lo hi ht = ground arith

  -- The producer is done, the readers keep its value, and the next writer waits.
  abbrev pub Running : ℕ → List ℕ → List ℕ → Store → Type 0
  Running k us spawned s =
      (s.task t ≡ some (node 2 task_done 0 (slot (writer w) k ∷ [])))
      × (s.task w ≡ some (node 4 (live []) 1 (slot unknown 1 ∷ slot unknown 1 ∷ [])))
      × All (λ u. s.task u ≡ some (reading t)) us
      × (s.spawned ≡ spawned)

  pub producer-executed :
      (us : List ℕ) (before : List ℕ) (s : Store)
      → 0 < length us
      → length us ≤ max_count
      → IsApart t us
      → IsApart w us
      → (t == w) ≡ false
      → AreApart us
      → Published t w us before s
      → Ends (execute (suc (suc f)) true t returns s) (Running (length us) us (rev_onto us before))
  producer-executed us before s some_reader few tu wu tw d (ht, hw, sp, h) =
      let s1 = record s {
        task =
            update
              (update s.task t
                (some (node 3 (live (arcs_of us)) 0 (slot (writer w) max_count ∷ []))))
              t (some (giver w));
      } in
      let here : s1.task t ≡ some (giver w) = ground arith in
      let frame = λ (x : ℕ) (a : (t == x) ≡ false). other_task t s x _ _ a in
      rw (execute-notify s us ht) (
        Leaves-nested (AllGiven us s1) _ (notify_arcs (arcs_of us) (max_count ∷ [])) notify_outs
          wake_and_release (λ x. release (suc (suc f)) t 1) s1 ((max_count - length us) ∷ [])
          (arcs-given us max_count s1 tu d here
            (kept_tasks t t unread s s1 us (λ x a b. frame x a) tu tu h))
          (λ e g.
            Ends-map (Shared (length us) e) _ _ (execution-ended (length us) e some_reader few g.0)
              (λ e' k. (
                k.0,
                k.1 w tw ∙ g.2 w (flip_apart w us wu) ∙ frame w tw ∙ hw,
                kept_tasks t t (reading t) e e' us (λ x a b. k.1 x a) tu tu g.1,
                k.2 ∙ g.3 ∙ ap (rev_onto us) sp,
              ))))

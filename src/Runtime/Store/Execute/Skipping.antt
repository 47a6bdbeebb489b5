-- ===== src/Runtime/Store/Execute/Skipping.antt =====
-- A task of oox/oox.h that has thrown tells any number of readers, which are skipped.
use oox_kirkon_fork.Base.{
  ℕ, suc, ◌-◌, ◌<◌, ◌≡◌, refl, ap, ◌∙◌, ◌==◌, leb, some, true, false, List, [], ◌∷◌, All, arith,
  length,
}
use oox_kirkon_fork.Runtime.Node.{
  TaskNode, Arc, live, terminal_exception, edge, exception_signal, back_only, flow_back, unknown,
  writer,
}
use oox_kirkon_fork.Runtime.Output.{max_count}
use oox_kirkon_fork.Runtime.Store.{Store, Cmd, load, add_arc, release_exception_control}
use oox_kirkon_fork.Runtime.Store.Notify.{
  release, remove_prerequisite, do_notify_arc, do_notify_arcs, notify_consumer,
}
use oox_kirkon_fork.Runtime.Store.Execute.Lifecycle.{Ends, Leaves}
use oox_kirkon_fork.Runtime.Store.Execute.Steps.{
  Ends-Leaves, Leaves-bind, Leaves-map, loaded, slot, node,
}
use oox_kirkon_fork.Runtime.Store.Execute.Apart.{IsApart, AreApart}
use oox_kirkon_fork.Runtime.Store.Execute.Readers.{arcs_of, unread, kept_tasks}

-- The word of a task that has thrown: the flag of a failure and that of an exception.
abbrev pub thrown_word : ℕ
thrown_word = 3221225472

-- The producer has thrown, and tells its readers; `k` are left, or it has not been told by them.
abbrev pub failing : (control w countdown : ℕ) → TaskNode
failing control w c = node 3 (terminal_exception control) thrown_word (slot (writer w) c ∷ [])

module _ (f t w x : ℕ) where
  abbrev Linked : ℕ → ℕ → ℕ → Store → Store → Type 0
  Linked u c k s e =
      (e.task t ≡ some (failing x w c))
      × (e.task u ≡ some (node 3 (live (edge back_only t 0 ∷ [])) 1 (slot unknown 1 ∷ [])))
      × (e.control x ≡ some k)
      × ((y : ℕ) → (t == y) ≡ false → (u == y) ≡ false → e.task y ≡ s.task y)
      × (e.spawned ≡ s.spawned)

  abbrev Skipped : ℕ → ℕ → Store → Store → Type 0
  Skipped u c s e =
      (e.task t ≡ some (failing x w c))
      × ((y : ℕ) → (t == y) ≡ false → (u == y) ≡ false → e.task y ≡ s.task y)
      × (e.spawned ≡ s.spawned)

  skipped :
      (u c k : ℕ) (s e : Store)
      → (t == u) ≡ false
      → leb 1 c ≡ true
      → (c - 1 == 0) ≡ false
      → Linked u c (suc k) s e
      → Ends
          (notify_consumer (release (suc (suc f))) (remove_prerequisite (suc (suc f))) t true u 0 e)
          (λ e'. Skipped u (c - 1) s e' × (e'.control x ≡ some (suc (suc k))))
  unfolding notify_consumer remove_prerequisite
  skipped u c k s e tu le ne h = ground arith

  linked :
      (u c k : ℕ) (s : Store)
      → (t == u) ≡ false
      → s.task t ≡ some (failing x w c)
      → s.task u ≡ some unread
      → s.control x ≡ some k
      → Leaves (add_arc u (edge back_only t 0) s) true (Linked u c k s)
  unfolding add_arc
  linked u c k s tu ht hu hx = ground arith

  abbrev notify_arc : Arc → List ℕ → Cmd (List ℕ)
  notify_arc = do_notify_arc (release (suc (suc f))) (remove_prerequisite (suc (suc f))) true t true

  abbrev pub notify_arcs : List Arc → List ℕ → Cmd (List ℕ)
  notify_arcs =
      do_notify_arcs (release (suc (suc f))) (remove_prerequisite (suc (suc f))) true t true

  -- A reader is skipped, and one back arc of the producer is gone.
  arc-Skipped :
      (u c k n : ℕ) (s : Store)
      → (t == u) ≡ false
      → leb 1 c ≡ true
      → (c - 1 == 0) ≡ false
      → s.task t ≡ some (failing x w c)
      → s.task u ≡ some unread
      → s.control x ≡ some (suc k)
      → Leaves
          (notify_arc (edge flow_back u 0) (n ∷ []) s)
          ((n - 1) ∷ [])
          (λ e. Skipped u (c - 1) s e × (e.control x ≡ some (suc (suc k))))
  unfolding do_notify_arc
  arc-Skipped u c k n s tu le ne ht hu hx =
      let Q = λ (e : Store). Skipped u (c - 1) s e × (e.control x ≡ some (suc (suc k))) in
      Leaves-bind (λ e. e ≡ s) Q (load t) _ s (failing x w c) ((n - 1) ∷ [])
        (loaded t (failing x w c) s ht)
        (λ e same.
          Leaves-bind (Linked u c (suc k) s) Q (add_arc u (edge back_only t 0)) _ e true
            ((n - 1) ∷ []) (rw same (linked u c (suc k) s tu ht hu hx))
            (λ e' h.
              Ends-Leaves Q Q
                (notify_consumer (release (suc (suc f))) (remove_prerequisite (suc (suc f))) t true
                  u 0)
                _ e' ((n - 1) ∷ []) (skipped u c k s e' tu le ne h) (λ e'' g. (refl, g))))

  abbrev pub AllSkipped : List ℕ → ℕ → Store → Store → Type 0
  AllSkipped us c s e =
      (e.task t ≡ some (failing x w c))
      × ((y : ℕ) → (t == y) ≡ false → All (λ u. (u == y) ≡ false) us → e.task y ≡ s.task y)
      × (e.spawned ≡ s.spawned)

  arcs-skipped :
      (us : List ℕ) (c k n : ℕ) (s : Store)
      → IsApart t us
      → AreApart us
      → length us < c
      → s.task t ≡ some (failing x w c)
      → s.control x ≡ some (suc k)
      → All (λ u. s.task u ≡ some unread) us
      → Leaves
          (notify_arcs (arcs_of us) (n ∷ []) s)
          ((n - length us) ∷ [])
          (AllSkipped us (c - length us) s)
  unfolding do_notify_arcs
  arcs-skipped [] c k n s tu d lt ht hx h =
      let same : n ≡ n - 0 = omega arith in
      let here : c - 0 ≡ c = omega arith in
      (ap (λ i. i ∷ []) same, (rw here ht, λ y a b. refl, refl))
  arcs-skipped (u ∷ us) c k n s tu d lt ht hx h =
      let less : n - 1 - length us ≡ n - suc (length us) = omega arith in
      let down : c - 1 - length us ≡ c - suc (length us) = omega arith in
      rw (← less, ← down)
        (Leaves-bind (λ e. Skipped u (c - 1) s e × (e.control x ≡ some (suc (suc k)))) _
          (notify_arc (edge flow_back u 0) (n ∷ [])) (notify_arcs (arcs_of us)) s ((n - 1) ∷ [])
          ((n - 1 - length us) ∷ [])
          (arc-Skipped u c k n s tu.0 (ground arith) (ground arith) ht h.0 hx)
          (λ e g.
            Leaves-map (AllSkipped us (c - 1 - length us) e) _ _ _
              (arcs-skipped us (c - 1) (suc k) (n - 1) e tu.1 d.1 (omega arith) g.0.0 g.1
                (kept_tasks t u unread s e us g.0.1 tu.1 d.0 h.1))
              (λ e' j. (j.0, (λ y a b. j.1 y a b.1 ∙ g.0.1 y a b.0), j.2 ∙ g.0.2))))

  -- The signal that carries the exception goes first.
  abbrev Released : Store → Store → Type 0
  Released s e = ((y : ℕ) → e.task y ≡ s.task y) × (e.control x ≡ some 1) × (e.spawned ≡ s.spawned)

  released : (s : Store) → s.control x ≡ some 2 → Ends (release_exception_control x s) (Released s)
  unfolding release_exception_control
  released s hx = ground arith

  signal-Released :
      (n : ℕ) (s : Store)
      → s.control x ≡ some 2
      → Leaves (notify_arc (exception_signal x) (n ∷ []) s) (n ∷ []) (Released s)
  unfolding do_notify_arc
  signal-Released n s hx =
      Ends-Leaves (Released s) (Released s) (release_exception_control x) _ s (n ∷ [])
        (released s hx) (λ e h. (refl, h))

  -- The signal and the arcs of all readers.
  pub each_skipped :
      (us : List ℕ) (s : Store)
      → IsApart t us
      → AreApart us
      → length us < max_count
      → s.task t ≡ some (failing x w max_count)
      → s.control x ≡ some 2
      → All (λ u. s.task u ≡ some unread) us
      → Leaves
          (notify_arcs (exception_signal x ∷ arcs_of us) (max_count ∷ []) s)
          ((max_count - length us) ∷ [])
          (AllSkipped us (max_count - length us) s)
  unfolding do_notify_arcs
  each_skipped us s tu d few ht hx h =
      Leaves-bind (Released s) _ (notify_arc (exception_signal x) (max_count ∷ []))
        (notify_arcs (arcs_of us)) s (max_count ∷ []) ((max_count - length us) ∷ [])
        (signal-Released max_count s hx)
        (λ e g.
          Leaves-map (AllSkipped us (max_count - length us) e) _ _ _
            (arcs-skipped us max_count 0 max_count e tu d few (g.0 t ∙ ht) g.1
              (kept_tasks t t unread s e us (λ y a b. g.0 y) tu tu h))
            (λ e' j. (j.0, (λ y a b. j.1 y a b ∙ g.0 y), j.2 ∙ g.2)))

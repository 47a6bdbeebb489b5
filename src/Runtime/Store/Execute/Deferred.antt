-- ===== src/Runtime/Store/Execute/Deferred.antt =====
-- The readers of a deferred variable of oox/oox.h, and the first task that writes it.
use oox_kirkon_fork.Base.{
  ℕ, suc, ◌-◌, ◌≡◌, ◌==◌, refl, ◌∙◌, some, true, false, List, [], ◌∷◌, arith,
}
use oox_kirkon_fork.Runtime.Node.{
  TaskNode, live, deferred_redirect, edge, flow_back, unknown, ready, writer,
}
use oox_kirkon_fork.Runtime.Start.{start_count_mask}
use oox_kirkon_fork.Runtime.Store.{Store, Cmd, ◌>>=◌, ◌>>◌, store}
use oox_kirkon_fork.Runtime.Store.Notify.{remove_prerequisite}
use oox_kirkon_fork.Runtime.Store.Vars.{allocate_deferred, bind_to, var_set_next_writer}
use oox_kirkon_fork.Runtime.Store.Execute.{
  nothing, reads, writes, new_task, assign_prerequisite, lifetime_of, write_nodes_count, setup,
  allocate_if_empty, run, Outcome, returns, throws, execute,
}
use oox_kirkon_fork.Runtime.Store.Execute.Lifecycle.{Ends, Leaves}
use oox_kirkon_fork.Runtime.Store.Execute.Steps.{
  Ends-bind, Ends-three, Ends-map, Ends-Leaves, Leaves-Ends, not_empty, slot, node,
}

-- `oox::run` for a task `u` that reads a variable, by a thread that has found the task `n` in it before
-- another thread has made a writer.
pub run_late : ℕ → ℕ → ℕ → ℕ → Cmd (Unit {0})
unfolding store assign_prerequisite bind_to lifetime_of remove_prerequisite
run_late f u q n = do
  store u (new_task 1)
  count ← assign_prerequisite u n 0
  bind_to q u false (lifetime_of nothing 1) false false
  remove_prerequisite f u (start_count_mask - count)

-- A deferred variable `v` with a placeholder `a`, and a task `c` that reads it.
pub deferred_read : ℕ → ℕ → ℕ → ℕ → ℕ → Cmd (Unit {0})
unfolding allocate_deferred run
deferred_read f v a c q = do allocate_deferred v a; run f c q nothing (reads v a ∷ [])

-- The same, with a task `w` that writes the variable, and a reader `u` that has found the placeholder.
pub deferred_written : ℕ → ℕ → ℕ → ℕ → ℕ → ℕ → ℕ → ℕ → ℕ → Cmd (Unit {0})
unfolding deferred_read run run_late
deferred_written f v a c q w p u y = do
  deferred_read f v a c q
  run f w p nothing (writes v a ∷ [])
  run_late f u y a

-- The same, and the writer is executed.
pub deferred_produced : ℕ → ℕ → ℕ → ℕ → ℕ → ℕ → ℕ → ℕ → ℕ → Outcome → Cmd (Unit {0})
unfolding deferred_written execute
deferred_produced f v a c q w p u y o = do deferred_written f v a c q w p u y; execute f true w o

writer_failed :
    (f c u w : ℕ) (before : List ℕ) (s : Store)
    → (c == w) ≡ false
    → (c == u) ≡ false
    → (w == u) ≡ false
    → s.task c ≡ some (node 2 (live []) 1 (slot unknown 1 ∷ []))
    → s.task u ≡ some (node 2 (live []) 1 (slot unknown 1 ∷ []))
    → s.task w
      ≡ some (
          node 3
            (live (edge flow_back u 1 ∷ edge flow_back c 1 ∷ []))
            0
            (slot unknown 1 ∷ slot unknown 1 ∷ []))
    → s.spawned ≡ before
    → Ends (execute (suc (suc f)) true w throws s) (λ e. e.spawned ≡ before)
unfolding execute
writer_failed f c u w before s cw cu wu hc hu hw e = ground (arith) steps 10000000

var_redirected :
    (f v a c w : ℕ) (before : List ℕ) (s : Store)
    → (a == c) ≡ false
    → (a == w) ≡ false
    → (c == w) ≡ false
    → s.task a ≡ some (node 2 (live (edge flow_back c 0 ∷ [])) 0 (slot ready 1 ∷ []))
    → s.task w ≡ some (node 0 (live []) start_count_mask (slot unknown 1 ∷ slot unknown 1 ∷ []))
    → (s.var v).current_task ≡ some a
    → (s.var v).current_port ≡ 0
    → (s.var v).is_deferred ≡ true
    → s.spawned ≡ before
    → Ends (var_set_next_writer (suc (suc f)) v 1 w s) (λ e.
      (e.task a ≡ some (node 1 (deferred_redirect w 1) 0 (slot (writer w) 0 ∷ [])))
      × (e.task w
          ≡ some (
              node 0
                (live (edge flow_back c 1 ∷ []))
                (start_count_mask - 1)
                (slot unknown 1 ∷ slot unknown 1 ∷ [])))
      × (e.task c ≡ s.task c)
      × (e.spawned ≡ before))
unfolding var_set_next_writer
var_redirected f v a c w before s ac aw cw ha hw hv hp hd e = ground (arith) steps 10000000

module _ (f v a c q w p u y : ℕ) (ac : (a == c) ≡ false) (aw : (a == w) ≡ false)
    (au : (a == u) ≡ false) (cw : (c == w) ≡ false) (cu : (c == u) ≡ false) (wu : (w == u) ≡ false)
    (vq : (v == q) ≡ false) (vp : (v == p) ≡ false) (vy : (v == y) ≡ false) (z : Store) where
  abbrev Placed : Store → Type 0
  Placed s =
      (s.task a ≡ some (node 2 (live []) 0 (slot ready 1 ∷ [])))
      × ((s.var v).current_task ≡ some a)
      × ((s.var v).current_port ≡ 0)
      × ((s.var v).is_deferred ≡ true)
      × (s.spawned ≡ z.spawned)

  abbrev Read : Store → Type 0
  Read s =
      (s.task a ≡ some (node 2 (live (edge flow_back c 0 ∷ [])) 0 (slot ready 1 ∷ [])))
      × (s.task c ≡ some (node 2 (live []) 1 (slot unknown 1 ∷ [])))
      × ((s.var v).current_task ≡ some a)
      × ((s.var v).current_port ≡ 0)
      × ((s.var v).is_deferred ≡ true)
      × (s.spawned ≡ z.spawned)

  abbrev Redirected : Store → Type 0
  Redirected s =
      (s.task a ≡ some (node 1 (deferred_redirect w 1) 0 (slot (writer w) 0 ∷ [])))
      × (s.task c ≡ some (node 2 (live []) 1 (slot unknown 1 ∷ [])))
      × (s.task w
          ≡ some (node 3 (live (edge flow_back c 1 ∷ [])) 0 (slot unknown 1 ∷ slot unknown 1 ∷ [])))
      × (s.spawned ≡ w ∷ z.spawned)

  abbrev Joined : Store → Type 0
  Joined s =
      (s.task c ≡ some (node 2 (live []) 1 (slot unknown 1 ∷ [])))
      × (s.task u ≡ some (node 2 (live []) 1 (slot unknown 1 ∷ [])))
      × (s.task w
          ≡ some (
              node 3 (live (edge flow_back u 1 ∷ edge flow_back c 1 ∷ [])) 0
                (slot unknown 1 ∷ slot unknown 1 ∷ [])))
      × (s.spawned ≡ w ∷ z.spawned)

  placed : Ends (allocate_deferred v a z) Placed
  unfolding allocate_deferred
  placed = ground arith

  read : (s : Store) → Placed s → Ends (run (suc (suc f)) c q nothing (reads v a ∷ []) s) Read
  unfolding run
  read s h = ground arith

  abbrev fresh : ℕ → TaskNode
  fresh waits = node 0 (live []) waits (slot unknown 1 ∷ slot unknown 1 ∷ [])

  abbrev Fresh : Store → Type 0
  Fresh s = (s.task w ≡ some (fresh start_count_mask)) × Read s

  abbrev Set : Store → Type 0
  Set s =
      (s.task a ≡ some (node 1 (deferred_redirect w 1) 0 (slot (writer w) 0 ∷ [])))
      × (s.task w
          ≡ some (
              node 0 (live (edge flow_back c 1 ∷ [])) (start_count_mask - 1)
                (slot unknown 1 ∷ slot unknown 1 ∷ [])))
      × (s.task c ≡ some (node 2 (live []) 1 (slot unknown 1 ∷ [])))
      × (s.spawned ≡ z.spawned)

  made : (s : Store) → Read s → Ends (store w (new_task 2) s) Fresh
  unfolding store
  made s h = ground arith

  redirect : (s : Store) → Fresh s → Ends (var_set_next_writer (suc (suc f)) v 1 w s) Set
  redirect s h =
      Ends-map _ Set _
        (var_redirected f v a c w z.spawned s ac aw cw h.1.0 h.0 h.1.2 h.1.3 h.1.4 h.1.5)
        (λ s' h'. (h'.0, h'.1, h'.2 ∙ h.1.1, h'.3))

  set_up : (s : Store) → Fresh s → Leaves (setup (suc (suc f)) 1 w (writes v a ∷ []) s) 1 Set
  unfolding setup
  set_up s h =
      Ends-Leaves Fresh Set (allocate_if_empty v a) _ s 1 (not_empty Fresh s v a a h.1.2 h)
        (λ s' h'.
          Ends-Leaves Set Set (var_set_next_writer (suc (suc f)) v 1 w) _ s' 1 (redirect s' h')
            (λ s'' h''. (refl, h'')))

  abbrev publish : ℕ → Cmd (Unit {0})
  publish count = do
    bind_to p w false 3 false false
    remove_prerequisite (suc (suc f)) w (start_count_mask - count)

  published : (s : Store) → Set s → Ends (publish 1 s) Redirected
  unfolding bind_to remove_prerequisite
  published s h = ground arith

  redirected :
      (s : Store) → Read s → Ends (run (suc (suc f)) w p nothing (writes v a ∷ []) s) Redirected
  unfolding run write_nodes_count lifetime_of
  redirected s h =
      Ends-bind Fresh Redirected (store w (new_task 2))
        (setup (suc (suc f)) 1 w (writes v a ∷ []) >>= publish) s (made s h)
        (λ s' h'.
          Leaves-Ends Set Redirected (setup (suc (suc f)) 1 w (writes v a ∷ [])) publish s' 1
            (set_up s' h') published)

  joined : (s : Store) → Redirected s → Ends (run_late (suc (suc f)) u y a s) Joined
  unfolding run_late
  joined s h = ground arith

  produced :
      (s : Store)
      → Joined s
      → Ends (execute (suc (suc f)) true w returns s) (λ e. e.spawned ≡ c ∷ u ∷ w ∷ z.spawned)
  unfolding execute
  produced s h = ground arith

  deferred_read-Read : Ends (deferred_read (suc (suc f)) v a c q z) Read
  unfolding deferred_read
  deferred_read-Read =
      Ends-bind Placed Read (allocate_deferred v a) (run (suc (suc f)) c q nothing (reads v a ∷ []))
        z placed read

  deferred_written-Joined : Ends (deferred_written (suc (suc f)) v a c q w p u y z) Joined
  unfolding deferred_written
  deferred_written-Joined =
      Ends-three Read Redirected Joined (deferred_read (suc (suc f)) v a c q)
        (run (suc (suc f)) w p nothing (writes v a ∷ [])) (run_late (suc (suc f)) u y a) z
        deferred_read-Read redirected joined

-- Let a task be made that reads a deferred variable, then one that writes it, and then another reader
-- by a thread that found the variable before that writer was made; the placeholder, the three tasks and
-- their results at different addresses, and the variable at another one than the results. The first
-- reader is not spawned, the writer is, at once, and neither of the readers until it has been executed;
-- then both are spawned if it returned, and neither if it threw.
pub deferred_order :
    (s : Store) (f v a c q w p u y : ℕ)
    → (a == c) ≡ false
    → (a == w) ≡ false
    → (a == u) ≡ false
    → (c == w) ≡ false
    → (c == u) ≡ false
    → (w == u) ≡ false
    → (v == q) ≡ false
    → (v == p) ≡ false
    → (v == y) ≡ false
    → Ends (deferred_read (suc (suc f)) v a c q s) (λ e. e.spawned ≡ s.spawned)
      × Ends (deferred_written (suc (suc f)) v a c q w p u y s) (λ e. e.spawned ≡ w ∷ s.spawned)
      × Ends
          (deferred_produced (suc (suc f)) v a c q w p u y returns s)
          (λ e. e.spawned ≡ c ∷ u ∷ w ∷ s.spawned)
      × Ends
          (deferred_produced (suc (suc f)) v a c q w p u y throws s)
          (λ e. e.spawned ≡ w ∷ s.spawned)
unfolding deferred_produced
deferred_order s f v a c q w p u y ac aw au cw cu wu vq vp vy =
    let all = suc (suc f) in
    let end = deferred_written-Joined f v a c q w p u y ac aw au cw cu wu vq vp vy s in
    (
      Ends-map (Read f v a c q w p u y ac aw au cw cu wu vq vp vy s) _ (deferred_read all v a c q s)
          (deferred_read-Read f v a c q w p u y ac aw au cw cu wu vq vp vy s) (λ s' h. h.5),
      Ends-map (Joined f v a c q w p u y ac aw au cw cu wu vq vp vy s) _
          (deferred_written all v a c q w p u y s) end (λ s' h. h.3),
      Ends-bind (Joined f v a c q w p u y ac aw au cw cu wu vq vp vy s) _
          (deferred_written all v a c q w p u y) (execute all true w returns) s end
          (produced f v a c q w p u y ac aw au cw cu wu vq vp vy s),
      Ends-bind (Joined f v a c q w p u y ac aw au cw cu wu vq vp vy s) _
          (deferred_written all v a c q w p u y) (execute all true w throws) s end
          (λ s' h. writer_failed f c u w (w ∷ s.spawned) s' cw cu wu h.0 h.1 h.2 h.3),
    )

-- ===== src/Runtime/Store/Execute/Cleanup.antt =====
-- What is left of tasks of oox/oox.h that share a variable, once all have been executed and all results
-- have been dropped.
use oox_kirkon_fork.Base.{
  ℕ, suc, ◌≡◌, ◌==◌, Bool, Option, if◌then◌else◌, none, some, true, false, [], ◌∷◌, arith,
}
use oox_kirkon_fork.Runtime.Node.{
  TaskNode, Var, live, task_done, edge, flow_back, back_only, unknown, ready, writer, owner,
}
use oox_kirkon_fork.Runtime.Store.{Store, Cmd}
use oox_kirkon_fork.Runtime.Store.Vars.{var_release}
use oox_kirkon_fork.Runtime.Store.Execute.{value, reads, writes, run, returns, execute}
use oox_kirkon_fork.Runtime.Store.Execute.Lifecycle.{Ends}
use oox_kirkon_fork.Runtime.Store.Execute.Trio.{
  Order, pcw, pwc, cpw, cwp, wpc, wcp, publish_all, execute_all, drop_all, whole_life,
}
use oox_kirkon_fork.Runtime.Store.Execute.Steps.{Ends-three, Ends-map, slot, node}

abbrev Refers : Var → ℕ → ℕ → ℕ → Type 0
Refers x c port o =
    (x.current_task ≡ some c)
    × (x.current_port ≡ port)
    × (x.owner ≡ some o)
    × (x.is_forwarded ≡ false)
    × (x.is_deferred ≡ false)

-- What is left of the writer, once the result of the producer, or its own, has been dropped.
abbrev writer_left : ℕ → ℕ → (producer own : Bool) → Option TaskNode
writer_left t w false false = some (node 3 task_done 0 (slot ready 1 ∷ slot ready 1 ∷ []))
writer_left t w true false = some (node 2 task_done 0 (slot ready 1 ∷ slot (owner t) 0 ∷ []))
writer_left t w false true = some (node 1 task_done 0 (slot (owner w) 0 ∷ slot ready 1 ∷ []))
writer_left t w true true = none

-- What is left at the end.
pub record Cleared (t u w : ℕ) (before after : Store) : Type 0 where
  pub producer : after.task t ≡ none
  pub consumer : after.task u ≡ none
  pub next : after.task w ≡ none
  pub spawned : after.spawned ≡ w ∷ u ∷ t ∷ before.spawned
  pub woken : after.woken ≡ w ∷ u ∷ t ∷ before.woken

module _ (f spare t u w r q p : ℕ) (tu : (t == u) ≡ false) (tw : (t == w) ≡ false)
    (uw : (u == w) ≡ false) (rq : (r == q) ≡ false) (rp : (r == p) ≡ false) (qp : (q == p) ≡ false)
    (z : Store) where
  abbrev Vars : Store → Type 0
  Vars s = Refers (s.var r) w 1 t × Refers (s.var q) u 0 u × Refers (s.var p) w 0 w

  abbrev After1 : Store → Type 0
  After1 s =
      (s.task t ≡ some (node 3 (live []) 0 (slot unknown 1 ∷ [])))
      × Refers (s.var r) t 0 t
      × (s.spawned ≡ t ∷ z.spawned)
      × (s.woken ≡ z.woken)

  abbrev After2 : Store → Type 0
  After2 s =
      (s.task t ≡ some (node 3 (live (edge flow_back u 0 ∷ [])) 0 (slot unknown 1 ∷ [])))
      × (s.task u ≡ some (node 3 (live []) 1 (slot unknown 1 ∷ [])))
      × Refers (s.var r) t 0 t
      × Refers (s.var q) u 0 u
      × (s.spawned ≡ t ∷ z.spawned)
      × (s.woken ≡ z.woken)

  abbrev Published : Store → Type 0
  Published s =
      (s.task t ≡ some (node 3 (live (edge flow_back u 0 ∷ [])) 0 (slot (writer w) 1 ∷ [])))
      × (s.task u ≡ some (node 3 (live []) 1 (slot unknown 1 ∷ [])))
      × (s.task w ≡ some (node 4 (live []) 1 (slot unknown 1 ∷ slot unknown 1 ∷ [])))
      × Vars s
      × (s.spawned ≡ t ∷ z.spawned)
      × (s.woken ≡ z.woken)

  abbrev Produced : Store → Type 0
  Produced s =
      (s.task t ≡ some (node 2 task_done 0 (slot (writer w) 1 ∷ [])))
      × (s.task u ≡ some (node 3 (live (edge back_only t 0 ∷ [])) 0 (slot unknown 1 ∷ [])))
      × (s.task w ≡ some (node 4 (live []) 1 (slot unknown 1 ∷ slot unknown 1 ∷ [])))
      × Vars s
      × (s.spawned ≡ u ∷ t ∷ z.spawned)
      × (s.woken ≡ t ∷ z.woken)

  abbrev Consumed : Store → Type 0
  Consumed s =
      (s.task t ≡ some (node 1 task_done 0 (slot (writer w) 0 ∷ [])))
      × (s.task u ≡ some (node 2 task_done 0 (slot ready 1 ∷ [])))
      × (s.task w ≡ some (node 4 (live []) 0 (slot unknown 1 ∷ slot unknown 1 ∷ [])))
      × Vars s
      × (s.spawned ≡ w ∷ u ∷ t ∷ z.spawned)
      × (s.woken ≡ u ∷ t ∷ z.woken)

  -- All are done, and some results have been dropped.
  abbrev Left : (producer consumer own : Bool) → Store → Type 0
  Left a b c s =
      (s.task t ≡ (if a then none else some (node 1 task_done 0 (slot (writer w) 0 ∷ []))))
      × (s.task u ≡ (if b then none else some (node 2 task_done 0 (slot ready 1 ∷ []))))
      × (s.task w ≡ writer_left t w a c)
      × (a ≡ false → Refers (s.var r) w 1 t)
      × (b ≡ false → Refers (s.var q) u 0 u)
      × (c ≡ false → Refers (s.var p) w 0 w)
      × (s.spawned ≡ w ∷ u ∷ t ∷ z.spawned)
      × (s.woken ≡ w ∷ u ∷ t ∷ z.woken)

  first : Ends (run (suc (suc f)) t r value [] z) After1
  unfolding run
  first = ground arith

  second : (s : Store) → After1 s → Ends (run (suc (suc f)) u q value (reads r spare ∷ []) s) After2
  unfolding run
  second s h = ground arith

  third :
      (s : Store) → After2 s → Ends (run (suc (suc f)) w p value (writes r spare ∷ []) s) Published
  unfolding run
  third s h = ground arith

  produced : (s : Store) → Published s → Ends (execute (suc (suc f)) true t returns s) Produced
  unfolding execute
  produced s h = ground arith

  consumed : (s : Store) → Produced s → Ends (execute (suc (suc f)) true u returns s) Consumed
  unfolding execute
  consumed s h = ground arith

  written :
      (s : Store)
      → Consumed s
      → Ends (execute (suc (suc f)) true w returns s) (Left false false false)
  unfolding execute
  written s h = ground arith

  drop_producer :
      (b c : Bool) (s : Store)
      → Left false b c s
      → Ends (var_release (suc (suc f)) r s) (Left true b c)
  unfolding var_release
  drop_producer false false s h = ground arith
  drop_producer false true s h = ground arith
  drop_producer true false s h = ground arith
  drop_producer true true s h = ground arith

  drop_consumer :
      (a c : Bool) (s : Store)
      → Left a false c s
      → Ends (var_release (suc (suc f)) q s) (Left a true c)
  unfolding var_release
  drop_consumer false false s h = ground arith
  drop_consumer false true s h = ground arith
  drop_consumer true false s h = ground arith
  drop_consumer true true s h = ground arith

  drop_own :
      (a b : Bool) (s : Store)
      → Left a b false s
      → Ends (var_release (suc (suc f)) p s) (Left a b true)
  unfolding var_release
  drop_own false false s h = ground arith
  drop_own false true s h = ground arith
  drop_own true false s h = ground arith
  drop_own true true s h = ground arith

  published : Ends (publish_all (suc (suc f)) t r u q w p spare z) Published
  unfolding publish_all
  published =
      Ends-three After1 After2 Published (run (suc (suc f)) t r value [])
        (run (suc (suc f)) u q value (reads r spare ∷ []))
        (run (suc (suc f)) w p value (writes r spare ∷ [])) z first second third

  executed :
      (s : Store) → Published s → Ends (execute_all (suc (suc f)) t u w s) (Left false false false)
  unfolding execute_all
  executed s h =
      Ends-three Produced Consumed (Left false false false) (execute (suc (suc f)) true t returns)
        (execute (suc (suc f)) true u returns) (execute (suc (suc f)) true w returns) s
        (produced s h) consumed written

  abbrev drop_r : Cmd (Unit {0})
  drop_r = var_release (suc (suc f)) r

  abbrev drop_q : Cmd (Unit {0})
  drop_q = var_release (suc (suc f)) q

  abbrev drop_p : Cmd (Unit {0})
  drop_p = var_release (suc (suc f)) p

  dropped :
      (order : Order) (s : Store)
      → Left false false false s
      → Ends (drop_all (suc (suc f)) r q p order s) (Left true true true)
  unfolding drop_all
  dropped pcw s h =
      Ends-three (Left true false false) (Left true true false) (Left true true true) drop_r drop_q
        drop_p s (drop_producer false false s h) (drop_consumer true false) (drop_own true true)
  dropped pwc s h =
      Ends-three (Left true false false) (Left true false true) (Left true true true) drop_r drop_p
        drop_q s (drop_producer false false s h) (drop_own true false) (drop_consumer true true)
  dropped cpw s h =
      Ends-three (Left false true false) (Left true true false) (Left true true true) drop_q drop_r
        drop_p s (drop_consumer false false s h) (drop_producer true false) (drop_own true true)
  dropped cwp s h =
      Ends-three (Left false true false) (Left false true true) (Left true true true) drop_q drop_p
        drop_r s (drop_consumer false false s h) (drop_own false true) (drop_producer true true)
  dropped wpc s h =
      Ends-three (Left false false true) (Left true false true) (Left true true true) drop_p drop_r
        drop_q s (drop_own false false s h) (drop_producer false true) (drop_consumer true true)
  dropped wcp s h =
      Ends-three (Left false false true) (Left false true true) (Left true true true) drop_p drop_q
        drop_r s (drop_own false false s h) (drop_consumer false true) (drop_producer true true)

-- Let a producer, a consumer of its result and a task that writes this result be made, at different
-- addresses and with their results at different addresses, then executed, and let their functors
-- return. In whatever order their results are dropped then, that ends without a fault: each task has
-- been spawned once and its waiters woken once, the writer after the consumer and that after the
-- producer, and all three are deleted.
pub whole_life-Cleared :
    (s : Store) (f t r u q w p spare : ℕ) (order : Order)
    → (t == u) ≡ false
    → (t == w) ≡ false
    → (u == w) ≡ false
    → (r == q) ≡ false
    → (r == p) ≡ false
    → (q == p) ≡ false
    → Ends (whole_life (suc (suc f)) t r u q w p spare order s) (Cleared t u w s)
unfolding whole_life
whole_life-Cleared s f t r u q w p spare order tu tw uw rq rp qp =
    let all = suc (suc f) in
    let left = Left f spare t u w r q p tu tw uw rq rp qp s in
    Ends-map (left true true true) (Cleared t u w s) (whole_life all t r u q w p spare order s)
      (Ends-three (Published f spare t u w r q p tu tw uw rq rp qp s) (left false false false)
        (left true true true) (publish_all all t r u q w p spare) (execute_all all t u w)
        (drop_all all r q p order) s (published f spare t u w r q p tu tw uw rq rp qp s)
        (executed f spare t u w r q p tu tw uw rq rp qp s)
        (dropped f spare t u w r q p tu tw uw rq rp qp s order))
      (λ s' h. record { producer = h.0; consumer = h.1; next = h.2; spawned = h.6; woken = h.7 })

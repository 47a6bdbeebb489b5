-- ===== src/Runtime/Store/Execute/Reading.antt =====
-- The execution of the readers of a value of oox/oox.h, in any order.
use oox_kirkon_fork.Base.{
  leb, ℕ, suc, ◌+◌, ◌-◌, ◌<◌, ◌≤◌, ◌≡◌, ap, ◌∙◌, ◌==◌, some, true, false, List, [], ◌∷◌, All, arith,
  length, inl, inr, Bool-cases, if◌then◌else◌,
}
use oox_kirkon_fork.Runtime.Node.{task_done, writer, live, unknown}
use oox_kirkon_fork.Runtime.Dependence.Trackers.{has}
use oox_kirkon_fork.Runtime.Store.{Store, Cmd, pure, ◌>>◌}
use oox_kirkon_fork.Runtime.Store.Execute.{execute, Outcome, returns, throws, returns_variable}
use oox_kirkon_fork.Runtime.Store.Execute.Lifecycle.{Ends}
use oox_kirkon_fork.Runtime.Store.Execute.Steps.{Ends-bind, Ends-map, slot, node}
use oox_kirkon_fork.Runtime.Store.Execute.Apart.{IsApart, AreApart, apart_sym, All-some}
use oox_kirkon_fork.Runtime.Store.Execute.Readers.{kept_tasks}
use oox_kirkon_fork.Runtime.Store.Execute.Giving.{reading, Running}

reader-ended :
    (f t w u c : ℕ) (o : Outcome) (s : Store)
    → (t == u) ≡ false
    → leb 1 c ≡ true
    → (c - 1 == 0) ≡ false
    → s.task t ≡ some (node 2 task_done 0 (slot (writer w) c ∷ []))
    → s.task u ≡ some (reading t)
    → Ends (execute (suc (suc f)) true u o s) (λ e.
      (e.task t ≡ some (node 2 task_done 0 (slot (writer w) (c - 1) ∷ [])))
      × ((x : ℕ) → (t == x) ≡ false → (u == x) ≡ false → e.task x ≡ s.task x)
      × (e.spawned ≡ s.spawned))
unfolding execute
reader-ended f t w u c returns s tu le ne ht hu = ground arith
reader-ended f t w u c throws s tu le ne ht hu = ground arith
reader-ended f t w u c (returns_variable v) s tu le ne ht hu = ground arith

last-ended :
    (f t w u : ℕ) (o : Outcome) (s : Store)
    → (t == u) ≡ false
    → (t == w) ≡ false
    → (u == w) ≡ false
    → s.task t ≡ some (node 2 task_done 0 (slot (writer w) 1 ∷ []))
    → s.task u ≡ some (reading t)
    → s.task w ≡ some (node 4 (live []) 1 (slot unknown 1 ∷ slot unknown 1 ∷ []))
    → Ends (execute (suc (suc f)) true u o s) (λ e. e.spawned ≡ w ∷ s.spawned)
unfolding execute
last-ended f t w u returns s tu tw uw ht hu hw = ground arith
last-ended f t w u throws s tu tw uw ht hu hw = ground arith
last-ended f t w u (returns_variable v) s tu tw uw ht hu hw = ground arith

-- The tasks are executed one after the other.
pub execute_all : (f : ℕ) (o : ℕ → Outcome) → List ℕ → Cmd (Unit {0})
unfolding execute
execute_all f o [] = pure tt
execute_all f o (u ∷ us) = do execute f true u (o u); execute_all f o us

module _ (f t w : ℕ) (tw : (t == w) ≡ false) (o : ℕ → Outcome) (sp : List ℕ) where
  -- A reader that is not the last.
  one-Running :
      (u k : ℕ) (us : List ℕ) (s : Store)
      → (t == u) ≡ false
      → (w == u) ≡ false
      → IsApart t us
      → IsApart u us
      → Running f t w (suc (suc k)) (u ∷ us) sp s
      → Ends (execute (suc (suc f)) true u (o u) s) (Running f t w (suc k) us sp)
  one-Running u k us s tu wu ts ua (ht, hw, h, e) =
      let le : leb 1 (suc (suc k)) ≡ true = ground arith in
      let less : suc (suc k) - 1 ≡ suc k = omega arith in
      let more : (suc k == 0) ≡ false = ground arith in
      Ends-map _ (Running f t w (suc k) us sp) _
        (reader-ended f t w u (suc (suc k)) (o u) s tu le (rw less more) ht h.0)
        (λ s' g. (
          rw less at g.0,
          g.1 w tw (apart_sym w u wu) ∙ hw,
          kept_tasks t u (reading t) s s' us g.1 ts ua h.1,
          g.2 ∙ e,
        ))

  some-Running :
      (vs : List ℕ) (k : ℕ) (s : Store)
      → IsApart t vs
      → IsApart w vs
      → AreApart vs
      → Running f t w (suc (length vs + k)) vs sp s
      → Ends (execute_all (suc (suc f)) o vs s) (Running f t w (suc k) [] sp)
  unfolding execute_all
  some-Running [] k s ts ws d h = let z : 0 + k ≡ k = omega arith in rw z at h
  some-Running (v ∷ vs) k s ts ws d h =
      let next : suc (length vs) + k ≡ suc (length vs + k) = omega arith in
      Ends-bind (Running f t w (suc (length vs + k)) vs sp) (Running f t w (suc k) [] sp)
        (execute (suc (suc f)) true v (o v)) (execute_all (suc (suc f)) o vs) s
        (one-Running v (length vs + k) vs s ts.0 ws.0 ts.1 d.0 (rw next at h))
        (λ s' g. some-Running vs k s' ts.1 ws.1 d.1 g)

  each-ended :
      (v : ℕ) (vs : List ℕ) (s : Store)
      → IsApart t (v ∷ vs)
      → IsApart w (v ∷ vs)
      → AreApart (v ∷ vs)
      → Running f t w (suc (length vs)) (v ∷ vs) sp s
      → Ends (execute_all (suc (suc f)) o (v ∷ vs) s) (λ e. e.spawned ≡ w ∷ sp)
  unfolding execute_all
  each-ended v [] s ts ws d (ht, hw, h, e) =
      Ends-bind (λ e. e.spawned ≡ w ∷ sp) (λ e. e.spawned ≡ w ∷ sp)
        (execute (suc (suc f)) true v (o v)) (execute_all (suc (suc f)) o []) s
        (Ends-map _ (λ e. e.spawned ≡ w ∷ sp) _
          (last-ended f t w v (o v) s ts.0 tw (apart_sym w v ws.0) ht h.0 hw)
          (λ s' g. g ∙ ap (λ xs. w ∷ xs) e))
        (λ s' g. g)
  each-ended v (u ∷ us) s ts ws d h =
      Ends-bind (Running f t w (suc (length us)) (u ∷ us) sp) (λ e. e.spawned ≡ w ∷ sp)
        (execute (suc (suc f)) true v (o v)) (execute_all (suc (suc f)) o (u ∷ us)) s
        (one-Running v (length us) (u ∷ us) s ts.0 ws.0 ts.1 d.0 h)
        (λ s' g. each-ended u us s' ts.1 ws.1 d.1 g)

pub executed :
    (f t w : ℕ) (tw : (t == w) ≡ false) (o : ℕ → Outcome) (sp us vs : List ℕ)
    → 0 < length us
    → IsApart t vs
    → IsApart w vs
    → AreApart vs
    → All (λ v. has v us ≡ true) vs
    → length vs ≤ length us
    → (s : Store) → Running f t w (length us) us sp s
    → Ends
        (execute_all (suc (suc f)) o vs s)
        (λ e. e.spawned ≡ (if length vs == length us then w ∷ sp else sp))
executed f t w tw o sp us vs some_reader ts ws d sub le s h =
    let k = length us - length vs - 1 in
    let mine : Running f t w (length us) vs sp s =
      (h.0, h.1, All-some (λ u. s.task u ≡ some (reading t)) us vs h.2 sub, h.3) in
    elim (Bool-cases (length vs == length us)) [
      | inl whole ↦ rw whole (every vs (ground arith) ts ws d mine)
      | inr part ↦
          let left : length us ≡ suc (length vs + k) = ground arith in
          rw part (
            Ends-map (Running f t w (suc k) [] sp) (λ e. e.spawned ≡ sp) _
              (some-Running f t w tw o sp vs k s ts ws d (rw left at mine)) (λ e g. g.3))
    ]
  where
    every :
        (vs : List ℕ)
        → length vs ≡ length us
        → IsApart t vs
        → IsApart w vs
        → AreApart vs
        → Running f t w (length us) vs sp s
        → Ends (execute_all (suc (suc f)) o vs s) (λ e. e.spawned ≡ w ∷ sp)
    every [] len ts ws d m = absurd (omega (arith, len, some_reader))
    every (v ∷ vs) len ts ws d m = each-ended f t w tw o sp v vs s ts ws d (rw (← len) at m)

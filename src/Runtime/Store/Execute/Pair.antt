-- ===== src/Runtime/Store/Execute/Pair.antt =====
-- A task of oox/oox.h that writes two variables, from `oox::run` to its publication.
use oox_kirkon_fork.Base.{ℕ, suc, leb, ◌-◌, refl, ◌≡◌, ◌==◌, some, true, false, [], ◌∷◌, arith}
use oox_kirkon_fork.Runtime.Node.{TaskNode, Var, live, task_done, unknown, ready}
use oox_kirkon_fork.Runtime.Start
use oox_kirkon_fork.Runtime.Start.{start_count_mask}
use oox_kirkon_fork.Runtime.Store.Notify.{remove_prerequisite}
use oox_kirkon_fork.Runtime.Store.{store, Store, Cmd, ◌>>=◌, ◌>>◌}
use oox_kirkon_fork.Runtime.Store.Vars.{allocate_new, bind_to, var_set_next_writer, k_max_port}
use oox_kirkon_fork.Runtime.Store.Execute.{
  allocate_if_empty, setup, new_task, write_nodes_count, lifetime_of, nothing, writes, run,
}
use oox_kirkon_fork.Runtime.Store.Execute.Lifecycle.{Ends, Leaves}
use oox_kirkon_fork.Runtime.Store.Execute.Steps.{
  Ends-bind, Ends-three, Ends-map, Ends-Leaves, Leaves-Ends, Leaves-bind, not_empty, slot, node,
}

-- Two variables `x` and `y` with values in `a` and `b`, and a task `t` that writes both.
unfoldable pub two_written : ℕ → ℕ → ℕ → ℕ → ℕ → ℕ → ℕ → Cmd (Unit {0})
unfolding run allocate_new
two_written f x a y b t r = do
  allocate_new x a
  allocate_new y b
  run f t r nothing (writes x a ∷ writes y b ∷ [])

abbrev pub At : Var → ℕ → ℕ → Type 0
At x t port =
    (x.current_task ≡ some t)
    × (x.current_port ≡ port)
    × (x.is_forwarded ≡ false)
    × (x.is_deferred ≡ false)

-- The first arguments that write are set up: the storage, which is done, is left to the new writer.
writer-set :
    (f v port t a : ℕ) (n n' : TaskNode) (s : Store)
    → (a == t) ≡ false
    → leb port k_max_port ≡ true
    → Start.remove_prerequisite n 1 ≡ some (n', Start.waiting)
    → s.task a ≡ some (node 2 task_done 0 (slot ready 1 ∷ []))
    → s.task t ≡ some n
    → At (s.var v) a 0
    → Ends (var_set_next_writer (suc (suc f)) v port t s) (λ s'.
      (s'.task t ≡ some n')
      × At (s'.var v) t port
      × ((u : ℕ) → (a == u) ≡ false → (t == u) ≡ false → s'.task u ≡ s.task u)
      × ((w : ℕ) → (v == w) ≡ false → s'.var w ≡ s.var w)
      × (s'.spawned ≡ s.spawned))
unfolding var_set_next_writer
writer-set f v port t a n n' s at' le dec ha ht hv = ground arith

module _ (f x a y b t r : ℕ) (ab : (a == b) ≡ false) (at' : (a == t) ≡ false)
    (bt : (b == t) ≡ false) (xy : (x == y) ≡ false) (xr : (x == r) ≡ false) (yr : (y == r) ≡ false)
    (z : Store) where
  abbrev Ready : Store → Type 0
  Ready s =
      (s.task a ≡ some (node 2 task_done 0 (slot ready 1 ∷ [])))
      × (s.task b ≡ some (node 2 task_done 0 (slot ready 1 ∷ [])))
      × At (s.var x) a 0
      × At (s.var y) b 0
      × (s.spawned ≡ z.spawned)

  abbrev fresh : ℕ → TaskNode
  fresh waits = node 0 (live []) waits (slot unknown 1 ∷ slot unknown 1 ∷ slot unknown 1 ∷ [])

  abbrev New : Store → Type 0
  New s = (s.task t ≡ some (fresh start_count_mask)) × Ready s

  abbrev FirstSet : Store → Type 0
  FirstSet s =
      (s.task t ≡ some (fresh (start_count_mask - 1)))
      × (s.task b ≡ some (node 2 task_done 0 (slot ready 1 ∷ [])))
      × At (s.var x) t 1
      × At (s.var y) b 0
      × (s.spawned ≡ z.spawned)

  abbrev BothSet : Store → Type 0
  BothSet s =
      (s.task t ≡ some (fresh (start_count_mask - 2)))
      × At (s.var x) t 1
      × At (s.var y) t 2
      × (s.spawned ≡ z.spawned)

  first_taken :
      Start.remove_prerequisite (fresh start_count_mask) 1
      ≡ some (fresh (start_count_mask - 1), Start.waiting)
  unfolding Start.remove_prerequisite
  first_taken = refl

  second_taken :
      Start.remove_prerequisite (fresh (start_count_mask - 1)) 1
      ≡ some (fresh (start_count_mask - 2), Start.waiting)
  unfolding Start.remove_prerequisite
  second_taken = refl

  first_set : (s : Store) → New s → Ends (var_set_next_writer (suc (suc f)) x 1 t s) FirstSet
  first_set s h =
      Ends-map _ FirstSet _
        (writer-set f x 1 t a (fresh start_count_mask) (fresh (start_count_mask - 1)) s at' refl
          first_taken h.1.0 h.0 h.1.2)
        (λ s' h'. ground (arith, h'.2 b, h'.3 y))

  second_set : (s : Store) → FirstSet s → Ends (var_set_next_writer (suc (suc f)) y 2 t s) BothSet
  second_set s h =
      Ends-map _ BothSet _
        (writer-set f y 2 t b (fresh (start_count_mask - 1)) (fresh (start_count_mask - 2)) s bt
          refl second_taken h.1 h.0 h.3)
        (λ s' h'. ground (arith, h'.3 x))

  rest_set :
      (s : Store) → FirstSet s → Leaves (setup (suc (suc f)) 2 t (writes y b ∷ []) s) 1 BothSet
  unfolding setup
  rest_set s h =
      Ends-Leaves FirstSet BothSet (allocate_if_empty y b) _ s 1
        (not_empty FirstSet s y b b h.3.0 h)
        (λ s' h'.
          Ends-Leaves BothSet BothSet (var_set_next_writer (suc (suc f)) y 2 t) _ s' 1
            (second_set s' h') (λ s'' h''. (refl, h'')))

  all_set :
      (s : Store)
      → New s
      → Leaves (setup (suc (suc f)) 1 t (writes x a ∷ writes y b ∷ []) s) 2 BothSet
  unfolding setup
  all_set s h =
      Ends-Leaves New BothSet (allocate_if_empty x a) _ s 2 (not_empty New s x a a h.1.2.0 h)
        (λ s' h'.
          Ends-Leaves FirstSet BothSet (var_set_next_writer (suc (suc f)) x 1 t) _ s' 2
            (first_set s' h')
            (λ s'' h''.
              Leaves-bind BothSet BothSet (setup (suc (suc f)) 2 t (writes y b ∷ [])) _ s'' 1 2
                (rest_set s'' h'') (λ s3 h3. (refl, h3))))

  abbrev pub Written : Store → Type 0
  Written s =
      (s.task t ≡ some (node 4 (live []) 0 (slot unknown 1 ∷ slot unknown 1 ∷ slot unknown 1 ∷ [])))
      × At (s.var x) t 1
      × At (s.var y) t 2
      × (s.spawned ≡ t ∷ z.spawned)

  published :
      (s : Store)
      → BothSet s
      → Ends
          ((bind_to r t false 4 false false
              >> remove_prerequisite (suc (suc f)) t (start_count_mask - 2))
            s)
          Written
  unfolding bind_to remove_prerequisite
  published s h = ground arith

  made : (s : Store) → Ready s → Ends (store t (new_task 3) s) New
  unfolding store
  made s h = ground arith

  abbrev publish : ℕ → Cmd (Unit {0})
  publish count = do
    bind_to r t false 4 false false
    remove_prerequisite (suc (suc f)) t (start_count_mask - count)

  abbrev set_up : Cmd ℕ
  set_up = setup (suc (suc f)) 1 t (writes x a ∷ writes y b ∷ [])

  written :
      (s : Store)
      → Ready s
      → Ends (run (suc (suc f)) t r nothing (writes x a ∷ writes y b ∷ []) s) Written
  unfolding run write_nodes_count lifetime_of
  written s h =
      Ends-bind New Written (store t (new_task 3)) (set_up >>= publish) s (made s h)
        (λ s' h'. Leaves-Ends BothSet Written set_up publish s' 2 (all_set s' h') published)

  abbrev One : Store → Type 0
  One s =
      (s.task a ≡ some (node 2 task_done 0 (slot ready 1 ∷ [])))
      × At (s.var x) a 0
      × (s.spawned ≡ z.spawned)

  one : Ends (allocate_new x a z) One
  unfolding allocate_new
  one = ground arith

  two : (s : Store) → One s → Ends (allocate_new y b s) Ready
  unfolding allocate_new
  two s h = ground arith

  pub two_written-Written : Ends (two_written (suc (suc f)) x a y b t r z) Written
  unfolding two_written
  two_written-Written =
      Ends-three One Ready Written (allocate_new x a) (allocate_new y b)
        (run (suc (suc f)) t r nothing (writes x a ∷ writes y b ∷ [])) z one two written

-- ===== src/Clients/Filesystem/Schedule.antt =====
-- The tasks of `Simple::disk_usage` in examples/filesystem.h against `Serial::disk_usage`.
use oox_kirkon_fork.Base.{
  ℕ, zero, suc, ◌+◌, ◌≤◌, ◌<◌, ◌≡◌, refl, ◌⊎◌, inl, inr, false, Option, none, some, Option-cases,
  Bool-cases, List, [], ◌∷◌, arith, length, get_elem?, ◌∙◌,
}
use oox_kirkon_fork.Clients.Dataflow.{Var, value, call, add, Step, Steps}
use oox_kirkon_fork.Clients.Dataflow.Schedule.{Plan, plan, plan_mono, Meets, every_schedule}
use oox_kirkon_fork.Clients.Filesystem.{
  is_file, add_size, sum_children, serial_disk_usage, add_children, simple_disk_usage,
}

-- The call itself is one more task.
abbrev counted : Option Plan → Option Plan
counted none = none
counted (some (a, n)) = some (a, suc n)

abbrev value_part : Option Plan → Option ℕ
value_part none = none
value_part (some (a, n)) = some a

module _ (tree : List ℕ) where
  -- What `fuel` levels of calls compute.
  unfoldable spec : (fuel : ℕ) → ℕ → Option Plan
  spec zero node = none
  spec (suc f) node = elim (simple_disk_usage tree node) [
    | none ↦ none
    | some v ↦ counted (plan add_size (spec f) v)
  ]

  spec_mono : (f node : ℕ) (p : Plan) → spec f node ≡ some p → spec (suc f) node ≡ some p
  unfolding spec
  spec_mono zero node p e = cc
  spec_mono (suc f) node p e = elim (Option-cases (simple_disk_usage tree node)) [
    | inl never ↦ ground arith
    | inr (v, found) ↦ elim (Option-cases (plan add_size (spec f) v)) [
      | inl never ↦ ground arith
      | inr (q, r) ↦ ground (arith, plan_mono add_size (spec f) (spec (suc f)) (spec_mono f) v q r)
    ]
  ]

  spec-Meets : (f : ℕ) → Meets add_size (spec f) (simple_disk_usage tree)
  unfolding spec
  spec-Meets zero node a c e = cc
  spec-Meets (suc f) node a c e = elim (Option-cases (simple_disk_usage tree node)) [
    | inl never ↦ absurd (ground arith)
    | inr (v, found) ↦ elim (Option-cases (plan add_size (spec f) v)) [
      | inl never ↦ absurd (ground arith)
      | inr ((b, n), r) ↦
          let same : b ≡ a = ground arith in
          let up = plan_mono add_size (spec f) (spec (suc f)) (spec_mono f) v (b, n) r in
          (v, n, found, rw same at up, ground arith)
    ]
  ]

  plan-add_children-none :
      (f r node : ℕ) (v : Var ℕ)
      → plan add_size (spec f) v ≡ none
      → plan add_size (spec f) (add_children r node v) ≡ none
  unfolding add_children
  plan-add_children-none f zero node v e = e
  plan-add_children-none f (suc r) node v e =
      plan-add_children-none f r (node + 1) (add v (call node)) (ground arith)

  plan-add_children :
      (f r node : ℕ) (v : Var ℕ) (s m : ℕ)
      → ((k : ℕ) → value_part (spec f k) ≡ serial_disk_usage f tree k)
      → plan add_size (spec f) v ≡ some (s, m)
      → value_part (plan add_size (spec f) (add_children r node v))
        ≡ sum_children (serial_disk_usage f tree) r node s
  unfolding add_children sum_children
  plan-add_children f zero node v s m ih e = ground arith
  plan-add_children f (suc r) node v s m ih e = elim (Option-cases (spec f node)) [
    | inl never ↦ ground (arith, ih node, plan-add_children-none f r (node + 1) (add v (call node)))
    | inr ((b, n), found) ↦ ground (
      arith,
      ih node,
      plan-add_children f r (node + 1) (add v (call node)) (add_size s b) (suc (m + n)) ih,
    )
  ]

  value_part-counted : (p : Option Plan) → value_part (counted p) ≡ value_part p
  value_part-counted none = refl
  value_part-counted (some p) = refl

  spec-serial : (f k : ℕ) → value_part (spec f k) ≡ serial_disk_usage f tree k
  unfolding spec serial_disk_usage simple_disk_usage
  spec-serial zero k = refl
  spec-serial (suc f) k = elim (Option-cases (get_elem? tree k)) [
    | inl outside ↦ ground arith
    | inr (v, found) ↦ elim (Bool-cases (is_file v)) [
      | inl file ↦ ground arith
      | inr folder ↦
          let inside = plan-add_children f v (k + 1) (value 0) 0 0 (spec-serial f) refl in
          let outer =
            value_part-counted (plan add_size (spec f) (add_children v (k + 1) (value 0))) in
          ground arith
    ]
  ]

  -- Every child of a directory lies in the array.
  abbrev pub IsTree : Type 0
  IsTree = (node v : ℕ) → get_elem? tree node ≡ some v → is_file v ≡ false → node + v < length tree

  sum_children_total :
      (usage : ℕ → Option ℕ) (r node s : ℕ)
      → ((k : ℕ) → node ≤ k → k < node + r → (a : ℕ) × (usage k ≡ some a))
      → (a : ℕ) × (sum_children usage r node s ≡ some a)
  unfolding sum_children
  sum_children_total usage zero node s h = (s, refl)
  sum_children_total usage (suc r) node s h =
      let (b, e) = h node (omega arith) (omega arith) in
      let (a, f) =
        sum_children_total usage r (node + 1) (add_size s b)
          (λ k lo hi. h k (omega arith) (omega arith)) in
      (a, ground arith)

  get_elem?_total : (xs : List ℕ) (i : ℕ) → i < length xs → (v : ℕ) × (get_elem? xs i ≡ some v)
  get_elem?_total [] i h = absurd (omega arith)
  get_elem?_total (x ∷ xs) zero h = (x, refl)
  get_elem?_total (x ∷ xs) (suc i) h = get_elem?_total xs i (omega arith)

  serial_total :
      IsTree
      → (f node : ℕ) → node < length tree
      → length tree ≤ node + f
      → (a : ℕ) × (serial_disk_usage f tree node ≡ some a)
  unfolding serial_disk_usage
  serial_total wf zero node lt le = absurd (omega arith)
  serial_total wf (suc f) node lt le =
      let (v, found) = get_elem?_total tree node lt in
      elim (Bool-cases (is_file v)) [
        | inl file ↦ (v, ground arith)
        | inr folder ↦
            let inside = wf node v found folder in
            let (a, e) =
              sum_children_total (serial_disk_usage f tree) v (node + 1) 0
                (λ k lo hi. serial_total wf f k (omega arith) (omega arith)) in
            (a, ground arith)
      ]

  some_plan : (p : Option Plan) (a : ℕ) → value_part p ≡ some a → (n : ℕ) × (p ≡ some (a, n))
  some_plan none a e = cc
  some_plan (some (b, n)) a e = (n, ground arith)

  -- Let every child of a directory lie in the array. Then `Serial::disk_usage` of a node returns,
  -- and for any schedule of the tasks that a call of `Simple::disk_usage` makes, after `j` of them:
  -- there are no more than a number `c`, and either the variable holds the serial usage, once `c`
  -- tasks are through, or a task is left that is ready.
  pub simple_schedules :
      (node : ℕ)
      → IsTree
      → node < length tree
      → (a c : ℕ) × (serial_disk_usage (length tree) tree node ≡ some a)
        × ((j : ℕ) (v : Var ℕ)
            → Steps (simple_disk_usage tree) add_size j (call node) v
            → (j ≤ c)
              × (((v ≡ value a) × (j ≡ c))
                  ⊎ ((j < c) × ((w : Var ℕ) × Step (simple_disk_usage tree) add_size v w))))
  simple_schedules node wf lt =
      let (a, e) = serial_total wf (length tree) node lt (omega arith) in
      let (c, p) = some_plan (spec (length tree) node) a (spec-serial (length tree) node ∙ e) in
      (
        a,
        c,
        e,
        λ j v r.
            every_schedule add_size (spec (length tree)) (simple_disk_usage tree)
              (spec-Meets (length tree)) (call node) v a c p r,
      )

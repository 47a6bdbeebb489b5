-- ===== src/Clients/Dataflow/Schedule.antt =====
-- Every schedule of a tree of tasks gives the same value, after the same number of tasks.
use oox_kirkon_fork.Base.{
  ℕ, suc, ◌+◌, ◌≤◌, ◌<◌, ◌≡◌, refl, ◌⊎◌, inl, inr, Option, none, some, arith,
}
use oox_kirkon_fork.Clients.Dataflow.{
  Var, value, call, add, Step, run_call, run_add, in_left, in_right, Steps, here, then_step,
}

-- A value, and the number of tasks that compute it.
abbrev pub Plan : Type 0
Plan = ℕ × ℕ

module _ (join : ℕ → ℕ → ℕ) where
  abbrev pub both : Option Plan → Option Plan → Option Plan
  both (some (a, m)) (some (b, n)) = some (join a b, suc (m + n))
  both _ _ = none

  both-some :
      (p q : Option Plan) (a c : ℕ)
      → both p q ≡ some (a, c)
      → (x y m n : ℕ) × (p ≡ some (x, m)) × (q ≡ some (y, n)) × (a ≡ join x y) × (c ≡ suc (m + n))
  both-some (some (x, m)) (some (y, n)) a c e = (x, y, m, n, refl, refl, ground arith, ground arith)
  both-some (some p) none a c e = cc
  both-some none q a c e = cc

module _ {K : Type 0} (join : ℕ → ℕ → ℕ) (spec : K → Option Plan) where
  -- What a tree computes, given what the calls in it do.
  abbrev pub plan : Var K → Option Plan
  plan (value a) = some (a, 0)
  plan (call k) = spec k
  plan (add l r) = both join (plan l) (plan r)

  -- What is known of the body of a call: it is the tree that the plan says, less the call itself.
  abbrev pub Meets : (K → Option (Var K)) → Type 0
  Meets body =
      (k : K) (a c : ℕ)
      → spec k ≡ some (a, c)
      → (v : Var K) × (n : ℕ) × (body k ≡ some v) × (plan v ≡ some (a, n)) × (c ≡ suc n)

  module _ (body : K → Option (Var K)) (meets : Meets body) where
    -- One task fewer, and the same value.
    Step-plan :
        {v w : Var K} (a c : ℕ)
        → Step body join v w
        → plan v ≡ some (a, c)
        → (n : ℕ) × (plan w ≡ some (a, n)) × (c ≡ suc n)
    Step-plan a c (run_call {k} {v} e) p =
        let (u, n, f, q, s) = meets k a c p in
        let same : v ≡ u = ground (arith, e, f) in (n, rw same q, s)
    Step-plan a c (run_add {a = x} {b = y}) p = (0, ground arith, ground arith)
    Step-plan a c (in_left {u} {v} {w} st) p =
        let (x, y, m, n, f, g, d, s) = both-some join (plan u) (plan w) a c p in
        let (m', q, r) = Step-plan x m st f in (suc (m' + n), rw (q, g, d) refl, omega arith)
    Step-plan a c (in_right {u} {v} {w} st) p =
        let (x, y, m, n, f, g, d, s) = both-some join (plan w) (plan u) a c p in
        let (n', q, r) = Step-plan y n st g in (suc (m + n'), rw (q, f, d) refl, omega arith)

    Steps-plan :
        {j : ℕ} {v w : Var K} (a c : ℕ)
        → Steps body join j v w
        → plan v ≡ some (a, c)
        → (n : ℕ) × (plan w ≡ some (a, n)) × (c ≡ j + n)
    Steps-plan a c here p = (c, p, omega arith)
    Steps-plan a c (then_step {n = i} r st) p =
        let (m, q, s) = Steps-plan a c r p in
        let (n, q', s') = Step-plan a m st q in (n, q', omega arith)

    -- A tree with a plan holds its value, or some task of it is ready.
    progress :
        (v : Var K) (a c : ℕ)
        → plan v ≡ some (a, c)
        → ((v ≡ value a) × (c ≡ 0)) ⊎ ((w : Var K) × Step body join v w)
    progress (value x) a c p =
        let same : x ≡ a = ground arith in
        let none_left : c ≡ 0 = ground arith in inl (rw same refl, none_left)
    progress (call k) a c p = let (u, n, f, q, s) = meets k a c p in inr (u, run_call f)
    progress (add l r) a c p =
        let (x, y, m, n, f, g, d, s) = both-some join (plan l) (plan r) a c p in
        elim (progress l x m f) [
          | inr (l', st) ↦ inr (add l' r, in_left st)
          | inl (el, zl) ↦ elim (progress r y n g) [
            | inr (r', st) ↦ inr (add l r', in_right st)
            | inl (er, zr) ↦ inr (value (join x y), rw (el, er) run_add)
          ]
        ]

    -- Wherever `j` tasks of a tree have been executed, no more than the plan has, either the tree
    -- holds its value, after exactly the tasks of the plan, or it has tasks left and one is ready.
    pub every_schedule :
        {j : ℕ} (v w : Var K) (a c : ℕ)
        → plan v ≡ some (a, c)
        → Steps body join j v w
        → (j ≤ c) × (((w ≡ value a) × (j ≡ c)) ⊎ ((j < c) × ((w' : Var K) × Step body join w w')))
    every_schedule {j} v w a c p r =
        let (n, q, s) = Steps-plan a c r p in
        elim (progress w a n q) [
          | inl (e, z) ↦ (omega arith, inl (e, omega arith))
          | inr (w', st) ↦
              let (n', q', s') = Step-plan a n st q in (omega arith, inr (omega arith, (w', st)))
        ]

-- Calls that do more than is known make no difference to a tree with a plan.
pub plan_mono :
    {K : Type 0} (join : ℕ → ℕ → ℕ) (spec spec' : K → Option Plan)
    → ((k : K) (p : Plan) → spec k ≡ some p → spec' k ≡ some p)
    → (v : Var K) (p : Plan) → plan join spec v ≡ some p
    → plan join spec' v ≡ some p
plan_mono join spec spec' more (value a) p e = e
plan_mono join spec spec' more (call k) p e = more k p e
plan_mono join spec spec' more (add l r) (a, c) e =
    let (x, y, m, n, f, g, d, s) = both-some join (plan join spec l) (plan join spec r) a c e in
    rw (plan_mono join spec spec' more l (x, m) f, plan_mono join spec spec' more r (y, n) g, d, s)
      refl

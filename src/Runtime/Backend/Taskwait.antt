-- ===== src/Runtime/Backend/Taskwait.antt =====
-- `spawn` and `wait` of the OpenMP backend of oox/oox.h: `spawn` makes a child of the task that runs,
-- and `wait` is a `taskwait`, which by the OpenMP standard waits for the children of the waiting task
-- and not for theirs.
use oox_kirkon_fork.Base.{
  ℕ, zero, suc, ◌+◌, ◌<◌, ◌≡◌, refl, ◌==◌, ltb, ◌&&◌, Bool, true, false, Option, none, some, List,
  [], ◌∷◌, if◌then◌else◌, arith,
}
use oox_kirkon_fork.Base.Family.{update}

-- Who has called `spawn` for a task: the thread that makes all tasks and waits, or the execution of
-- another task, in `notify_successors`.
pub data Parent : Type 0 where
  maker : Parent
  execution : (t : ℕ) → Parent

-- How many tasks have been made, who has spawned each, and which are through.
pub record System : Type 0 where
  pub made : ℕ
  pub parent : ℕ → Option Parent
  pub completed : ℕ → Bool

abbrev pub start : System
start = record { made = 0; parent = λ t. none; completed = λ t. false }

abbrev pub all_completed : (ℕ → Bool) → List ℕ → Bool
all_completed completed [] = true
all_completed completed (d ∷ ds) = completed d && all_completed completed ds

-- The task that is through spawns each task that it was the last prerequisite of.
abbrev pub spawn_ready : (ℕ → List ℕ) → System → ℕ → ℕ → Option Parent
spawn_ready prerequisites s t d = elim (s.parent d) [
  | some c ↦ some c
  | none ↦
      if ltb d s.made && all_completed (update s.completed t true) (prerequisites d)
      then some (execution t)
      else none
]

module _ (prerequisites : ℕ → List ℕ) where
  pub data Step (s : System) : System → Type 0 where
    -- `oox::run`, which spawns the task if it need not wait.
    make : Step s (record s {
      made = suc s.made;
      parent =
          update s.parent s.made
            (if all_completed s.completed (prerequisites s.made) then some maker else none);
    })
    execute :
        (t : ℕ) (c : Parent)
        → s.parent t ≡ some c
        → s.completed t ≡ false
        → Step s (record s {
          parent = spawn_ready prerequisites s t;
          completed = update s.completed t true;
        })

  pub data Reach : System → Type 0 where
    here : Reach start
    later : {s t : System} → Reach s → Step s t → Reach t

-- The thread's `taskwait` returns.
abbrev pub Returns : System → Type 0
Returns s = (t : ℕ) → s.parent t ≡ some maker → s.completed t ≡ true

-- Each task waits for the one before.
abbrev pub chain : ℕ → List ℕ
chain zero = []
chain (suc t) = t ∷ []

abbrev Inv : (ℕ → List ℕ) → System → ℕ → Type 0
Inv prerequisites s t =
    (t < s.made → prerequisites t ≡ [] → s.parent t ≡ some maker)
    × (s.made < suc t → s.parent t ≡ none)

Step-Inv :
    (prerequisites : ℕ → List ℕ) {s u : System}
    → Step prerequisites s u
    → ((t : ℕ) → Inv prerequisites s t)
    → (t : ℕ) → Inv prerequisites u t
Step-Inv prerequisites {s} make inv t = let a = inv t in ground arith
Step-Inv prerequisites {s} (execute d c e f) inv t = let a = inv t in let b = inv d in ground arith

Reach-Inv :
    (prerequisites : ℕ → List ℕ) {s : System}
    → Reach prerequisites s
    → (t : ℕ) → Inv prerequisites s t
Reach-Inv prerequisites here t = ground arith
Reach-Inv prerequisites (later r st) t = Step-Inv prerequisites st (Reach-Inv prerequisites r) t

-- The tasks of a chain can be made before the first is executed.
chain_made :
    (n : ℕ)
    → (s : System) × Reach chain s
      × (s.made ≡ n)
      × ((t : ℕ) → s.completed t ≡ false)
      × ((t : ℕ) → s.parent t ≡ (if t == 0 && ltb 0 n then some maker else none))
chain_made zero = (start, here, refl, λ t. refl, λ t. ground arith)
chain_made (suc n) =
    let (s, r, m, c, p) = chain_made n in (_, later r make, ground arith, c, λ t. next n s m c p t)
  where
    next :
        (n : ℕ) (s : System)
        → s.made ≡ n
        → ((t : ℕ) → s.completed t ≡ false)
        → ((t : ℕ) → s.parent t ≡ (if t == 0 && ltb 0 n then some maker else none))
        → (t : ℕ)
        → update s.parent s.made
            (if all_completed s.completed (chain s.made) then some maker else none)
            t
          ≡ (if t == 0 && ltb 0 (suc n) then some maker else none)
    next zero s m c p t = rw m (ground (arith, p t))
    next (suc k) s m c p t = rw m (ground (arith, p t, c k))

-- Let a thread make a chain of `n + 2` tasks, each of which waits for the one before. In every state in
-- which its `taskwait` can return, the first task is through; but there is one in which no other is.
pub only_first_waited_for :
    (n : ℕ) {u : System}
    → Reach chain u
    → u.made ≡ n + 2
    → Returns u
    → (u.completed 0 ≡ true)
      × ((s : System) × Reach chain s
          × (s.made ≡ n + 2)
          × Returns s
          × ((t : ℕ) → s.completed t ≡ (t == 0)))
only_first_waited_for n {u} reach e w =
    let (s, r, m, c, p) = chain_made (n + 2) in
    let first : s.parent 0 ≡ some maker = ground (arith, p 0) in
    (
      w 0 ((Reach-Inv chain reach 0).0 (omega (arith, e)) refl),
      (
        _,
        later r (execute 0 maker first (c 0)),
        m,
        λ t q. ground (arith, p t, c t),
        λ t. ground (arith, c t),
      ),
    )

-- ===== src/Runtime/Backend/Condition.antt =====
-- `wait` and `wakeup` of the Twist backend of oox/oox.h. `wait` takes the mutex and sleeps on the
-- condition variable until `completed`; `wakeup` sets it under the mutex and then notifies all. There,
-- both are stand-ins for those of the C++ standard, and the steps are those that the standard allows.
use oox_kirkon_fork.Base.{ℕ, ◌≡◌, refl, ◌≢◌, Bool, true, false, arith}
use oox_kirkon_fork.Base.Family.{update}

-- Who has the mutex.
pub data Lock : Type 0 where
  free by_waker : Lock
  by_waiter : (k : ℕ) → Lock

-- Where a thread stands in `wait`.
pub data Waiter : Type 0 where
  outside : Waiter
  wanting : Waiter  -- it needs the mutex
  checking : Waiter  -- it has the mutex and looks at `completed`
  sleeping : Waiter  -- in the condition variable, without the mutex
  returned : Waiter

-- Where the thread stands that executes the task and calls `wakeup`.
pub data Waker : Type 0 where
  running setting notifying finished : Waker

pub record System : Type 0 where
  pub completed : Bool
  pub lock : Lock
  pub waiter : ℕ → Waiter
  pub waker : Waker

abbrev pub start : System
start = record { completed = false; lock = free; waiter = λ k. outside; waker = running }

-- `notify_all`: a thread that sleeps goes on to take the mutex.
abbrev pub wake : Waiter → Waiter
wake sleeping = wanting
wake w = w

pub data Step (s : System) : System → Type 0 where
  enter : (k : ℕ) → s.waiter k ≡ outside → Step s (record s { waiter = update s.waiter k wanting })
  take :
      (k : ℕ)
      → s.waiter k ≡ wanting
      → s.lock ≡ free
      → Step s (record s { lock = by_waiter k; waiter = update s.waiter k checking })
  leave :
      (k : ℕ)
      → s.waiter k ≡ checking
      → s.completed ≡ true
      → Step s (record s { lock = free; waiter = update s.waiter k returned })
  sleep :
      (k : ℕ)
      → s.waiter k ≡ checking
      → s.completed ≡ false
      → Step s (record s { lock = free; waiter = update s.waiter k sleeping })
  -- A condition variable may wake up without a reason.
  spurious :
      (k : ℕ) → s.waiter k ≡ sleeping → Step s (record s { waiter = update s.waiter k wanting })
  take_to_set :
      s.waker ≡ running → s.lock ≡ free → Step s (record s { lock = by_waker; waker = setting })
  set : s.waker ≡ setting → Step s (record s { completed = true; lock = free; waker = notifying })
  notify_all :
      s.waker ≡ notifying → Step s (record s { waiter = λ k. wake (s.waiter k); waker = finished })

pub data Run (s : System) : System → Type 0 where
  here : Run s s
  later : {t u : System} → Run s t → Step t u → Run s u

abbrev has_set : Waker → Bool
has_set notifying = true
has_set finished = true
has_set _ = false

-- What holds of the system as the waiter `k` sees it.
abbrev Inv : System → ℕ → Type 0
Inv s k =
    (s.waiter k ≡ checking → s.lock ≡ by_waiter k)
    × (s.lock ≡ by_waiter k → s.waiter k ≡ checking)
    × (s.lock ≡ by_waker → s.waker ≡ setting)
    × (s.waker ≡ setting → s.lock ≡ by_waker)
    × (s.completed ≡ has_set s.waker)
    × (s.waker ≡ finished → s.waiter k ≢ sleeping)
    × (s.waiter k ≡ returned → s.completed ≡ true)

Step-Inv : {s t : System} → Step s t → ((k : ℕ) → Inv s k) → (k : ℕ) → Inv t k
Step-Inv (enter j e) inv k = let a = inv k in let b = inv j in ground arith
Step-Inv (take j e f) inv k = let a = inv k in let b = inv j in ground arith
Step-Inv (leave j e f) inv k = let a = inv k in let b = inv j in ground arith
Step-Inv (sleep j e f) inv k = let a = inv k in let b = inv j in ground arith
Step-Inv (spurious j e) inv k = let a = inv k in let b = inv j in ground arith
Step-Inv (take_to_set e f) inv k = let a = inv k in ground arith
Step-Inv (set e) inv k = let a = inv k in ground arith
Step-Inv (notify_all e) inv k = let a = inv k in ground arith

Run-Inv : {s t : System} → Run s t → ((k : ℕ) → Inv s k) → (k : ℕ) → Inv t k
Run-Inv here inv = inv
Run-Inv (later p st) inv = Step-Inv st (Run-Inv p inv)

Inv-start : (k : ℕ) → Inv start k
Inv-start k = ground arith

run_append : {s t u : System} → Run s t → Run t u → Run s u
run_append p here = p
run_append p (later q st) = later (run_append p q) st

-- The thread that executes the task gets through `wakeup`, once it has the mutex if it needs it.
waker_finishes : {s : System} → ((k : ℕ) → Inv s k) → (t : System) × Run s t × (t.waker ≡ finished)
waker_finishes {s} inv = from s.waker refl
  where
    from_free :
        (t : System)
        → Run s t
        → t.waker ≡ running
        → t.lock ≡ free
        → (u : System) × Run s u × (u.waker ≡ finished)
    from_free t p w l =
        (_, later (later (later p (take_to_set w l)) (set refl)) (notify_all refl), refl)

    from_running :
        (l : Lock) → s.lock ≡ l → s.waker ≡ running → (u : System) × Run s u × (u.waker ≡ finished)
    from_running free e w = from_free s here w e
    from_running by_waker e w = let a = inv 0 in absurd (ground arith)
    from_running (by_waiter j) e w =
        let a = inv j in from_free _ (later here (sleep j (ground arith) (ground arith))) w refl

    from : (w : Waker) → s.waker ≡ w → (t : System) × Run s t × (t.waker ≡ finished)
    from running e = from_running s.lock refl e
    from setting e = (_, later (later here (set e)) (notify_all refl), refl)
    from notifying e = (_, later here (notify_all e), refl)
    from finished e = (s, here, e)

-- Behind `wakeup`, the mutex becomes free.
lock_frees :
    {s : System}
    → ((k : ℕ) → Inv s k)
    → s.waker ≡ finished
    → (t : System) × Run s t × (t.waker ≡ finished) × (t.lock ≡ free)
lock_frees {s} inv w = from s.lock refl
  where
    from : (l : Lock) → s.lock ≡ l → (t : System) × Run s t × (t.waker ≡ finished) × (t.lock ≡ free)
    from free e = (s, here, w, e)
    from by_waker e = let a = inv 0 in absurd (ground arith)
    from (by_waiter j) e =
        let a = inv j in (_, later here (leave j (ground arith) (ground arith)), w, refl)

waiter_returns :
    {s : System} (k : ℕ)
    → ((j : ℕ) → Inv s j)
    → s.waker ≡ finished
    → s.lock ≡ free
    → (t : System) × Run s t × (t.waiter k ≡ returned)
waiter_returns {s} k inv w l = let a = inv k in from (s.waiter k) refl
  where
    take_and_leave :
        (t : System)
        → Run s t
        → t.waiter k ≡ wanting
        → t.lock ≡ free
        → t.completed ≡ true
        → (u : System) × Run s u × (u.waiter k ≡ returned)
    take_and_leave t p e f c =
        (_, later (later p (take k e f)) (leave k (ground arith) c), ground arith)

    from : (x : Waiter) → s.waiter k ≡ x → (t : System) × Run s t × (t.waiter k ≡ returned)
    from outside e =
        let a = inv k in take_and_leave _ (later here (enter k e)) (ground arith) l (ground arith)
    from wanting e = let a = inv k in take_and_leave s here e l (ground arith)
    from checking e = let a = inv k in absurd (ground arith)
    from sleeping e = let a = inv k in absurd (ground arith)
    from returned e = (s, here, e)

-- In every state that threads in `wait` and the thread in `wakeup` reach, with any wake-ups without a
-- reason: no thread has returned from `wait` before the task is completed, no thread sleeps once
-- `wakeup` has returned, and every thread can still get through `wait`.
pub no_lost_wakeup :
    {s : System}
    → Run start s
    → ((k : ℕ) → s.waiter k ≡ returned → s.completed ≡ true)
      × (s.waker ≡ finished → (k : ℕ) → s.waiter k ≢ sleeping)
      × ((k : ℕ) → (t : System) × Run s t × (t.waiter k ≡ returned))
no_lost_wakeup {s} p =
    let inv = Run-Inv p Inv-start in
    (
      λ k e. let a = inv k in ground arith,
      λ w k. let a = inv k in ground arith,
      λ k.
          let (t, q, w) = waker_finishes inv in
          let (u, r, w', f) = lock_frees (Run-Inv q inv) w in
          let (v, o, e) = waiter_returns k (Run-Inv r (Run-Inv q inv)) w' f in
          (v, run_append q (run_append r o), e),
    )

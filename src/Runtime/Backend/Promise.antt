-- ===== src/Runtime/Backend/Promise.antt =====
-- `wait` and `wakeup` of the plain and of the Taskflow backend of oox/oox.h, which both keep a promise
-- in the task. The plain one takes the future of the promise in each `wait`; Taskflow takes it once,
-- shares it, and sets the promise behind a once-flag.
use oox_kirkon_fork.Base.{
  ◌≡◌, ◌≢◌, refl, Bool, true, false, if◌then◌else◌, ◌||◌, List, [], ◌∷◌, arith,
}

pub data Call : Type 0 where
  wait wakeup : Call

-- A call that blocks returns once the promise is set. An exception leaves the promise as it is.
pub data Answer : Type 0 where
  returns blocks throws : Answer

-- `std::promise<void>`: whether its future has been taken, and whether it has been set.
pub record Promise : Type 0 where
  pub retrieved : Bool
  pub satisfied : Bool

-- A promise gives its future once, and takes a value once.
abbrev pub get_future : Promise → Answer × Promise
get_future p = if p.retrieved then (throws, p) else (returns, record p { retrieved = true })

abbrev pub set_value : Promise → Answer × Promise
set_value p = if p.satisfied then (throws, p) else (returns, record p { satisfied = true })

-- The wait on a future of the promise.
abbrev pub await : Promise → Answer
await p = if p.satisfied then returns else blocks

-- `waiter.get_future ().wait ()`
unfoldable pub std_wait : Promise → Answer × Promise
std_wait p = if p.retrieved then get_future p else (await (get_future p).1, (get_future p).1)

unfoldable pub std_wakeup : Promise → Answer × Promise
std_wakeup p = set_value p

-- The promise and the once-flag of the Taskflow backend.
pub record Shared : Type 0 where
  pub promise : Promise
  pub called : Bool

unfoldable pub shared_wait : Shared → Answer × Shared
shared_wait s = (await s.promise, s)

-- `call_once` sets the flag if the function returns.
unfoldable pub shared_wakeup : Shared → Answer × Shared
shared_wakeup s =
    if s.called
    then (returns, s)
    else ((set_value s.promise).0, record { promise = (set_value s.promise).1; called = true })

abbrev pub std_call : Call → Promise → Answer × Promise
std_call wait p = std_wait p
std_call wakeup p = std_wakeup p

abbrev pub shared_call : Call → Shared → Answer × Shared
shared_call wait s = shared_wait s
shared_call wakeup s = shared_wakeup s

-- A new task after the calls of a history, the last call first.
unfoldable pub std_after : List Call → Promise
std_after [] = record { retrieved = false; satisfied = false }
std_after (c ∷ h) = (std_call c (std_after h)).1

unfoldable pub shared_after : List Call → Shared
shared_after [] = record {
  promise = record { retrieved = true; satisfied = false };
  called = false;
}
shared_after (c ∷ h) = (shared_call c (shared_after h)).1

abbrev same : Call → Call → Bool
same wait wait = true
same wakeup wakeup = true
same _ _ = false

abbrev pub was_called : Call → List Call → Bool
was_called c [] = false
was_called c (d ∷ h) = same c d || was_called c h

abbrev Recorded : List Call → Type 0
Recorded h =
    ((std_after h).retrieved ≡ was_called wait h)
    × ((std_after h).satisfied ≡ was_called wakeup h)
    × ((shared_after h).promise.satisfied ≡ was_called wakeup h)
    × ((shared_after h).called ≡ was_called wakeup h)

all-Recorded : (h : List Call) → Recorded h
unfolding std_after shared_after std_wait std_wakeup shared_wait shared_wakeup
all-Recorded [] = (refl, refl, refl, refl)
all-Recorded (wait ∷ h) = let ih = all-Recorded h in ground arith
all-Recorded (wakeup ∷ h) = let ih = all-Recorded h in ground arith

-- After any calls on a task: no call throws on the Taskflow backend, where a wait blocks exactly until
-- there was a wakeup; the plain backend answers a call as the Taskflow one does if it is the first of
-- its kind, and throws otherwise, so that a task can be waited for only once.
pub promise_calls :
    (h : List Call) (c : Call)
    → ((shared_call c (shared_after h)).0 ≢ throws)
      × ((shared_call wait (shared_after h)).0 ≡ (if was_called wakeup h then returns else blocks))
      × ((std_call c (std_after h)).0
          ≡ (if was_called c h then throws else (shared_call c (shared_after h)).0))
unfolding std_wait std_wakeup shared_wait shared_wakeup
promise_calls h wait = let ih = all-Recorded h in ground arith
promise_calls h wakeup = let ih = all-Recorded h in ground arith

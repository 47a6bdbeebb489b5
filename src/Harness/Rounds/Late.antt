-- ===== src/Harness/Rounds/Late.antt =====
-- A thread that arrives during a call of `spread_work` of benchmarks/rapid_start.h.
use oox_kirkon_fork.Base.{ℕ, suc, ◌≡◌, ◌≢◌, refl, ◌==◌, ◌||◌, true, false, arith}
use oox_kirkon_fork.Base.Family.{update}
use oox_kirkon_fork.Harness.Rounds.{
  outside, entered, epoch_loaded, waiting, spread, own_done, System, is_idle, Step, clear, set_func,
  publish, take_snapshot, reset_finish, spread_out, run_own, return, run_part, finish, notice,
  read_epoch, see_mask, read_hit, read_miss, Arrival, enter, load_epoch, load_hit, load_miss,
  AnyRun, start, step, arrive,
}

module _ (s : System) (i : ℕ) (free : is_idle s.master ≡ true) (out : s.trapper i ≡ outside) where
  -- Its bit is set, and it has loaded the epoch.
  abbrev ahead : System
  ahead = record s {
    start_mask = update s.start_mask i true;
    trapper = update (update s.trapper i entered) i epoch_loaded;
    e = update s.e i s.epoch;
  }

  ahead-run : AnyRun s ahead
  ahead-run = arrive (arrive start (enter i out)) (load_epoch i (ground arith))

  -- The call goes on until the mask is there.
  abbrev opened : System → System
  opened t = record t {
    run_mask = λ k. k == 0 || t.start_mask k;
    mask_snapshot = t.start_mask;
    finish_mask = λ k. false;
    epoch = suc t.epoch;
    runs = λ k. 0;
    master = spread;
  }

  opened-run : (t : System) → AnyRun s t → is_idle t.master ≡ true → AnyRun s (opened t)
  opened-run t p h =
      let first : Step t _ = clear h in
      let called = step (step p first) (set_func refl) in
      let read = step (step called (publish refl)) (take_snapshot refl) in
      step (step read (reset_finish refl)) (spread_out refl)

  -- A thread that has loaded the epoch before the call, and the mask of it.
  runs_twice :
      (t : System)
      → AnyRun s t
      → t.trapper i ≡ epoch_loaded
      → t.run_mask i ≡ true
      → t.run_mask 0 ≡ true
      → t.runs i ≡ 0
      → t.epoch ≢ t.e i
      → (u : System) × AnyRun s u × (u.master ≡ t.master) × (u.runs i ≡ 2)
  runs_twice t p at set zeroth none other =
      let once =
        step (step (arrive p (load_hit i at set)) (run_part i (ground arith)))
          (finish i (ground arith)) in
      let again = step (step once (notice i (ground arith) other)) (read_epoch i (ground arith)) in
      let seen =
        step (step again (see_mask i 0 (ground arith) zeroth)) (read_hit i (ground arith) set) in
      (_, step seen (run_part i (ground arith)), refl, ground arith)

  twice : (u : System) × AnyRun s u × (u.master ≡ spread) × (u.runs i ≡ 2)
  twice =
      runs_twice (opened ahead) (opened-run ahead ahead-run free) (ground arith) (ground arith) refl
        refl (ground arith)

-- The call spins for the bit of a thread that knows the epoch of the call and spins for the next one.
abbrev Stuck : ℕ → System → Type 0
Stuck i s =
    (s.master ≡ own_done)
    × (s.mask_snapshot i ≡ true)
    × (s.finish_mask i ≡ false)
    × (s.trapper i ≡ waiting)
    × (s.e i ≡ s.epoch)

Step-Stuck : (i : ℕ) {s t : System} → Step s t → Stuck i s → Stuck i t
Step-Stuck i (clear h) a = absurd (ground arith)
Step-Stuck i (set_func h) a = absurd (ground arith)
Step-Stuck i (publish h) a = absurd (ground arith)
Step-Stuck i (take_snapshot h) a = absurd (ground arith)
Step-Stuck i (reset_finish h) a = absurd (ground arith)
Step-Stuck i (spread_out h) a = absurd (ground arith)
Step-Stuck i (run_own h) a = absurd (ground arith)
Step-Stuck i (return h f) a = let b = f i in absurd (ground arith)
Step-Stuck i (run_part j h) a = ground arith
Step-Stuck i (finish j h) a = ground arith
Step-Stuck i (notice j h g) a = ground arith
Step-Stuck i (read_epoch j h) a = ground arith
Step-Stuck i (see_mask j k h g) a = ground arith
Step-Stuck i (read_hit j h g) a = ground arith
Step-Stuck i (read_miss j h g) a = ground arith

Arrival-Stuck : (i : ℕ) {s t : System} → Arrival s t → Stuck i s → Stuck i t
Arrival-Stuck i (enter j h) a = ground arith
Arrival-Stuck i (load_epoch j h) a = ground arith
Arrival-Stuck i (load_hit j h g) a = ground arith
Arrival-Stuck i (load_miss j h g) a = ground arith

AnyRun-Stuck : (i : ℕ) {s t : System} → AnyRun s t → Stuck i s → Stuck i t
AnyRun-Stuck i start a = a
AnyRun-Stuck i (step p q) a = Step-Stuck i q (AnyRun-Stuck i p a)
AnyRun-Stuck i (arrive p q) a = Arrival-Stuck i q (AnyRun-Stuck i p a)

-- The thread arrives when the new epoch is there and the mask is not.
stuck :
    (s : System) (i : ℕ)
    → is_idle s.master ≡ true
    → s.trapper i ≡ outside
    → (t : System) × AnyRun s t × Stuck i t
stuck s i free out =
    let called = step (step (step start (clear free)) (set_func refl)) (publish refl) in
    let known = arrive (arrive called (enter i out)) (load_epoch i (ground arith)) in
    let missed = arrive known (load_miss i (ground arith) refl) in
    let sent =
      step (step (step missed (take_snapshot refl)) (reset_finish refl)) (spread_out refl) in
    (_, step sent (run_own refl), (refl, ground arith, refl, ground arith, ground arith))

-- Let no call of `spread_work` be under way, and the thread of slot `i` not have begun. Then it can
-- arrive so that it runs its part twice in the next call, and so that the next call never returns,
-- whatever the threads do from then on.
pub late_thread :
    (s : System) (i : ℕ)
    → is_idle s.master ≡ true
    → s.trapper i ≡ outside
    → ((u : System) × AnyRun s u × (u.master ≡ spread) × (u.runs i ≡ 2))
      × ((t : System) × AnyRun s t × ((u : System) → AnyRun t u → u.master ≡ own_done))
late_thread s i free out =
    let (t, p, a) = stuck s i free out in
    (twice s i free out, (t, p, λ u q. (AnyRun-Stuck i q a).0))

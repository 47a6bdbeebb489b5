-- ===== src/Harness/Rounds/Joined.antt =====
-- The calls of `spread_work` of benchmarks/rapid_start.h when all threads have arrived.
use oox_kirkon_fork.Base.{
  ℕ, suc, ◌≡◌, ◌≢◌, refl, ◌==◌, ◌||◌, Bool, true, false, arith, if◌then◌else◌,
}
use oox_kirkon_fork.Base.Family.{update}
use oox_kirkon_fork.Harness.Rounds.{
  Trapper, outside, entered, epoch_loaded, hit, executed, waiting, changed, epoch_read, mask_seen,
  Master, ready, cleared, prepared, published, snapshot_taken, finish_reset, spread, own_done,
  returned, System, is_idle, Step, clear, set_func, publish, take_snapshot, reset_finish,
  spread_out, run_own, return, run_part, finish, notice, read_epoch, see_mask, read_hit, read_miss,
  Run, here, later,
}

abbrev is_before : Master → Bool
is_before ready = true
is_before returned = true
is_before cleared = true
is_before prepared = true
is_before _ = false

abbrev is_opening : Master → Bool
is_opening published = true
is_opening snapshot_taken = true
is_opening finish_reset = true
is_opening _ = false

abbrev pub is_open : Master → Bool
is_open spread = true
is_open own_done = true
is_open _ = false

abbrev in_loop : Trapper → Bool
in_loop outside = false
in_loop entered = false
in_loop epoch_loaded = false
in_loop _ = true

abbrev has_snapshot : Master → Bool
has_snapshot snapshot_taken = true
has_snapshot finish_reset = true
has_snapshot m = is_open m

-- A thread before its part: the epoch that it knows is the one before, or that of the call.
abbrev Early : System → ℕ → Type 0
Early s i =
    (in_loop (s.trapper i) ≡ true)
    × (s.trapper i ≡ waiting → suc (s.e i) ≡ s.epoch)
    × (s.trapper i ≡ epoch_read → s.e i ≡ s.epoch)
    × (s.trapper i ≢ mask_seen)
    × (s.trapper i ≢ hit)
    × (s.trapper i ≢ executed)
    × (s.runs i ≡ 0)

-- A thread in the call, before its part, at it, or behind it.
abbrev Busy : System → ℕ → Type 0
Busy s i =
    (in_loop (s.trapper i) ≡ true)
    × (s.trapper i ≢ waiting → s.finish_mask i ≡ false)
    × (s.trapper i ≡ executed → (s.runs i ≡ 1) × (s.e i ≡ s.epoch))
    × (s.trapper i ≡ hit → (s.runs i ≡ 0) × (s.e i ≡ s.epoch))
    × (s.trapper i ≡ mask_seen → (s.runs i ≡ 0) × (s.e i ≡ s.epoch))
    × (s.trapper i ≡ epoch_read → (s.runs i ≡ 0) × (s.e i ≡ s.epoch))
    × (s.trapper i ≡ changed → s.runs i ≡ 0)
    × (s.trapper i ≡ waiting → s.finish_mask i ≡ false → (s.runs i ≡ 0) × (suc (s.e i) ≡ s.epoch))
    × (s.trapper i ≡ waiting → s.finish_mask i ≡ true → (s.runs i ≡ 1) × (s.e i ≡ s.epoch))

-- What the thread of slot `i`, in `start_mask`, finds.
abbrev Member : System → ℕ → Type 0
Member s i =
    (is_before s.master ≡ true → (s.trapper i ≡ waiting) × (s.e i ≡ s.epoch))
    × (is_opening s.master ≡ true → Early s i)
    × (is_open s.master ≡ true → Busy s i)
    × (s.master ≡ returned → s.runs i ≡ 1)

abbrev Absent : System → ℕ → Type 0
Absent s i =
    (s.trapper i ≡ outside)
    × (is_idle s.master ≡ false → s.master ≢ cleared → s.runs i ≡ 0)
    × (s.master ≡ returned → s.runs i ≡ 0)

abbrev Words : System → ℕ → Type 0
Words s i =
    (s.master ≡ prepared → s.runs i ≡ 0)
    × (is_idle s.master ≡ false → is_open s.master ≡ false → s.run_mask i ≡ false)
    × (is_open s.master ≡ true → s.run_mask i ≡ (i == 0 || s.start_mask i))
    × (has_snapshot s.master ≡ true → s.mask_snapshot i ≡ s.start_mask i)
    × (s.master ≡ finish_reset → s.finish_mask i ≡ false)

abbrev Inv : System → ℕ → Type 0
Inv s i = (s.start_mask i ≡ true → Member s i) × (s.start_mask i ≡ false → Absent s i) × Words s i

Step-Inv : {s t : System} → Step s t → ((i : ℕ) → Inv s i) → (i : ℕ) → Inv t i
Step-Inv (clear h) inv i = let a = inv i in ground arith
Step-Inv (set_func h) inv i = let a = inv i in ground arith
Step-Inv (publish h) inv i = let a = inv i in ground arith
Step-Inv (take_snapshot h) inv i = let a = inv i in ground arith
Step-Inv (reset_finish h) inv i = let a = inv i in ground arith
Step-Inv (spread_out h) inv i = let a = inv i in ground arith
Step-Inv (run_own h) inv i = let a = inv i in ground arith
Step-Inv (return h f) inv i = let a = inv i in let b = f i in ground arith
Step-Inv (run_part j h) inv i = let a = inv i in let b = inv j in ground arith
Step-Inv (finish j h) inv i = let a = inv i in let b = inv j in ground arith
Step-Inv (notice j h g) inv i = let a = inv i in let b = inv j in ground arith
Step-Inv (read_epoch j h) inv i = let a = inv i in let b = inv j in ground arith
Step-Inv (see_mask j k h g) inv i = let a = inv i in let b = inv j in let c = inv k in ground arith
Step-Inv (read_hit j h g) inv i = let a = inv i in let b = inv j in ground arith
Step-Inv (read_miss j h g) inv i = let a = inv i in let b = inv j in ground arith

-- A thread about to call `run` has read the mask that is there.
abbrev Reads : System → ℕ → ℕ → Type 0
Reads s i k = s.trapper i ≡ hit → s.r i k ≡ s.run_mask k

Step-Reads :
    {s t : System}
    → Step s t
    → ((i : ℕ) → Inv s i)
    → ((i k : ℕ) → Reads s i k)
    → (i k : ℕ) → Reads t i k
Step-Reads (clear h) inv reads i k = let a = inv i in let b = reads i k in ground arith
Step-Reads (set_func h) inv reads i k = reads i k
Step-Reads (publish h) inv reads i k = reads i k
Step-Reads (take_snapshot h) inv reads i k = reads i k
Step-Reads (reset_finish h) inv reads i k = reads i k
Step-Reads (spread_out h) inv reads i k = let a = inv i in let b = reads i k in ground arith
Step-Reads (run_own h) inv reads i k = reads i k
Step-Reads (return h f) inv reads i k = reads i k
Step-Reads (run_part j h) inv reads i k = let b = reads i k in ground arith
Step-Reads (finish j h) inv reads i k = let b = reads i k in ground arith
Step-Reads (notice j h g) inv reads i k = let b = reads i k in ground arith
Step-Reads (read_epoch j h) inv reads i k = let b = reads i k in ground arith
Step-Reads (see_mask j l h g) inv reads i k = let b = reads i k in ground arith
Step-Reads (read_hit j h g) inv reads i k = let b = reads i k in ground arith
Step-Reads (read_miss j h g) inv reads i k = let b = reads i k in ground arith

-- No call has been made, and every thread whose bit is set spins on the epoch that is there.
abbrev pub Arrived : System → Type 0
Arrived s =
    (s.master ≡ ready)
    × ((i : ℕ) → s.start_mask i ≡ true → (s.trapper i ≡ waiting) × (s.e i ≡ s.epoch))
    × ((i : ℕ) → s.start_mask i ≡ false → s.trapper i ≡ outside)

Arrived-Inv : (s : System) → Arrived s → (i : ℕ) → Inv s i
Arrived-Inv s (m, a, b) i = let c = a i in let d = b i in ground arith

Run-Inv : {s t : System} → Run s t → Arrived s → ((i : ℕ) → Inv t i) × ((i k : ℕ) → Reads t i k)
Run-Inv {s} here a =
    (Arrived-Inv s a, λ i k. let inv = Arrived-Inv s a i in let m = a.0 in ground arith)
Run-Inv (later p step) a =
    let (inv, reads) = Run-Inv p a in (Step-Inv step inv, Step-Reads step inv reads)

-- The thread of slot `i` can make a step.
abbrev pub CanGoOn : System → ℕ → Type 0
CanGoOn s i = (t : System) × Step s t × (t.trapper i ≢ s.trapper i)

moved : (f : ℕ → Trapper) (i : ℕ) (a b : Trapper) → f i ≡ a → b ≢ a → update f i b i ≢ f i
moved f i a b h ne = ground arith

-- A thread of the mask that has not finished can go on, wherever it stands.
module _ (s : System) (i : ℕ) (inv : Inv s i) (first : Inv s 0) (o : is_open s.master ≡ true)
    (j : s.start_mask i ≡ true) (f : s.finish_mask i ≡ false) where
  can_go_on : (x : Trapper) → s.trapper i ≡ x → CanGoOn s i
  can_go_on outside h = absurd (ground arith)
  can_go_on entered h = absurd (ground arith)
  can_go_on epoch_loaded h = absurd (ground arith)
  can_go_on hit h = (_, run_part i h, moved s.trapper i hit executed h (λ e. cc))
  can_go_on executed h = (_, finish i h, moved s.trapper i executed waiting h (λ e. cc))
  can_go_on waiting h =
      let other : s.epoch ≢ s.e i = ground arith in
      (_, notice i h other, moved s.trapper i waiting changed h (λ e. cc))
  can_go_on changed h = (_, read_epoch i h, moved s.trapper i changed epoch_read h (λ e. cc))
  can_go_on epoch_read h =
      let set : s.run_mask 0 ≡ true = ground arith in
      (_, see_mask i 0 h set, moved s.trapper i epoch_read mask_seen h (λ e. cc))
  can_go_on mask_seen h =
      let set : s.run_mask i ≡ true = ground arith in
      (_, read_hit i h set, moved s.trapper i mask_seen hit h (λ e. cc))

-- Let no call of `spread_work` have been made, all threads whose bits are in `start_mask` have arrived,
-- and no other have begun. In every state that the calls lead to, one after the other and in any
-- interleaving with the threads: when a call has returned, each of these threads has run its part once,
-- and no other has; a thread about to run its part has not run it in this call, it holds the mask of all
-- of them with bit 0, and the call has not returned; and as long as the bit of one of them is missing in
-- `finish_mask` once `run_mask` is there, that thread can go on.
pub each_part_once :
    {s t : System}
    → Run s t
    → Arrived s
    → (t.master ≡ returned → (i : ℕ) → t.runs i ≡ (if t.start_mask i then 1 else 0))
      × ((i : ℕ)
          → t.trapper i ≡ hit
          → (is_open t.master ≡ true)
            × (t.runs i ≡ 0)
            × ((k : ℕ) → t.r i k ≡ (k == 0 || t.start_mask k)))
      × ((i : ℕ)
          → is_open t.master ≡ true
          → t.start_mask i ≡ true
          → t.finish_mask i ≡ false
          → CanGoOn t i)
each_part_once {s} {t} p a =
    let (inv, reads) = Run-Inv p a in
    (
      λ m i. let b = inv i in ground arith,
      λ i h.
          let b = inv i in
          (ground arith, ground arith, λ k. let c = inv k in let d = reads i k in ground arith),
      λ i o j f. can_go_on t i (inv i) (inv 0) o j f (t.trapper i) refl,
    )

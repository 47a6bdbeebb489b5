-- ===== src/Harness/Rounds.antt =====
-- benchmarks/rapid_start.h: the threads of `RapidStart` and the calls of `spread_work`, each access
-- to a shared word one step. `mode` is 2 from the constructor to the destructor. A word of bits is a
-- function from the slots; each thread adds the bit of its slot once.
pub mod Joined
pub mod Late
use oox_kirkon_fork.Base.{ℕ, zero, suc, ◌+◌, ◌≡◌, ◌≢◌, ◌==◌, ◌||◌, Bool, true, false}
use oox_kirkon_fork.Base.Family.{update}

-- Where the thread of a slot stands in `TrapperTask::operator()`.
pub data Trapper : Type 0 where
  outside : Trapper
  entered : Trapper  -- its bit is in `start_mask`
  epoch_loaded : Trapper  -- and it has loaded the epoch for the first time
  hit : Trapper  -- its bit is in the mask that it has read
  executed : Trapper
  waiting : Trapper  -- it spins while the epoch is the one that it knows
  changed : Trapper
  epoch_read : Trapper  -- it spins while `run_mask` is 0
  mask_seen : Trapper

-- Where the thread stands that calls `spread_work`, one call after another: it has set `run_mask` to 0,
-- stored `func_ptr`, the epoch, read `start_mask`, reset `finish_mask`, stored `run_mask`, or done its
-- own part.
pub data Master : Type 0 where
  ready cleared prepared published snapshot_taken finish_reset spread own_done returned : Master

pub record System : Type 0 where
  pub start_mask : ℕ → Bool
  pub run_mask : ℕ → Bool
  pub finish_mask : ℕ → Bool
  pub epoch : ℕ
  pub master : Master
  pub mask_snapshot : ℕ → Bool
  pub trapper : ℕ → Trapper
  pub e : ℕ → ℕ  -- the variable `e` of each thread
  pub r : ℕ → ℕ → Bool  -- the variable `r` of each thread
  pub runs : ℕ → ℕ  -- how often the thread has called `func_ptr->run` since that was stored

abbrev pub is_idle : Master → Bool
is_idle ready = true
is_idle returned = true
is_idle _ = false

-- A step of the thread in `spread_work`, or of one in the loop of `TrapperTask`.
pub data Step (s : System) : System → Type 0 where
  clear : is_idle s.master ≡ true → Step s (record s { run_mask = λ k. false; master = cleared })
  set_func : s.master ≡ cleared → Step s (record s { runs = λ k. 0; master = prepared })
  publish : s.master ≡ prepared → Step s (record s { epoch = suc s.epoch; master = published })
  take_snapshot :
      s.master ≡ published
      → Step s (record s { mask_snapshot = s.start_mask; master = snapshot_taken })
  reset_finish :
      s.master ≡ snapshot_taken
      → Step s (record s { finish_mask = λ k. false; master = finish_reset })
  spread_out :
      s.master ≡ finish_reset
      → Step s (record s { run_mask = λ k. k == 0 || s.mask_snapshot k; master = spread })
  run_own : s.master ≡ spread → Step s (record s { master = own_done })
  return :
      s.master ≡ own_done
      → ((k : ℕ) → s.finish_mask k ≡ s.mask_snapshot k)
      → Step s (record s { master = returned })
  run_part :
      (i : ℕ)
      → s.trapper i ≡ hit
      → Step s (record s {
        runs = update s.runs i (s.runs i + 1);
        trapper = update s.trapper i executed;
      })
  finish :
      (i : ℕ)
      → s.trapper i ≡ executed
      → Step s (record s {
        finish_mask = update s.finish_mask i true;
        trapper = update s.trapper i waiting;
      })
  notice :
      (i : ℕ)
      → s.trapper i ≡ waiting
      → s.epoch ≢ s.e i
      → Step s (record s { trapper = update s.trapper i changed })
  read_epoch :
      (i : ℕ)
      → s.trapper i ≡ changed
      → Step s (record s { e = update s.e i s.epoch; trapper = update s.trapper i epoch_read })
  see_mask :
      (i k : ℕ)
      → s.trapper i ≡ epoch_read
      → s.run_mask k ≡ true
      → Step s (record s { trapper = update s.trapper i mask_seen })
  read_hit :
      (i : ℕ)
      → s.trapper i ≡ mask_seen
      → s.run_mask i ≡ true
      → Step s (record s { r = update s.r i s.run_mask; trapper = update s.trapper i hit })
  read_miss :
      (i : ℕ)
      → s.trapper i ≡ mask_seen
      → s.run_mask i ≡ false
      → Step s (record s { r = update s.r i s.run_mask; trapper = update s.trapper i waiting })

-- A step of a thread on its way to that loop.
pub data Arrival (s : System) : System → Type 0 where
  enter :
      (i : ℕ)
      → s.trapper i ≡ outside
      → Arrival s (record s {
        start_mask = update s.start_mask i true;
        trapper = update s.trapper i entered;
      })
  load_epoch :
      (i : ℕ)
      → s.trapper i ≡ entered
      → Arrival s (record s { e = update s.e i s.epoch; trapper = update s.trapper i epoch_loaded })
  load_hit :
      (i : ℕ)
      → s.trapper i ≡ epoch_loaded
      → s.run_mask i ≡ true
      → Arrival s (record s { r = update s.r i s.run_mask; trapper = update s.trapper i hit })
  load_miss :
      (i : ℕ)
      → s.trapper i ≡ epoch_loaded
      → s.run_mask i ≡ false
      → Arrival s (record s { r = update s.r i s.run_mask; trapper = update s.trapper i waiting })

-- Steps by threads that all have arrived.
pub data Run (s : System) : System → Type 0 where
  here : Run s s
  later : {t u : System} → Run s t → Step t u → Run s u

-- Steps of any threads.
pub data AnyRun (s : System) : System → Type 0 where
  start : AnyRun s s
  step : {t u : System} → AnyRun s t → Step t u → AnyRun s u
  arrive : {t u : System} → AnyRun s t → Arrival t u → AnyRun s u

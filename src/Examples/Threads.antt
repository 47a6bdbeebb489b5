-- ===== src/Examples/Threads.antt =====
-- The theorems on benchmarks/rapid_start.h for concrete ranges, masks and threads.
use oox_kirkon_fork.Base.{
  ℕ, ◌/◌, ◌≡◌, ◌≢◌, refl, ◌==◌, ◌||◌, true, false, arith, if◌then◌else◌, length, [], ◌∷◌, map,
}
use oox_kirkon_fork.Base.Int.{ℤ, pos, negsuc}
use oox_kirkon_fork.Base.Family.{update}
use oox_kirkon_fork.Harness.{Range, execute, count_parts, workers, spread_work}
use oox_kirkon_fork.Harness.Tiling.{Tiles, spread_work-Tiles}
use oox_kirkon_fork.Harness.Rounds.{
  outside, waiting, hit, ready, own_done, spread, returned, System, clear, set_func, publish,
  take_snapshot, reset_finish, spread_out, run_own, return, run_part, finish, notice, read_epoch,
  see_mask, read_hit, Run, here, later, AnyRun,
}
use oox_kirkon_fork.Harness.Rounds.Joined.{Arrived, CanGoOn, is_open, each_part_once}
use oox_kirkon_fork.Harness.Rounds.Late.{late_thread}

-- Threads 1 and 3 take part, so that -5, ..., 4 is split into three.
abbrev shown : Range → ℤ × ℤ × ℕ
shown r = (r.start, r.end, r.part)

split :
    map shown (spread_work (negsuc 4) (pos 5) 10)
    ≡ (negsuc 4, negsuc 0, 1) ∷ (negsuc 0, pos 2, 2) ∷ (pos 2, pos 5, 3) ∷ []
unfolding spread_work execute workers count_parts
split = refl

spread_work-Tiles_example :
    Tiles
      (10 / length (spread_work (negsuc 4) (pos 5) 10))
      (negsuc 4)
      (pos 5)
      0
      (spread_work (negsuc 4) (pos 5) 10)
spread_work-Tiles_example = spread_work-Tiles (negsuc 4) 10 10

-- Thread 1 has arrived.
abbrev one_thread : System
one_thread = record {
  start_mask = λ k. k == 1;
  run_mask = λ k. false;
  finish_mask = λ k. false;
  epoch = 0;
  master = ready;
  mask_snapshot = λ k. false;
  trapper = λ k. if k == 1 then waiting else outside;
  e = λ k. 0;
  r = λ k. λ l. false;
  runs = λ k. 0;
}

one_thread-Arrived : Arrived one_thread
one_thread-Arrived = (refl, λ i h. ground arith, λ i h. ground arith)

bit_one : (k : ℕ) → update (λ l. false) 1 true k ≡ (k == 1)
bit_one k = ground arith

-- A call from beginning to end.
abbrev one_call : (t : System) × Run one_thread t
one_call =
    let other : 1 ≢ 0 = omega arith in
    let called = later (later (later here (clear refl)) (set_func refl)) (publish refl) in
    let sent =
      later (later (later called (take_snapshot refl)) (reset_finish refl)) (spread_out refl) in
    let noticed = later (later sent (notice 1 refl other)) (read_epoch 1 refl) in
    let read = later (later noticed (see_mask 1 0 refl refl)) (read_hit 1 refl refl) in
    let ran = later (later read (run_part 1 refl)) (finish 1 refl) in
    (_, later (later ran (run_own refl)) (return refl bit_one))

each_part_once_example :
    (one_call.0.master ≡ returned
      → (i : ℕ) → one_call.0.runs i ≡ (if one_call.0.start_mask i then 1 else 0))
    × ((i : ℕ)
        → one_call.0.trapper i ≡ hit
        → (is_open one_call.0.master ≡ true)
          × (one_call.0.runs i ≡ 0)
          × ((k : ℕ) → one_call.0.r i k ≡ (k == 0 || one_call.0.start_mask k)))
    × ((i : ℕ)
        → is_open one_call.0.master ≡ true
        → one_call.0.start_mask i ≡ true
        → one_call.0.finish_mask i ≡ false
        → CanGoOn one_call.0 i)
each_part_once_example = each_part_once one_call.1 one_thread-Arrived

late_thread_example :
    ((u : System) × AnyRun one_thread u × (u.master ≡ spread) × (u.runs 2 ≡ 2))
    × ((t : System) × AnyRun one_thread t × ((u : System) → AnyRun t u → u.master ≡ own_done))
late_thread_example = late_thread one_thread 2 refl refl

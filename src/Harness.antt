-- ===== src/Harness.antt =====
-- benchmarks/rapid_start.h: how `RapidStart` of the benchmarks splits a range among threads. A word
-- `mask_t` has 64 bits; the bounds are taken to be so that no `int` overflows.
pub mod Parts
pub mod Tiling
pub mod Rounds
use oox_kirkon_fork.Base.{ℕ, zero, suc, ◌+◌, ◌-◌, ◌==◌, ◌&&◌, List, [], ◌∷◌, map, if◌then◌else◌}
use oox_kirkon_fork.Base.Bits.{bit, set_bit}
use oox_kirkon_fork.Base.Int.{ℤ, ◌+ℤ◌, ◌-ℤ◌, quotient, remainder, times, min_int}

-- `sizeof(mask_t)*8`
abbrev pub mask_bits : ℕ
mask_bits = 64

-- The arguments of a call of `my_func`.
pub record Range : Type 0 where
  pub start : ℤ
  pub end : ℤ
  pub part : ℕ

-- `distribution_function::execute`
unfoldable pub execute : (my_start my_end : ℤ) (part parts : ℕ) → Range
execute my_start my_end part parts =
    let range = my_end -ℤ my_start in
    let step = quotient range parts in
    let rest = remainder range parts in
    record {
      start = my_start +ℤ times part step +ℤ min_int rest part;
      end = my_start +ℤ times (suc part) step +ℤ min_int rest (suc part);
      part = suc part;
    }

-- The loop of `distribution_base::run` from bit `i` on, for `rounds` bits: `part` and `parts`.
unfoldable pub count_parts : (slot mask rounds i part parts : ℕ) → ℕ × ℕ
count_parts slot mask zero i part parts = (part, parts)
count_parts slot mask (suc rounds) i part parts =
    let next_part = if bit mask i && (i == slot) then parts else part in
    let next_parts = if bit mask i then suc parts else parts in
    count_parts slot mask rounds (suc i) next_part next_parts

unfoldable pub run : (my_start my_end : ℤ) (slot mask : ℕ) → Range
run my_start my_end slot mask =
    let (part, parts) = count_parts slot mask (mask_bits - 1) 1 0 1 in
    execute my_start my_end part parts

-- The slots of the threads whose bit is set, from bit `i` on, for `rounds` bits.
unfoldable pub workers : (mask rounds i : ℕ) → List ℕ
workers mask zero i = []
workers mask (suc rounds) i =
    let rest = workers mask rounds (suc i) in if bit mask i then i ∷ rest else rest

-- The calls that `spread_work` leads to for the mask that it reads: its own, and those of the threads
-- that find their bit in the mask, to which bit 0 has been added.
unfoldable pub spread_work : (my_start my_end : ℤ) (mask_snapshot : ℕ) → List Range
unfolding run
spread_work my_start my_end mask_snapshot =
    run my_start my_end 0 mask_snapshot
    ∷ map (λ slot. run my_start my_end slot (set_bit mask_snapshot 0))
        (workers (set_bit mask_snapshot 0) (mask_bits - 1) 1)

-- ===== src/Harness/Parts.antt =====
-- The parts of benchmarks/rapid_start.h that the slots of a mask take.
use oox_kirkon_fork.Base.{
  ℕ, zero, suc, ◌+◌, ◌-◌, ◌*◌, ◌/◌, ◌^◌, ◌≤◌, ◌<◌, ◌≡◌, refl, ap, ◌∙◌, ◌==◌, true, false, List, [],
  ◌∷◌, map, All, arith, length, if◌then◌else◌, Bool-cases, inl, inr,
}
use native.Mathlib.Nat.{div-div-eq-div-mul, pow-suc}
use oox_kirkon_fork.Base.Bits.{bit, set_bit}
use oox_kirkon_fork.Base.Int.{ℤ}
use oox_kirkon_fork.Harness.{mask_bits, Range, execute, count_parts, run, workers, spread_work}

-- The calls for the parts from `k` on.
abbrev pub from : (f : ℕ → Range) (count k : ℕ) → List Range
from f zero k = []
from f (suc count) k = f k ∷ from f count (suc k)

module _ (slot mask rounds i part parts : ℕ) where
  count_parts-set :
      bit mask i ≡ true
      → count_parts slot mask (suc rounds) i part parts
        ≡ count_parts slot mask rounds (suc i) (if i == slot then parts else part) (suc parts)
  unfolding count_parts
  count_parts-set h = ground (arith, h)

  count_parts-clear :
      bit mask i ≡ false
      → count_parts slot mask (suc rounds) i part parts
        ≡ count_parts slot mask rounds (suc i) part parts
  unfolding count_parts
  count_parts-clear h = ground (arith, h)

count_parts-early :
    (slot mask rounds i part parts : ℕ)
    → slot < i
    → (count_parts slot mask rounds i part parts).0 ≡ part
unfolding count_parts
count_parts-early slot mask zero i part parts lt = refl
count_parts-early slot mask (suc rounds) i part parts lt =
    let other : (i == slot) ≡ false = ground arith in
    elim (Bool-cases (bit mask i)) [
      | inl set ↦
          rw (count_parts-set slot mask rounds i part parts set, other)
            (count_parts-early slot mask rounds (suc i) part (suc parts) (omega arith))
      | inr clear ↦
          rw (count_parts-clear slot mask rounds i part parts clear)
            (count_parts-early slot mask rounds (suc i) part parts (omega arith))
    ]

count_parts-length :
    (slot mask rounds i part parts : ℕ)
    → (count_parts slot mask rounds i part parts).1 ≡ length (workers mask rounds i) + parts
unfolding count_parts workers
count_parts-length slot mask zero i part parts = omega arith
count_parts-length slot mask (suc rounds) i part parts = elim (Bool-cases (bit mask i)) [
  | inl set ↦
      let later =
        count_parts-length slot mask rounds (suc i) (if i == slot then parts else part)
          (suc parts) in
      rw (count_parts-set slot mask rounds i part parts set, set) (omega (arith, later))
  | inr clear ↦
      rw (count_parts-clear slot mask rounds i part parts clear, clear)
        (count_parts-length slot mask rounds (suc i) part parts)
]

-- The slots of workers lie at `i` or behind.
workers-later : (mask rounds i k : ℕ) → k ≤ i → All (λ slot. k ≤ slot) (workers mask rounds i)
unfolding workers
workers-later mask zero i k le = tt
workers-later mask (suc rounds) i k le = elim (Bool-cases (bit mask i)) [
  | inl set ↦ rw set (le, workers-later mask rounds (suc i) k (omega arith))
  | inr clear ↦ rw clear (workers-later mask rounds (suc i) k (omega arith))
]

map-same :
    (f g : ℕ → Range) (i : ℕ) (slots : List ℕ)
    → ((slot : ℕ) → i ≤ slot → f slot ≡ g slot)
    → All (λ slot. i ≤ slot) slots
    → map f slots ≡ map g slots
map-same f g i [] h a = refl
map-same f g i (slot ∷ slots) h a = rw (h slot a.0, map-same f g i slots h a.1) refl

module _ (f : ℕ → Range) (mask : ℕ) where
  -- The workers take the parts one after the other.
  workers-from :
      (rounds i part parts : ℕ)
      → map (λ slot. f (count_parts slot mask rounds i part parts).0) (workers mask rounds i)
        ≡ from f (length (workers mask rounds i)) parts
  unfolding workers count_parts
  workers-from zero i part parts = refl
  workers-from (suc rounds) i part parts = elim (Bool-cases (bit mask i)) [
    | inl set ↦
        let own : (count_parts i mask (suc rounds) i part parts).0 ≡ parts =
          rw (count_parts-set i mask rounds i part parts set) (
            count_parts-early i mask rounds (suc i) (if i == i then parts else part) (suc parts)
              (omega arith)
            ∙ ground arith) in
        let others =
          map-same (λ slot. f (count_parts slot mask (suc rounds) i part parts).0)
            (λ slot. f (count_parts slot mask rounds (suc i) part (suc parts)).0) (suc i)
            (workers mask rounds (suc i))
            (λ slot le.
              let other : (i == slot) ≡ false = ground arith in
              rw (count_parts-set slot mask rounds i part parts set, other) refl)
            (workers-later mask rounds (suc i) (suc i) (omega arith)) in
        rw (set, own, others)
          (ap (λ rs. f parts ∷ rs) (workers-from rounds (suc i) part (suc parts)))
    | inr clear ↦ rw clear (
        map-same _ (λ slot. f (count_parts slot mask rounds (suc i) part parts).0) (suc i)
          (workers mask rounds (suc i))
          (λ slot le. rw (count_parts-clear slot mask rounds i part parts clear) refl)
          (workers-later mask rounds (suc i) (suc i) (omega arith))
        ∙ workers-from rounds (suc i) part parts)
  ]

set_bit-later : (mask i : ℕ) → 0 < i → bit (set_bit mask 0) i ≡ bit mask i
set_bit-later mask zero p = elim p [ ]
set_bit-later mask (suc i) p =
    let halves : (set_bit mask 0) / 2 ≡ mask / 2 = ground arith in
    let power = pow-suc 2 i in
    let twice : 2 ^ suc i ≡ 2 * 2 ^ i = omega (arith, power) in
    rw
      (
        twice,
        ← div-div-eq-div-mul (set_bit mask 0) 2 (2 ^ i),
        ← div-div-eq-div-mul mask 2 (2 ^ i),
        halves,
      )
      refl

-- Bit 0 of the mask is not read.
workers-set_bit :
    (mask rounds i : ℕ) → 0 < i → workers (set_bit mask 0) rounds i ≡ workers mask rounds i
unfolding workers
workers-set_bit mask zero i p = refl
workers-set_bit mask (suc rounds) i p =
    rw (set_bit-later mask i p, workers-set_bit mask rounds (suc i) (omega arith)) refl

module _ (s z : ℤ) (mask : ℕ) where
  -- The number of the parts.
  abbrev pub parts_of : ℕ
  parts_of = suc (length (workers mask (mask_bits - 1) 1))

  run-execute :
      (slot : ℕ)
      → run s z slot mask ≡ execute s z (count_parts slot mask (mask_bits - 1) 1 0 1).0 parts_of
  unfolding run
  run-execute slot =
      let parts : (count_parts slot mask (mask_bits - 1) 1 0 1).1 ≡ parts_of =
        omega (arith, count_parts-length slot mask (mask_bits - 1) 1 0 1) in
      ap (execute s z (count_parts slot mask (mask_bits - 1) 1 0 1).0) parts

pub spread_work-from :
    (s z : ℤ) (mask : ℕ)
    → spread_work s z mask
      ≡ from (λ part. execute s z part (parts_of s z mask)) (parts_of s z mask) 0
unfolding spread_work
spread_work-from s z mask =
    let rounds = mask_bits - 1 in
    let same = workers-set_bit mask rounds 1 (omega arith) in
    let own =
      run-execute s z mask 0
      ∙ ap (λ part. execute s z part (parts_of s z mask))
          (count_parts-early 0 mask rounds 1 0 1 (omega arith)) in
    let others =
      map-same (λ slot. run s z slot (set_bit mask 0))
        (λ slot.
          execute s z (count_parts slot (set_bit mask 0) rounds 1 0 1).0
            (parts_of s z (set_bit mask 0)))
        1 (workers (set_bit mask 0) rounds 1) (λ slot le. run-execute s z (set_bit mask 0) slot)
        (workers-later (set_bit mask 0) rounds 1 1 (omega arith)) in
    let numbered =
      workers-from (λ part. execute s z part (parts_of s z (set_bit mask 0))) (set_bit mask 0)
        rounds 1 0 1 in
    rw (own, others, numbered, same) refl

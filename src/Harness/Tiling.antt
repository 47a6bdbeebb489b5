-- ===== src/Harness/Tiling.antt =====
-- The ranges of benchmarks/rapid_start.h follow one another.
use oox_kirkon_fork.Base.{
  ℕ, zero, suc, ◌+◌, ◌-◌, ◌*◌, ◌/◌, ◌%◌, ◌≤◌, ◌<◌, min, ◌≡◌, refl, sym, ap, ◌∙◌, List, [], ◌∷◌,
  arith, length,
}
use native.Mathlib.Nat.{div-add-mod, mod-lt}
use mathlib.Core.Path.{subst}
use oox_kirkon_fork.Base.Int.{ℤ, pos, ◌+ℤ◌, +ℤ_assoc, +ℤ_cancel, +ℤ-zero}
use oox_kirkon_fork.Harness.{Range, execute, spread_work}
use oox_kirkon_fork.Harness.Parts.{from, parts_of, spread_work-from}

-- From `a` to `z`, each range begins where the one before ends and has `step` elements or one more,
-- and their parts are numbered on from `k`.
abbrev pub Tiles : (step : ℕ) (a z : ℤ) (k : ℕ) → List Range → Type 0
Tiles step a z k [] = a ≡ z
Tiles step a z k (r ∷ rs) =
    (r.start ≡ a)
    × ((n : ℕ) × (r.end ≡ a +ℤ pos n) × (step ≤ n) × (n ≤ step + 1))
    × (r.part ≡ suc k)
    × Tiles step r.end z (suc k) rs

-- The number of elements before part `k`.
abbrev offset : (n parts k : ℕ) → ℕ
offset n parts k = k * (n / parts) + min (n % parts) k

execute-offset :
    (s : ℤ) (n part parts : ℕ)
    → (execute s (s +ℤ pos n) part parts).start ≡ s +ℤ pos (offset n parts part)
unfolding execute
execute-offset s n part parts =
    rw (+ℤ_cancel s n) (+ℤ_assoc s (part * (n / parts)) (min (n % parts) part))

execute-end :
    (s : ℤ) (n part parts : ℕ)
    → (execute s (s +ℤ pos n) part parts).end ≡ s +ℤ pos (offset n parts (suc part))
unfolding execute
execute-end s n part parts =
    rw (+ℤ_cancel s n) (+ℤ_assoc s ((suc part) * (n / parts)) (min (n % parts) (suc part)))

offset-zero : (n parts : ℕ) → offset n parts 0 ≡ 0
offset-zero n parts = grind arith

offset-parts : (n parts : ℕ) → 0 < parts → offset n parts parts ≡ n
offset-parts n parts p = omega (arith, div-add-mod n parts, mod-lt n p)

abbrev width : (n parts k : ℕ) → ℕ
width n parts k = n / parts + (min (n % parts) (suc k) - min (n % parts) k)

offset-suc : (n parts k : ℕ) → offset n parts (suc k) ≡ offset n parts k + width n parts k
offset-suc n parts k = grind arith

length-from : (f : ℕ → Range) (count k : ℕ) → length (from f count k) ≡ count
length-from f zero k = refl
length-from f (suc count) k = ap suc (length-from f count (suc k))

from-Tiles :
    (s : ℤ) (n parts r k : ℕ)
    → r + k ≡ parts
    → 0 < parts
    → Tiles
        (n / parts)
        (s +ℤ pos (offset n parts k))
        (s +ℤ pos n)
        k
        (from (λ part. execute s (s +ℤ pos n) part parts) r k)
unfolding execute
from-Tiles s n parts zero k e p =
    let last : k ≡ parts = omega arith in rw last (ap (λ x. s +ℤ pos x) (offset-parts n parts p))
from-Tiles s n parts (suc r) k e p =
    let end = execute-end s n k parts in
    let grown = ap (λ x. s +ℤ pos x) (offset-suc n parts k) in
    (
      execute-offset s n k parts,
      (
        width n parts k,
        end ∙ grown ∙ sym (+ℤ_assoc s (offset n parts k) (width n parts k)),
        omega arith,
        omega arith,
      ),
      refl,
      rw end (from-Tiles s n parts r (suc k) (omega arith) p),
    )

-- Let a range of `n` elements be split by `spread_work`, for any mask that it reads. The ranges of its
-- own call and of those of the threads whose bits are set, in the order of their slots, follow one
-- another from the beginning of the whole range to its end, without a gap or an overlap; each has
-- n / p elements or one more, where p is their number; and they are numbered from 1 on.
pub spread_work-Tiles :
    (s : ℤ) (n mask : ℕ)
    → Tiles
        (n / length (spread_work s (s +ℤ pos n) mask))
        s
        (s +ℤ pos n)
        0
        (spread_work s (s +ℤ pos n) mask)
spread_work-Tiles s n mask =
    let z = s +ℤ pos n in
    let parts = parts_of s z mask in
    let f : ℕ → Range = λ part. execute s z part parts in
    let begin : s +ℤ pos (offset n parts 0) ≡ s = rw (offset-zero n parts) (+ℤ-zero s) in
    let tiles : Tiles (n / parts) s z 0 (from f parts 0) =
      subst (λ x. Tiles (n / parts) x z 0 (from f parts 0)) begin
        (from-Tiles s n parts parts 0 (omega arith) (omega arith)) in
    let count : length (from f parts 0) ≡ parts = length-from f parts 0 in
    subst (λ rs. Tiles (n / length rs) s z 0 rs) (sym (spread_work-from s z mask))
      (subst (λ k. Tiles (n / k) s z 0 (from f parts 0)) (sym count) tiles)

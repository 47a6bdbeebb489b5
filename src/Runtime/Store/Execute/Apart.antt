-- ===== src/Runtime/Store/Execute/Apart.antt =====
-- Lists of different tasks of oox/oox.h, by their addresses.
use oox_kirkon_fork.Base.{
  ℕ, ◌+◌, ◌≡◌, refl, ◌==◌, true, false, List, [], ◌∷◌, ◌++◌, All, arith, length,
}
use oox_kirkon_fork.Runtime.Dependence.Trackers.{has, All-has}

-- The task is none in the list, and no two of the list are the same.
abbrev pub IsApart : ℕ → List ℕ → Type 0
IsApart x us = All (λ u. (x == u) ≡ false) us

abbrev pub AreApart : List ℕ → Type 0
AreApart [] = Unit
AreApart (u ∷ us) = IsApart u us × AreApart us

pub apart_sym : (x y : ℕ) → (x == y) ≡ false → (y == x) ≡ false
apart_sym x y h = ground arith

pub flip_apart : (u : ℕ) (us : List ℕ) → IsApart u us → All (λ v. (v == u) ≡ false) us
flip_apart u [] h = tt
flip_apart u (v ∷ us) h = (ground (arith, h.0), flip_apart u us h.1)

-- What holds of each element of a list follows from two such facts.
pub All-zip :
    (P Q R : ℕ → Type 0) (xs : List ℕ)
    → ((x : ℕ) → P x → Q x → R x)
    → All P xs
    → All Q xs
    → All R xs
All-zip P Q R [] f h k = tt
All-zip P Q R (x ∷ xs) f h k = (f x h.0 k.0, All-zip P Q R xs f h.1 k.1)

pub IsApart-none : (us : List ℕ) → All (λ u. IsApart u []) us
IsApart-none [] = tt
IsApart-none (u ∷ us) = (tt, IsApart-none us)

abbrev pub rev_onto : List ℕ → List ℕ → List ℕ
rev_onto [] ys = ys
rev_onto (x ∷ xs) ys = rev_onto xs (x ∷ ys)

pub rev_onto_twice : (us ys xs : List ℕ) → rev_onto (rev_onto us ys) xs ≡ rev_onto ys (us ++ xs)
rev_onto_twice [] ys xs = refl
rev_onto_twice (u ∷ us) ys xs = rev_onto_twice us (u ∷ ys) xs

pub length-rev_onto : (us ys : List ℕ) → length (rev_onto us ys) ≡ length us + length ys
length-rev_onto [] ys = omega arith
length-rev_onto (u ∷ us) ys = omega (arith, length-rev_onto us (u ∷ ys))

pub All-rev_onto : (P : ℕ → Type 0) (xs ys : List ℕ) → All P xs → All P ys → All P (rev_onto xs ys)
All-rev_onto P [] ys h k = k
All-rev_onto P (x ∷ xs) ys h k = All-rev_onto P xs (x ∷ ys) h.1 (h.0, k)

pub AreApart-rev_onto :
    (us ys : List ℕ)
    → AreApart us
    → AreApart ys
    → All (λ u. IsApart u ys) us
    → AreApart (rev_onto us ys)
AreApart-rev_onto [] ys d e c = e
AreApart-rev_onto (u ∷ us) ys d e c =
    AreApart-rev_onto us (u ∷ ys) d.1 (c.0, e)
      (All-zip (λ v. (u == v) ≡ false) (λ v. IsApart v ys) (λ v. IsApart v (u ∷ ys)) us
        (λ v g i. (apart_sym u v g, i)) d.0 c.1)

module _ (P : ℕ → Type 0) where
  pub All-of_rev_onto : (us ys : List ℕ) → All P (rev_onto us ys) → All P us × All P ys
  All-of_rev_onto [] ys h = (tt, h)
  All-of_rev_onto (u ∷ us) ys h =
      let rest = All-of_rev_onto us (u ∷ ys) h in ((rest.1.0, rest.0), rest.1.1)

  -- What holds of all readers holds of some of them.
  pub All-some : (us vs : List ℕ) → All P us → All (λ v. has v us ≡ true) vs → All P vs
  All-some us [] h k = tt
  All-some us (v ∷ vs) h k = (All-has P us v h k.0, All-some us vs h k.1)

-- ===== src/Clients/Filesystem/Accumulate.antt =====
-- `AntiDependence::disk_usage` of examples/filesystem.h: the sizes of the children of one directory
-- are pushed to a vector by tasks that may run at once, and a task that writes the vector, so that it
-- waits for them all, adds them up. `tbb::concurrent_vector` is not in the repository: `push_back` is
-- a parameter, of which it is only used that it inserts its element somewhere.
use oox_kirkon_fork.Base.{
  ℕ, ◌+◌, ◌-◌, ◌%◌, ◌^◌, ◌<◌, ◌≡◌, ◌≢◌, refl, ltb, List, [], ◌∷◌, ◌++◌, if◌then◌else◌, arith,
  Option, none, some, dec_lt, lt→ltb, false, ◌↔◌, sym, ◌∙◌, ap,
}
use oox_kirkon_fork.Clients.Filesystem.{add_size}

-- A 32-bit `int` is kept as its word. This is its conversion to `size_t`, with the sign.
unfoldable pub size_of_int : ℕ → ℕ
size_of_int w = if ltb w (2 ^ 31) then w else w + (2 ^ 64 - 2 ^ 32)

-- `std::accumulate (v->begin (), v->end (), 0)`: the type of the sum is that of the 0, `int`.
unfoldable pub accumulate : List ℕ → ℕ → ℕ
unfolding size_of_int
accumulate [] acc = acc
accumulate (s ∷ sizes) acc = accumulate sizes ((size_of_int acc + s) % 2 ^ 64 % 2 ^ 32)

-- The task that the last call of `oox::run` makes.
unfoldable pub total : List ℕ → ℕ
unfolding accumulate size_of_int
total sizes = size_of_int (accumulate sizes 0)

-- The sizes that are known and not pushed yet, the vector, and the result.
pub record System : Type 0 where
  pub pending : List ℕ
  pub vector : List ℕ
  pub result : Option ℕ

abbrev pub start : List ℕ → System
start sizes = record { pending = sizes; vector = []; result = none }

module _ (push_back : List ℕ → ℕ → List ℕ) where
  pub data Step (s : System) : System → Type 0 where
    push :
        (before : List ℕ) (size : ℕ) (after : List ℕ)
        → s.pending ≡ before ++ size ∷ after
        → Step s (record s { pending = before ++ after; vector = push_back s.vector size })
    -- The writer waits for all readers.
    finish :
        s.pending ≡ []
        → s.result ≡ none
        → Step s (record s { vector = []; result = some (total s.vector) })

  pub data Reach (sizes : List ℕ) : System → Type 0 where
    here : Reach sizes (start sizes)
    later : {s t : System} → Reach sizes s → Step s t → Reach sizes t

-- The element stands somewhere among the others, whose order stays.
abbrev pub Inserts : (List ℕ → ℕ → List ℕ) → Type 0
Inserts push_back =
    (v : List ℕ) (x : ℕ)
    → (before : List ℕ) × (after : List ℕ) × (v ≡ before ++ after)
      × (push_back v x ≡ before ++ x ∷ after)

-- The sum without bounds, and the one in `size_t` of the serial loop.
abbrev pub sum : List ℕ → ℕ
sum [] = 0
sum (s ∷ sizes) = s + sum sizes

abbrev pub serial_sum : List ℕ → ℕ → ℕ
serial_sum [] acc = acc
serial_sum (s ∷ sizes) acc = serial_sum sizes (add_size acc s)

sum-append : (xs ys : List ℕ) → sum (xs ++ ys) ≡ sum xs + sum ys
sum-append [] ys = omega arith
sum-append (x ∷ xs) ys = omega (arith, sum-append xs ys)

size_of_int-add : (w s : ℕ) → w < 2 ^ 32 → (size_of_int w + s) % 2 ^ 64 % 2 ^ 32 ≡ (w + s) % 2 ^ 32
unfolding size_of_int
size_of_int-add w s h = elim (dec_lt w (2 ^ 31)) [
  | yes p ↦ rw (lt→ltb w (2 ^ 31) p) (omega arith)
  | no p ↦ let e : ltb w (2 ^ 31) ≡ false = ground arith in rw e (omega arith)
]

accumulate-eq-sum :
    (sizes : List ℕ) (acc : ℕ) → acc < 2 ^ 32 → accumulate sizes acc ≡ (acc + sum sizes) % 2 ^ 32
unfolding accumulate
accumulate-eq-sum [] acc h = omega arith
accumulate-eq-sum (s ∷ sizes) acc h =
    rw (size_of_int-add acc s h)
      (omega (arith, accumulate-eq-sum sizes ((acc + s) % 2 ^ 32) (omega arith)))

serial_sum-eq-sum :
    (sizes : List ℕ) (acc : ℕ) → acc < 2 ^ 64 → serial_sum sizes acc ≡ (acc + sum sizes) % 2 ^ 64
serial_sum-eq-sum [] acc h = omega arith
serial_sum-eq-sum (s ∷ sizes) acc h =
    omega (arith, serial_sum-eq-sum sizes ((acc + s) % 2 ^ 64) (omega arith))

total-eq-sum : (sizes : List ℕ) → total sizes ≡ size_of_int (sum sizes % 2 ^ 32)
unfolding total
total-eq-sum sizes =
    let z : 0 + sum sizes ≡ sum sizes = omega arith in
    rw (accumulate-eq-sum sizes 0 (omega arith), z) refl

record Inv (sizes : List ℕ) (s : System) : Type 0 where
  kept : s.result ≡ none → sum s.pending + sum s.vector ≡ sum sizes
  right : (r : ℕ) → s.result ≡ some r → r ≡ size_of_int (sum sizes % 2 ^ 32)
  over : (r : ℕ) → s.result ≡ some r → s.pending ≡ []

append-ne-nil : (xs : List ℕ) (y : ℕ) (ys : List ℕ) → xs ++ y ∷ ys ≢ []
append-ne-nil [] y ys e = cc
append-ne-nil (x ∷ xs) y ys e = cc

module _ (push_back : List ℕ → ℕ → List ℕ) (inserts : Inserts push_back) where
  sum-push_back : (v : List ℕ) (x : ℕ) → sum (push_back v x) ≡ sum v + x
  sum-push_back v x =
      let (before, after, e, f) = inserts v x in
      let whole : sum v ≡ sum before + sum after = ap sum e ∙ sum-append before after in
      let longer : sum (push_back v x) ≡ sum before + (x + sum after) =
        ap sum f ∙ sum-append before (x ∷ after) in
      omega arith

  Step-Inv : {sizes : List ℕ} {s t : System} → Step push_back s t → Inv sizes s → Inv sizes t
  Step-Inv {sizes} {s} (push pre x post e) inv = record {
    kept = λ unset.
        let before = inv.kept unset in
        let split : sum s.pending ≡ sum pre + sum (x ∷ post) = rw e (sum-append pre (x ∷ post)) in
        omega (arith, before, split, sum-append pre post, sum-push_back s.vector x);
    right = inv.right;
    over = λ r f. absurd (append-ne-nil pre x post (sym e ∙ inv.over r f));
  }
  Step-Inv {sizes} {s} (finish e unset) inv = record {
    kept = λ f. cc;
    right = λ r f.
        let drained : sum s.pending ≡ 0 = rw e refl in
        let all : sum s.vector ≡ sum sizes = omega (arith, inv.kept unset, drained) in
        ground (arith, total-eq-sum s.vector, all);
    over = λ r f. e;
  }

  Reach-Inv : {sizes : List ℕ} {s : System} → Reach push_back sizes s → Inv sizes s
  Reach-Inv {sizes} here = record { kept = λ e. omega arith; right = λ r e. cc; over = λ r e. cc }
  Reach-Inv (later r st) = Step-Inv st (Reach-Inv r)

  progress : (s : System) → s.result ≡ none → (t : System) × Step push_back s t
  progress s unset = go s.pending refl
    where
      go : (l : List ℕ) → s.pending ≡ l → (t : System) × Step push_back s t
      go [] e = (_, finish e unset)
      go (x ∷ xs) e = (_, push [] x xs e)

  -- Let `push_back` insert its element. In every order of the pushes, there is a result or a step that leads on, and the result is the
  -- word of the sum in 32 bits with its sign. For sizes that sum up to less than `2 ^ 64 - 2 ^ 31`, it
  -- is the sum of the serial loop exactly when the sum is less than `2 ^ 31`.
  pub any_order :
      {s : System} (sizes : List ℕ)
      → Reach push_back sizes s
      → (s.result ≡ none → (t : System) × Step push_back s t)
        × ((r : ℕ)
            → s.result ≡ some r
            → (r ≡ size_of_int (sum sizes % 2 ^ 32))
              × (sum sizes < 2 ^ 64 - 2 ^ 31 → (r ≡ serial_sum sizes 0) ↔ (sum sizes < 2 ^ 31)))
  unfolding size_of_int
  any_order {s} sizes p = (
    progress s,
    λ r e.
        let q = (Reach-Inv p).right r e in
        let serial = serial_sum-eq-sum sizes 0 (omega arith) in
        (q, λ small. (λ same. ground (arith, q, serial), λ below. ground (arith, q, serial))),
  )

-- ===== src/Runtime/Dependence/Equivalence.antt =====
-- A program on oox/oox.h in any order that its dependencies allow against the same tasks one after the
-- other.
use oox_kirkon_fork.Base.{
  ℕ, zero, suc, ◌<◌, ◌≤◌, ◌≡◌, refl, Bool, true, false, List, [], ◌∷◌, All, arith, Bool-cases, inl,
  inr, ℕ_discrete, dec_lt, ◌∙◌, sym,
}
use oox_kirkon_fork.Base.Family.{update}
use oox_kirkon_fork.Base.Sums.{total, total-le, total_bumped, total_zero}
use oox_kirkon_fork.Runtime.Store.Execute.{Argument, plain, writes, reads}
use oox_kirkon_fork.Runtime.Dependence.{
  Program, Values, State, start, execute, Reach, here, later, prerequisites, is_written, is_used,
  consume_all, apply, serial,
}
use oox_kirkon_fork.Runtime.Dependence.Closure.{
  IsClosed, conflicts_done, IsClosed-update, used_of_written,
}

-- A functor sees nothing but the variables of its task.
consume_all-eq :
    {V : Type 0} (rest : List Argument) (m m' : Values V)
    → ((u : ℕ) → is_used rest u ≡ true → m u ≡ m' u)
    → consume_all rest m ≡ consume_all rest m'
consume_all-eq [] m m' h = refl
consume_all-eq (plain ∷ rest) m m' h = consume_all-eq rest m m' h
consume_all-eq (reads u a ∷ rest) m m' h =
    rw (h u (ground arith), consume_all-eq rest m m' (λ w e. h w (ground arith))) refl
consume_all-eq (writes u a ∷ rest) m m' h =
    rw (h u (ground arith), consume_all-eq rest m m' (λ w e. h w (ground arith))) refl

module _ {V : Type 0} (p : Program V) (n : ℕ) (m : Values V) where
  -- A variable keeps its value from `j` to `k` if no task there writes it.
  pub serial_kept :
      (v j k : ℕ)
      → j ≤ k
      → ((d : ℕ) → j ≤ d → d < k → is_written (p d).args v ≡ false)
      → serial p m k v ≡ serial p m j v
  unfolding serial apply
  serial_kept v zero zero le h = refl
  serial_kept v (suc j) zero le h = absurd (omega arith)
  serial_kept v j (suc k) le h = elim (ℕ_discrete j (suc k)) [
    | yes same ↦ rw same refl
    | no other ↦
        let ih = serial_kept v j k (omega arith) (λ d lo hi. h d lo (omega arith)) in
        let q = h k (omega arith) (omega arith) in ground (arith, ih, q)
  ]

  record Inv (s : State V) : Type 0 where
    closed : IsClosed p s.completed
    inside : (d : ℕ) → s.completed d ≡ true → d < n
    -- Where the writers that are through are those before `k`, the value is the serial one at `k`.
    values :
        (v k : ℕ)
        → ((d : ℕ) → d < k → is_written (p d).args v ≡ true → s.completed d ≡ true)
        → ((d : ℕ) → k ≤ d → is_written (p d).args v ≡ true → s.completed d ≡ false)
        → s.memory v ≡ serial p m k v

  Inv-start : Inv (start m)
  unfolding serial
  Inv-start = record {
    closed = λ t d v c. cc;
    inside = λ d c. cc;
    values = λ v k before after.
        let unwritten =
          λ (d : ℕ) (lo : 0 ≤ d) (lt : d < k). not_written d v (λ wr. before d lt wr) in
        sym (serial_kept v 0 k (omega arith) unwritten);
  }
    where
      not_written :
          (d v : ℕ)
          → (is_written (p d).args v ≡ true → ◌≡◌ {A = Bool} false true)
          → is_written (p d).args v ≡ false
      not_written d v h = elim (Bool-cases (is_written (p d).args v)) [
        | inl wr ↦ let q = h wr in cc
        | inr nw ↦ nw
      ]

  module _ (s : State V) (inv : Inv s) (t : ℕ) (unset : s.completed t ≡ false)
      (ready : All (λ d. s.completed d ≡ true) (prerequisites p t)) where
    -- A later task that writes what `t` uses is not through.
    later_open :
        (d v : ℕ)
        → t < d
        → is_used (p t).args v ≡ true
        → is_written (p d).args v ≡ true
        → s.completed d ≡ false
    later_open d v lt us wr = elim (Bool-cases (s.completed d)) [
      | inl through ↦ let q = inv.closed d t v through lt (inr (us, wr)) in absurd (ground arith)
      | inr not_yet ↦ not_yet
    ]

    -- The task finds in each variable that it uses what it finds there in the serial run.
    inputs_serial : (u : ℕ) → is_used (p t).args u ≡ true → s.memory u ≡ serial p m t u
    inputs_serial u us =
        inv.values u t
          (λ d lt wr. conflicts_done p s.completed inv.closed t ready d u lt (inl (wr, us)))
          (λ d le wr. elim (ℕ_discrete t d) [
            | yes same ↦ rw (← same) unset
            | no other ↦ later_open d u (omega arith) us wr
          ])

    outputs_serial :
        (v : ℕ) → is_written (p t).args v ≡ true → apply (p t) s.memory v ≡ serial p m (suc t) v
    unfolding serial apply
    outputs_serial v wr =
        rw (wr, consume_all-eq (p t).args s.memory (serial p m t) inputs_serial) refl

    unwritten_since :
        (v k : ℕ)
        → is_written (p t).args v ≡ true
        → ((d : ℕ) → d < k → is_written (p d).args v ≡ true → update s.completed t true d ≡ true)
        → (d : ℕ) → suc t ≤ d
        → d < k
        → is_written (p d).args v ≡ false
    unwritten_since v k wr before d lo hi = elim (Bool-cases (is_written (p d).args v)) [
      | inr nw ↦ nw
      | inl wd ↦
          let open' = later_open d v (omega arith) (used_of_written (p t).args v wr) wd in
          let through = before d hi wd in absurd (ground arith)
    ]

    values_written :
        (v k : ℕ)
        → is_written (p t).args v ≡ true
        → ((d : ℕ) → d < k → is_written (p d).args v ≡ true → update s.completed t true d ≡ true)
        → ((d : ℕ) → k ≤ d → is_written (p d).args v ≡ true → update s.completed t true d ≡ false)
        → apply (p t) s.memory v ≡ serial p m k v
    values_written v k wr before after = elim (dec_lt t k) [
      | yes lt ↦
          outputs_serial v wr
          ∙ sym (serial_kept v (suc t) k (omega arith) (unwritten_since v k wr before))
      | no ge ↦ let q = after t (omega arith) wr in absurd (ground arith)
    ]

    values_other :
        (v k : ℕ)
        → is_written (p t).args v ≡ false
        → ((d : ℕ) → d < k → is_written (p d).args v ≡ true → update s.completed t true d ≡ true)
        → ((d : ℕ) → k ≤ d → is_written (p d).args v ≡ true → update s.completed t true d ≡ false)
        → apply (p t) s.memory v ≡ serial p m k v
    unfolding apply
    values_other v k nw before after = rw nw (
        inv.values v k (λ d lt wr. let q = before d lt wr in other d wr q)
          (λ d le wr. let q = after d le wr in other_open d q))
      where
        other :
            (d : ℕ)
            → is_written (p d).args v ≡ true
            → update s.completed t true d ≡ true
            → s.completed d ≡ true
        other d wr q = elim (ℕ_discrete t d) [
          | yes same ↦ let w : is_written (p t).args v ≡ true = rw same wr in absurd (ground arith)
          | no apart ↦ ground arith
        ]

        other_open : (d : ℕ) → update s.completed t true d ≡ false → s.completed d ≡ false
        other_open d q = ground (arith, q)

    execute-Inv :
        t < n
        → Inv (record { memory = apply (p t) s.memory; completed = update s.completed t true })
    execute-Inv lt = record {
      closed = IsClosed-update p s.completed inv.closed t ready;
      inside = λ d c. elim (ℕ_discrete t d) [
        | yes same ↦ rw (← same) lt
        | no other ↦ inv.inside d (ground arith)
      ];
      values = λ v k before after. elim (Bool-cases (is_written (p t).args v)) [
        | inl wr ↦ values_written v k wr before after
        | inr nw ↦ values_other v k nw before after
      ];
    }

  Reach-Inv : {k : ℕ} {s : State V} → Reach p n m k s → Inv s
  Reach-Inv here = Inv-start
  Reach-Inv (later {s} r (execute t lt unset ready)) = execute-Inv s (Reach-Inv r) t unset ready lt

  abbrev count_of : Bool → ℕ
  count_of true = 1
  count_of false = 0

  abbrev through : State V → ℕ
  through s = total n (λ t. count_of (s.completed t))

  Reach-through : {k : ℕ} {s : State V} → Reach p n m k s → through s ≡ k
  Reach-through here = total_zero n (λ t. 0) (λ t. refl)
  Reach-through (later {s} r (execute t lt unset ready)) = omega (
    arith,
    Reach-through r,
    total_bumped n t (λ d. count_of (s.completed d)) (λ d. count_of (update s.completed t true d))
        lt (ground (arith, unset)) (λ d ne. ground arith),
  )

  count_of-le : (b : Bool) → count_of b ≤ 1
  count_of-le true = omega arith
  count_of-le false = omega arith

  -- In every order that the prerequisites allow, no more steps are made than there are tasks, and a
  -- variable all of whose writers are through holds what it holds once the tasks have run one after the
  -- other, in the order in which the program makes them.
  pub serial_equivalence :
      {k : ℕ} {s : State V}
      → Reach p n m k s
      → (k ≤ n)
        × ((v : ℕ)
            → ((t : ℕ) → t < n → is_written (p t).args v ≡ true → s.completed t ≡ true)
            → s.memory v ≡ serial p m n v)
  serial_equivalence {k} {s} r =
      let inv = Reach-Inv r in
      (
        omega (
          arith,
          Reach-through r,
          total-le n 1 (λ t. count_of (s.completed t)) (λ t. count_of-le (s.completed t)),
        ),
        λ v all. inv.values v n all (λ d le wr. elim (Bool-cases (s.completed d)) [
          | inl c ↦ let q = inv.inside d c in absurd (omega arith)
          | inr c ↦ c
        ]),
      )

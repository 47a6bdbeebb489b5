-- ===== src/Runtime/Result/Lifetime.antt =====
-- The values in a `result_state` of oox/oox.h, counted as they are constructed and destroyed.
use oox_kirkon_fork.Base.{
  ℕ, ◌+◌, ◌≡◌, refl, Bool, true, false, Option, none, some, List, [], ◌∷◌, arith, if◌then◌else◌,
  Option-cases, inl, inr,
}
use oox_kirkon_fork.Runtime.Result.{ResultState, new_state, emplace, value, reset, consume}

pub data Op (A : Type 0) : Type 0 where
  emplacing : A → Op A
  resetting : Op A
  consuming : (by_reference : Bool) (default : A) → Op A

-- A state, with the constructors and destructors of values that ran in it.
pub record Tally (A : Type 0) : Type 0 where
  pub state : ResultState A
  pub constructed : ℕ
  pub destroyed : ℕ

module _ {A : Type 0} where
  abbrev pub new_tally : Tally A
  new_tally = record { state = new_state; constructed = 0; destroyed = 0 }

  -- One operation. A value is constructed where the bit goes up, and destroyed where `reset` finds
  -- it up.
  unfoldable pub perform : Op A → Tally A → Option (Tally A)
  unfolding emplace reset consume
  perform (emplacing a) t = elim (emplace a t.state) [
    | none ↦ none
    | some r ↦ some (record t { state = r; constructed = t.constructed + 1 })
  ]
  perform resetting t = some (record t {
    state = reset t.state;
    destroyed = if t.state.state_set then t.destroyed + 1 else t.destroyed;
  })
  perform (consuming b d) t = elim (consume b d t.state) [
    | none ↦ none
    | some (r, a) ↦ some (record t {
      state = r;
      constructed = if t.state.state_set then t.constructed else t.constructed + 1;
    })
  ]

  unfoldable pub perform_all : List (Op A) → Tally A → Option (Tally A)
  unfolding perform
  perform_all [] t = some t
  perform_all (o ∷ os) t = elim (perform o t) [ none ↦ none | some u ↦ perform_all os u ]

  abbrev pub is_there : Option A → Bool
  is_there none = false
  is_there (some a) = true

  -- The bit says whether there is a value, and the values constructed are those destroyed and it.
  pub record IsBalanced (t : Tally A) : Type 0 where
    pub bit_right : t.state.state_set ≡ is_there t.state.storage
    pub balance : t.constructed ≡ t.destroyed + (if t.state.state_set then 1 else 0)

  perform-IsBalanced :
      (o : Op A) (t u : Tally A) → IsBalanced t → perform o t ≡ some u → IsBalanced u
  unfolding perform
  perform-IsBalanced (emplacing a) t u h e = record {
    bit_right = ground (arith, h.bit_right, h.balance);
    balance = ground (arith, h.bit_right, h.balance);
  }
  perform-IsBalanced resetting t u h e = record {
    bit_right = ground (arith, h.bit_right, h.balance);
    balance = ground (arith, h.bit_right, h.balance);
  }
  perform-IsBalanced (consuming false d) t u h e = record {
    bit_right = ground (arith, h.bit_right, h.balance);
    balance = ground (arith, h.bit_right, h.balance);
  }
  perform-IsBalanced (consuming true d) t u h e = record {
    bit_right = ground (arith, h.bit_right, h.balance);
    balance = ground (arith, h.bit_right, h.balance);
  }

  perform_all-IsBalanced :
      (os : List (Op A)) (t u : Tally A) → IsBalanced t → perform_all os t ≡ some u → IsBalanced u
  unfolding perform_all
  perform_all-IsBalanced [] t u h e = record {
    bit_right = ground (arith, h.bit_right, h.balance);
    balance = ground (arith, h.bit_right, h.balance);
  }
  perform_all-IsBalanced (o ∷ os) t u h e = elim (Option-cases (perform o t)) [
    | inl stuck ↦ absurd (ground arith)
    | inr (v, q) ↦ perform_all-IsBalanced os v u (perform-IsBalanced o t v h q) (ground arith)
  ]

  -- In every run of operations from a new state in which no assertion fails, the bit says whether
  -- the storage holds a value, and once the destructor has reset the state, as many values have been
  -- destroyed as were constructed.
  pub values_balanced :
      (os : List (Op A)) (u w : Tally A)
      → perform_all os new_tally ≡ some u
      → perform resetting u ≡ some w
      → (u.state.state_set ≡ is_there u.state.storage)
        × (w.state.storage ≡ none)
        × (w.constructed ≡ w.destroyed)
  unfolding perform
  values_balanced os u w e f =
      let h =
        perform_all-IsBalanced os new_tally u (record { bit_right = refl; balance = refl }) e in
      (h.bit_right, ground (arith, h.bit_right), ground (arith, h.bit_right, h.balance))

  -- What a functor gets of a state whose bit is right: the value that is there, and no value is
  -- constructed; without one, an argument that it writes is given the default, and one that it only
  -- reads fails the assertion.
  pub consume_branches :
      (by_reference : Bool) (d : A) (r : ResultState A)
      → r.state_set ≡ is_there r.storage
      → consume by_reference d r ≡ (elim (value r) [
        | some a ↦ some (r, a)
        | none ↦
            if by_reference then some (record { state_set = true; storage = some d }, d) else none
      ])
  unfolding consume value
  consume_branches true d r h = ground arith
  consume_branches false d r h = ground arith

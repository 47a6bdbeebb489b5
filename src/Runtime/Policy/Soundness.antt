-- ===== src/Runtime/Policy/Soundness.antt =====
-- A program on oox/oox.h that compiles keeps its policies.
use oox_kirkon_fork.Base.{ℕ, ◌≡◌, Bool, true, false, not, ◌||◌, some, List, [], ◌∷◌, arith}
use oox_kirkon_fork.Runtime.Store.Execute.{Argument, plain, writes, reads}
use oox_kirkon_fork.Runtime.Dependence.{Program, tracks, is_written}
use oox_kirkon_fork.Runtime.Dependence.Trackers.{tracks-Tracked}
use oox_kirkon_fork.Runtime.Policy.{
  Policies, accepts, accepts_all, compiles, Call, reads_it, Fails, thrown, inherited,
}

accepts_all-writes :
    (policies : Policies) (self : Bool) (args : List Argument) (v : ℕ)
    → accepts_all policies self args ≡ true
    → is_written args v ≡ true
    → (policies v || not self) ≡ true
unfolding accepts
accepts_all-writes policies self [] v h w = cc
accepts_all-writes policies self (plain ∷ args) v h w = accepts_all-writes policies self args v h w
accepts_all-writes policies self (reads u a ∷ args) v h w =
    accepts_all-writes policies self args v (ground arith) w
accepts_all-writes policies self (writes u a ∷ args) v h w =
    ground (arith, accepts_all-writes policies self args v)

accepts_all-reads :
    (policies : Policies) (self : Bool) (args : List Argument) (v : ℕ)
    → accepts_all policies self args ≡ true
    → reads_it args v ≡ true
    → (self || not (policies v)) ≡ true
unfolding accepts
accepts_all-reads policies self [] v h w = cc
accepts_all-reads policies self (plain ∷ args) v h w = accepts_all-reads policies self args v h w
accepts_all-reads policies self (writes u a ∷ args) v h w =
    accepts_all-reads policies self args v (ground arith) w
accepts_all-reads policies self (reads u a ∷ args) v h w =
    ground (arith, accepts_all-reads policies self args v)

-- The calls compile, and a functor that is `noexcept` does not throw.
pub record IsTyped (policies : Policies) (call : ℕ → Call) {V : Type 0} (p : Program V)
    (throws : ℕ → Bool) : Type 0 where
  pub typed : (t : ℕ) → compiles policies (call t).can_throw (call t).is_noexcept (p t).args ≡ true
  pub quiet : (t : ℕ) → (call t).is_noexcept ≡ true → throws t ≡ false

module _ (policies : Policies) (call : ℕ → Call) {V : Type 0} (p : Program V) (throws : ℕ → Bool)
    (ok : IsTyped policies call p throws) where
  fails_can_throw : {t : ℕ} → Fails p throws t → (call t).can_throw ≡ true
  unfolding compiles
  fails_can_throw (thrown {t} e) = ground (arith, ok.typed t, ok.quiet t)
  fails_can_throw (inherited {t} {d} v r w f) =
      let ih = fails_can_throw f in
      let (lt, wr, since) = (tracks-Tracked p t v).written d w in
      let args_d : accepts_all policies (call d).can_throw (p d).args ≡ true =
        ground (arith, ok.typed d) in
      let args_t : accepts_all policies (call t).can_throw (p t).args ≡ true =
        ground (arith, ok.typed t) in
      let a = accepts_all-writes policies (call d).can_throw (p d).args v args_d wr in
      let b = accepts_all-reads policies (call t).can_throw (p t).args v args_t r in ground arith

  -- Let the static assertions hold of all calls of `run`, and functors that are `noexcept` not throw. Then
  -- a task that throws, or is given the exception of a task before, can throw by its policy, and so can
  -- each variable whose last writer it is: tasks and variables that cannot throw never see an exception.
  pub policies_sound :
      (t : ℕ)
      → Fails p throws t
      → ((call t).can_throw ≡ true)
        × ((n v : ℕ) → (tracks p n v).writer ≡ some t → policies v ≡ true)
  unfolding compiles
  policies_sound t f = (
    fails_can_throw f,
    λ n v w.
        let ih = fails_can_throw f in
        let (lt, wr, since) = (tracks-Tracked p n v).written t w in
        let args_t : accepts_all policies (call t).can_throw (p t).args ≡ true =
          ground (arith, ok.typed t) in
        let a = accepts_all-writes policies (call t).can_throw (p t).args v args_t wr in
        ground arith,
  )

-- ===== src/Runtime/Dependence/Closure.antt =====
-- The tasks that are through, in a run of a program on oox/oox.h: with a task, all earlier tasks that
-- it conflicts with.
use oox_kirkon_fork.Base.{
  ℕ, ◌<◌, ◌≡◌, Bool, true, false, some, List, [], ◌∷◌, All, arith, Bool-cases, Option-cases, inl,
  inr, ◌⊎◌, ℕ_discrete, dec_lt,
}
use oox_kirkon_fork.Base.Family.{update}
use oox_kirkon_fork.Runtime.Store.Execute.{Argument, plain, writes, reads}
use oox_kirkon_fork.Runtime.Dependence.{Program, tracks, prerequisites, is_written, is_used}
use oox_kirkon_fork.Runtime.Dependence.Trackers.{
  tracks-Tracked, waits_for_all-writer, waits_for_all-readers,
}

pub used_of_written :
    (rest : List Argument) (v : ℕ) → is_written rest v ≡ true → is_used rest v ≡ true
used_of_written [] v h = cc
used_of_written (plain ∷ rest) v h = used_of_written rest v h
used_of_written (reads u a ∷ rest) v h = ground (arith, used_of_written rest v h)
used_of_written (writes u a ∷ rest) v h = ground (arith, used_of_written rest v)

module _ {V : Type 0} (p : Program V) where
  -- Two tasks use the variable `v`, and one of them writes it.
  abbrev pub Conflict : (d t v : ℕ) → Type 0
  Conflict d t v =
      ((is_written (p d).args v ≡ true) × (is_used (p t).args v ≡ true))
      ⊎ ((is_used (p d).args v ≡ true) × (is_written (p t).args v ≡ true))

  -- What has been completed, with a task, has all earlier tasks in conflict with it.
  abbrev pub IsClosed : (ℕ → Bool) → Type 0
  IsClosed completed =
      (t d v : ℕ) → completed t ≡ true → d < t → Conflict d t v → completed d ≡ true

  module _ (completed : ℕ → Bool) (closed : IsClosed completed) (t : ℕ)
      (ready : All (λ d. completed d ≡ true) (prerequisites p t)) where
    -- The last writer before `t` is through, if `t` uses the variable.
    writer_done :
        (v w : ℕ)
        → is_used (p t).args v ≡ true
        → (tracks p t v).writer ≡ some w
        → completed w ≡ true
    unfolding prerequisites
    writer_done v w us e =
        waits_for_all-writer (λ d. completed d ≡ true) t v (p t).args (tracks p t) w ready us e

    -- So is every earlier task that writes it.
    writers_done :
        (v d : ℕ)
        → d < t
        → is_used (p t).args v ≡ true
        → is_written (p d).args v ≡ true
        → completed d ≡ true
    writers_done v d lt us wr =
        let k = tracks-Tracked p t v in
        elim (Option-cases (tracks p t v).writer) [
          | inl never ↦ let q = k.unwritten never d lt in absurd (ground arith)
          | inr (w, e) ↦
              let (wt, ww, since) = k.written w e in
              let through = writer_done v w us e in
              elim (ℕ_discrete d w) [
                | yes same ↦ rw same through
                | no other ↦ elim (dec_lt d w) [
                  | yes before ↦
                      closed w d v through before (inl (wr, used_of_written (p w).args v ww))
                  | no after ↦ let q = since d (omega arith) lt in absurd (ground arith)
                ]
              ]
        ]

    -- And every earlier task that reads it, if `t` writes it.
    readers_done :
        (v d : ℕ)
        → d < t
        → is_written (p t).args v ≡ true
        → is_used (p d).args v ≡ true
        → is_written (p d).args v ≡ false
        → completed d ≡ true
    unfolding prerequisites
    readers_done v d lt wr us nw =
        let k = tracks-Tracked p t v in
        let listed = λ (later : (w : ℕ) → (tracks p t v).writer ≡ some w → w < d).
          waits_for_all-readers (λ c. completed c ≡ true) t v (p t).args (tracks p t) d ready wr
            (k.read d lt us nw later) in
        elim (Option-cases (tracks p t v).writer) [
          | inl never ↦ listed (λ w e. absurd (ground arith))
          | inr (w, e) ↦
              let (wt, ww, since) = k.written w e in
              let through = writer_done v w (used_of_written (p t).args v wr) e in
              elim (dec_lt d w) [
                | yes before ↦ closed w d v through before (inr (us, ww))
                | no after ↦ elim (ℕ_discrete d w) [
                  | yes same ↦ rw same through
                  | no other ↦
                      listed (λ w' e'. let q : w ≡ w' = ground (arith, e, e') in omega arith)
                ]
              ]
        ]

    -- All that `t` conflicts with is through when its prerequisites are.
    pub conflicts_done : (d v : ℕ) → d < t → Conflict d t v → completed d ≡ true
    conflicts_done d v lt (inl (wr, us)) = writers_done v d lt us wr
    conflicts_done d v lt (inr (us, wr)) = elim (Bool-cases (is_written (p d).args v)) [
      | inl both ↦ writers_done v d lt (used_of_written (p t).args v wr) both
      | inr only ↦ readers_done v d lt wr us only
    ]

    -- The tasks that are through stay closed when `t` has run.
    pub IsClosed-update : IsClosed (update completed t true)
    IsClosed-update u d v c lt conflict = elim (ℕ_discrete t u) [
      | yes same ↦
          let e : completed d ≡ true = conflicts_done d v (omega arith) (rw (← same) at conflict) in
          ground arith
      | no other ↦
          let h : completed u ≡ true = ground arith in
          let e = closed u d v h lt conflict in ground arith
    ]

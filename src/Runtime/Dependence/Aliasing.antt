-- ===== src/Runtime/Dependence/Aliasing.antt =====
-- A task of oox/oox.h that is given a variable twice, and writes it, waits for itself.
use oox_kirkon_fork.Base.{
  ℕ, ◌≡◌, refl, ◌==◌, ◌&&◌, ◌||◌, Bool, true, false, List, [], ◌∷◌, ◌++◌, All, arith, Bool-cases,
  inl, inr, ℕ_discrete,
}
use oox_kirkon_fork.Runtime.Store.Execute.{Argument, plain, writes, reads}
use oox_kirkon_fork.Runtime.Dependence.{
  Tracks, note, waits_for, waits_for_all, Program, Values, State, execute, Reach, here, later,
  task_list, tracks, prerequisites, is_written, is_used,
}
use oox_kirkon_fork.Runtime.Dependence.Trackers.{
  All-right, waits_for_all-writer, waits_for_all-readers,
}

-- The variable is given twice, and written by one of the two.
abbrev pub is_aliased : List Argument → ℕ → Bool
is_aliased [] v = false
is_aliased (plain ∷ rest) v = is_aliased rest v
is_aliased (reads u a ∷ rest) v = (u == v && is_written rest v) || is_aliased rest v
is_aliased (writes u a ∷ rest) v = (u == v && is_used rest v) || is_aliased rest v

module _ (P : ℕ → Type 0) (t v : ℕ) where
  waits_for_itself :
      (rest : List Argument) (trs : Tracks)
      → is_aliased rest v ≡ true
      → All P (waits_for_all t rest trs)
      → P t
  unfolding waits_for_all waits_for note
  waits_for_itself [] trs e h = cc
  waits_for_itself (plain ∷ rest) trs e h = waits_for_itself rest (note t plain trs) e h
  waits_for_itself (reads u a ∷ rest) trs e h =
      let behind = All-right P (task_list (trs u).writer) _ h in
      elim (Bool-cases (u == v && is_written rest v)) [
        | inl twice ↦
            waits_for_all-readers P t v rest (note t (reads u a) trs) t behind (ground arith)
              (ground arith)
        | inr once ↦ waits_for_itself rest (note t (reads u a) trs) (ground arith) behind
      ]
  waits_for_itself (writes u a ∷ rest) trs e h =
      let behind = All-right P (task_list (trs u).writer ++ (trs u).readers) _ h in
      elim (Bool-cases (u == v && is_used rest v)) [
        | inl twice ↦
            waits_for_all-writer P t v rest (note t (writes u a) trs) t behind (ground arith)
              (ground arith)
        | inr once ↦ waits_for_itself rest (note t (writes u a) trs) (ground arith) behind
      ]

-- A task that is given a variable twice, and writes it by one of the two, never runs.
pub aliased_never_runs :
    {V : Type 0} (p : Program V) (n : ℕ) (m : Values V) (t v : ℕ) {k : ℕ} {s : State V}
    → Reach p n m k s
    → is_aliased (p t).args v ≡ true
    → s.completed t ≡ false
unfolding prerequisites
aliased_never_runs p n m t v here al = refl
aliased_never_runs p n m t v (later {s} r (execute u lt unset ready)) al =
    let ih = aliased_never_runs p n m t v r al in
    elim (ℕ_discrete u t) [
      | no other ↦ ground arith
      | yes same ↦
          let done =
            waits_for_itself (λ d. s.completed d ≡ true) u v (p u).args (tracks p u) (rw same al)
              ready in
          absurd (ground arith)
    ]

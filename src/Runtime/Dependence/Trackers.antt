-- ===== src/Runtime/Dependence/Trackers.antt =====
-- The last writer of a variable and its readers since, for the programs of oox/oox.h.
use oox_kirkon_fork.Base.{
  ℕ, zero, suc, ◌<◌, ◌≡◌, refl, ◌==◌, Bool, true, false, ◌||◌, Option, none, some, List, [], ◌∷◌,
  ◌++◌, if◌then◌else◌, All, arith, Bool-cases, inl, inr, ℕ_discrete, ◌∙◌, sym,
}
use oox_kirkon_fork.Runtime.Store.Execute.{Argument, plain, writes, reads}
use oox_kirkon_fork.Runtime.Dependence.{
  Track, Tracks, note, note_all, task_list, waits_for, waits_for_all, Program, tracks, is_written,
  is_used,
}

-- Whether a task is in a list.
abbrev pub has : ℕ → List ℕ → Bool
has d [] = false
has d (x ∷ xs) = x == d || has d xs

pub All-has : (P : ℕ → Type 0) (xs : List ℕ) (d : ℕ) → All P xs → has d xs ≡ true → P d
All-has P [] d h e = cc
All-has P (x ∷ xs) d h e = elim (Bool-cases (x == d)) [
  | inl same ↦ let q : x ≡ d = ground arith in rw q at h.0
  | inr other ↦ All-has P xs d h.1 (ground arith)
]

module _ (P : ℕ → Type 0) where
  All-left : (xs ys : List ℕ) → All P (xs ++ ys) → All P xs
  All-left [] ys h = tt
  All-left (x ∷ xs) ys h = (h.0, All-left xs ys h.1)

  pub All-right : (xs ys : List ℕ) → All P (xs ++ ys) → All P ys
  All-right [] ys h = h
  All-right (x ∷ xs) ys h = All-right xs ys h.1

note_all-writer :
    (t : ℕ) (rest : List Argument) (trs : Tracks) (v : ℕ)
    → (note_all t rest trs v).writer ≡ (if is_written rest v then some t else (trs v).writer)
unfolding note_all note
note_all-writer t [] trs v = refl
note_all-writer t (plain ∷ rest) trs v = note_all-writer t rest (note t plain trs) v
note_all-writer t (reads u a ∷ rest) trs v =
    ground (arith, note_all-writer t rest (note t (reads u a) trs) v)
note_all-writer t (writes u a ∷ rest) trs v =
    ground (arith, note_all-writer t rest (note t (writes u a) trs) v)

-- A reader stays, and a task that only reads becomes one.
note_all-readers :
    (t d : ℕ) (rest : List Argument) (trs : Tracks) (v : ℕ)
    → is_written rest v ≡ false
    → (has d (trs v).readers ≡ true → has d (note_all t rest trs v).readers ≡ true)
      × (is_used rest v ≡ true → has t (note_all t rest trs v).readers ≡ true)
unfolding note_all note
note_all-readers t d [] trs v w = (λ h. h, λ h. cc)
note_all-readers t d (plain ∷ rest) trs v w = note_all-readers t d rest (note t plain trs) v w
note_all-readers t d (reads u a ∷ rest) trs v w =
    let ih = note_all-readers t d rest (note t (reads u a) trs) v w in
    let ih' = note_all-readers t t rest (note t (reads u a) trs) v w in
    (λ h. ground (arith, ih.0), λ h. ground (arith, ih.1, ih'.0))
note_all-readers t d (writes u a ∷ rest) trs v w =
    let ih = note_all-readers t d rest (note t (writes u a) trs) v (ground arith) in
    (λ h. ground (arith, ih.0), λ h. ground (arith, ih.1))

-- The variable `v` before the task `t`: its writer is the last task that writes it, and its readers
-- are the tasks that use it since.
pub record Tracked {V : Type 0} (p : Program V) (t v : ℕ) (cell : Track) : Type 0 where
  pub written :
      (w : ℕ)
      → cell.writer ≡ some w
      → (w < t)
        × (is_written (p w).args v ≡ true)
        × ((d : ℕ) → w < d → d < t → is_written (p d).args v ≡ false)
  pub unwritten : cell.writer ≡ none → (d : ℕ) → d < t → is_written (p d).args v ≡ false
  pub read :
      (d : ℕ)
      → d < t
      → is_used (p d).args v ≡ true
      → is_written (p d).args v ≡ false
      → ((w : ℕ) → cell.writer ≡ some w → w < d)
      → has d cell.readers ≡ true

module _ {V : Type 0} (p : Program V) (t v : ℕ) where
  note_written :
      (tr : Track) → tr.writer ≡ some t → is_written (p t).args v ≡ true → Tracked p (suc t) v tr
  note_written tr e wr = record {
    written = λ w f.
        let same : t ≡ w = ground arith in
        (omega arith, rw same at wr, λ d lo hi. absurd (omega arith));
    unwritten = λ f. absurd (ground arith);
    read = λ d lt us nw later. absurd (let q = later t e in omega arith);
  }

  -- What holds of the tasks before `t` holds before `suc t`, if `t` does not write the variable.
  before_next :
      is_written (p t).args v ≡ false
      → (d : ℕ) → d < suc t
      → (d < t → is_written (p d).args v ≡ false)
      → is_written (p d).args v ≡ false
  before_next nw d hi below = elim (ℕ_discrete d t) [
    | yes same ↦ rw same nw
    | no other ↦ below (omega arith)
  ]

  note_unwritten :
      (tr tr' : Track)
      → Tracked p t v tr
      → is_written (p t).args v ≡ false
      → tr'.writer ≡ tr.writer
      → ((d : ℕ) → has d tr.readers ≡ true → has d tr'.readers ≡ true)
      → (is_used (p t).args v ≡ true → has t tr'.readers ≡ true)
      → Tracked p (suc t) v tr'
  note_unwritten tr tr' ih nw e keep fresh = record {
    written = λ w f.
        let (lt, wr, none_since) = ih.written w (sym e ∙ f) in
        (omega arith, wr, λ d lo hi. before_next nw d hi (none_since d lo));
    unwritten = λ f d hi. before_next nw d hi (ih.unwritten (sym e ∙ f) d);
    read = λ d hi us nw' later. elim (ℕ_discrete d t) [
      | yes same ↦ rw same (fresh (rw same at us))
      | no other ↦ keep d (ih.read d (omega arith) us nw' (λ w f. later w (e ∙ f)))
    ];
  }

pub tracks-Tracked : {V : Type 0} (p : Program V) (t v : ℕ) → Tracked p t v (tracks p t v)
unfolding tracks
tracks-Tracked p zero v = record {
  written = λ w e. cc;
  unwritten = λ e d lt. absurd (omega arith);
  read = λ d lt us nw later. absurd (omega arith);
}
tracks-Tracked p (suc t) v =
    let wr = note_all-writer t (p t).args (tracks p t) v in
    elim (Bool-cases (is_written (p t).args v)) [
      | inl writes_it ↦ note_written p t v (tracks p (suc t) v) (wr ∙ rw writes_it refl) writes_it
      | inr other ↦
          note_unwritten p t v (tracks p t v) (tracks p (suc t) v) (tracks-Tracked p t v) other
            (wr ∙ rw other refl) (λ d. (note_all-readers t d (p t).args (tracks p t) v other).0)
            (note_all-readers t t (p t).args (tracks p t) v other).1
    ]

-- The prerequisites hold the last writer of each variable that the task uses, and the readers since
-- of each that it writes.
module _ (P : ℕ → Type 0) (t v : ℕ) where
  All-task_list : (o : Option ℕ) (w : ℕ) → All P (task_list o) → o ≡ some w → P w
  All-task_list none w h e = cc
  All-task_list (some x) w h e = let q : x ≡ w = ground arith in rw q at h.0

  pub waits_for_all-writer :
      (rest : List Argument) (trs : Tracks) (w : ℕ)
      → All P (waits_for_all t rest trs)
      → is_used rest v ≡ true
      → (trs v).writer ≡ some w
      → P w
  unfolding waits_for_all waits_for note
  waits_for_all-writer [] trs w h us e = cc
  waits_for_all-writer (plain ∷ rest) trs w h us e =
      waits_for_all-writer rest (note t plain trs) w h us e
  waits_for_all-writer (reads u a ∷ rest) trs w h us e = elim (Bool-cases (u == v)) [
    | inl same ↦
        let q : u ≡ v = ground arith in
        let f : (trs u).writer ≡ some w = rw q e in
        All-task_list (trs u).writer w (All-left P (task_list (trs u).writer) _ h) f
    | inr other ↦
        waits_for_all-writer rest (note t (reads u a) trs) w
          (All-right P (task_list (trs u).writer) _ h) (ground arith) (ground arith)
  ]
  waits_for_all-writer (writes u a ∷ rest) trs w h us e = elim (Bool-cases (u == v)) [
    | inl same ↦
        let q : u ≡ v = ground arith in
        let f : (trs u).writer ≡ some w = rw q e in
        All-task_list (trs u).writer w
          (All-left P (task_list (trs u).writer) _
            (All-left P (task_list (trs u).writer ++ (trs u).readers) _ h))
          f
    | inr other ↦
        waits_for_all-writer rest (note t (writes u a) trs) w
          (All-right P (task_list (trs u).writer ++ (trs u).readers) _ h) (ground arith)
          (ground arith)
  ]

  pub waits_for_all-readers :
      (rest : List Argument) (trs : Tracks) (d : ℕ)
      → All P (waits_for_all t rest trs)
      → is_written rest v ≡ true
      → has d (trs v).readers ≡ true
      → P d
  unfolding waits_for_all waits_for note
  waits_for_all-readers [] trs d h wr e = cc
  waits_for_all-readers (plain ∷ rest) trs d h wr e =
      waits_for_all-readers rest (note t plain trs) d h wr e
  waits_for_all-readers (reads u a ∷ rest) trs d h wr e =
      waits_for_all-readers rest (note t (reads u a) trs) d
        (All-right P (task_list (trs u).writer) _ h) wr (ground arith)
  waits_for_all-readers (writes u a ∷ rest) trs d h wr e = elim (Bool-cases (u == v)) [
    | inl same ↦
        let q : u ≡ v = ground arith in
        let f : has d (trs u).readers ≡ true = rw q e in
        All-has P (trs u).readers d
          (All-right P (task_list (trs u).writer) _
            (All-left P (task_list (trs u).writer ++ (trs u).readers) _ h))
          f
    | inr other ↦
        waits_for_all-readers rest (note t (writes u a) trs) d
          (All-right P (task_list (trs u).writer ++ (trs u).readers) _ h) (ground arith)
          (ground arith)
  ]

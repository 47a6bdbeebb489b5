-- ===== src/Runtime/Life/Sharing.antt =====
-- Threads that share a task of oox/oox.h, each with references of its own, and call
-- `task_life::life_release` in any interleaving of its load and its subtraction.
use oox_kirkon_fork.Base.{
  ℕ, ◌+◌, ◌-◌, ◌≤◌, ◌<◌, ◌≡◌, ◌≢◌, ◌⊎◌, inl, ◌==◌, Bool, true, some, List, ◌∷◌, ◌++◌, arith, All,
  All-middle, All-replace, weigh, weigh-middle, ◌↔◌,
}
use oox_kirkon_fork.Runtime.Life.{life_add_count, life_subtract}

-- Where a thread stands, with its references.
pub data Holder : Type 0 where
  holding : (n : ℕ) → Holder
  differing : (n : ℕ) → Holder  -- the load of `life_release` found another number
  finished : (deletes : Bool) → Holder  -- the result of `life_release`

-- One step of a thread at the shared count.
pub data Move (life : ℕ) : Holder → ℕ → Holder → Type 0 where
  add :
      {n life' : ℕ} (m : ℕ)
      → life' ≡ life_add_count life m
      → Move life (holding n) life' (holding (n + m))
  load_equal : {n : ℕ} → life ≡ n → Move life (holding n) life (finished true)
  load_other : {n : ℕ} → life ≢ n → Move life (holding n) life (differing n)
  subtract :
      {n life' : ℕ} {deletes : Bool}
      → life_subtract life n ≡ some (life', deletes)
      → Move life (differing n) life' (finished deletes)

pub record System : Type 0 where
  pub life_count : ℕ
  pub holders : List Holder

pub data Step (s t : System) : Type 0 where
  pick :
      (pre post : List Holder) {h h' : Holder}
      → s.holders ≡ pre ++ h ∷ post
      → Move s.life_count h t.life_count h'
      → t.holders ≡ pre ++ h' ∷ post
      → Step s t

abbrev pub references : Holder → ℕ
references (holding n) = n
references (differing n) = n
references (finished d) = 0

abbrev pub deletes : Holder → ℕ
deletes (finished true) = 1
deletes _ = 0

-- A thread that has not called `life_release` to its end has a reference.
abbrev pub HasReference : Holder → Type 0
HasReference (holding n) = 0 < n
HasReference (differing n) = 0 < n
HasReference (finished d) = Unit

abbrev pub outstanding : System → ℕ
outstanding s = weigh references s.holders

abbrev pub deleters : System → ℕ
deleters s = weigh deletes s.holders

-- The start: every thread holds references, and the count is their number.
pub record IsStart (s : System) : Type 0 where
  pub each : All HasReference s.holders
  pub some_one : 0 < s.life_count
  pub counted : s.life_count ≡ outstanding s
  pub none_deletes : deleters s ≡ 0

pub data Reach (s : System) : System → Type 0 where
  here : Reach s s
  later : {t u : System} → Reach s t → Step t u → Reach s u

record Inv (s : System) : Type 0 where
  each : All HasReference s.holders
  balance :
      ((deleters s ≡ 0) × (s.life_count ≡ outstanding s) × (0 < s.life_count))
      ⊎ ((deleters s ≡ 1) × (outstanding s ≡ 0))

-- The balance of one thread against the others, before and after its move.
Balance : (life rest_refs rest_deletes : ℕ) → Holder → Type 0
Balance life refs dels h =
    ((dels + deletes h ≡ 0) × (life ≡ refs + references h) × (0 < life))
    ⊎ ((dels + deletes h ≡ 1) × (refs + references h ≡ 0))

Move-Balance :
    {life life' : ℕ} {h h' : Holder} (refs dels : ℕ)
    → Move life h life' h'
    → HasReference h
    → Balance life refs dels h
    → HasReference h' × Balance life' refs dels h'
unfolding Balance life_add_count life_subtract
Move-Balance refs dels (add m e) p b = (ground arith, ground arith)
Move-Balance refs dels (load_equal e) p b = (tt, ground arith)
Move-Balance refs dels (load_other e) p b = (p, ground arith)
Move-Balance {life} refs dels (subtract {n} e) p b = (tt, ground arith)

Step-Inv : {s t : System} → Step s t → Inv s → Inv t
unfolding Balance
Step-Inv {s} {t} (pick pre post {h} {h'} e mv e') inv =
    let refs = weigh references (pre ++ post) in
    let dels = weigh deletes (pre ++ post) in
    let r : outstanding s ≡ refs + references h = rw e (weigh-middle references pre h post) in
    let d : deleters s ≡ dels + deletes h = rw e (weigh-middle deletes pre h post) in
    let each : All HasReference (pre ++ h ∷ post) = rw e at inv.each in
    let b : Balance s.life_count refs dels h = rw (← r, ← d) inv.balance in
    let (p', b') = Move-Balance refs dels mv (All-middle HasReference pre h post each) b in
    let r' : outstanding t ≡ refs + references h' = rw e' (weigh-middle references pre h' post) in
    let d' : deleters t ≡ dels + deletes h' = rw e' (weigh-middle deletes pre h' post) in
    record {
      each = rw e' (All-replace HasReference pre h h' post each p');
      balance = rw (r', d') b';
    }

Reach-Inv : {s t : System} → Reach s t → IsStart s → Inv t
Reach-Inv here st = record {
  each = st.each;
  balance = inl (st.none_deletes, st.counted, st.some_one);
}
Reach-Inv (later r step) st = Step-Inv step (Reach-Inv r st)

-- At most one call of `life_release` has returned true, and one has exactly when no thread has
-- references any more.
deleted_by_last :
    {s t : System}
    → Reach s t
    → IsStart s
    → (deleters t ≤ 1) × ((deleters t ≡ 1) ↔ (outstanding t ≡ 0))
deleted_by_last {t} r st = let inv = Reach-Inv r st in ground (arith, inv.balance)

-- Before its last step, a thread finds at least its own references in the count, so that the
-- assertion of `life_release` holds, and no other thread has been told to delete the task.
subtract_safe :
    {s t : System} (pre post : List Holder) (n : ℕ)
    → Reach s t
    → IsStart s
    → t.holders ≡ pre ++ differing n ∷ post
    → ((r : ℕ × Bool) × (life_subtract t.life_count n ≡ some r)) × (deleters t ≡ 0)
unfolding life_subtract
subtract_safe {t} pre post n r st e =
    let inv = Reach-Inv r st in
    let w : outstanding t ≡ weigh references (pre ++ post) + n =
      rw e (weigh-middle references pre (differing n) post) in
    let p : 0 < n = All-middle HasReference pre (differing n) post (rw e at inv.each) in
    let z : (deleters t ≡ 0) × (n ≤ t.life_count) = ground (arith, inv.balance, w, p) in
    (((t.life_count - n, t.life_count - n == 0), ground (arith, z)), z.0)

-- From a start where every thread has references and the count is their number, in every state that is
-- reached: at most one call of `life_release` has returned true, and one has exactly when no thread has
-- references any more, so that the task is deleted once, by the last of them; and before its last step,
-- a thread finds at least its own references in the count, so that the assertion of `life_release`
-- holds, and no other thread has been told to delete the task.
pub deleted_once :
    {s t : System}
    → Reach s t
    → IsStart s
    → (deleters t ≤ 1)
      × ((deleters t ≡ 1) ↔ (outstanding t ≡ 0))
      × ((pre post : List Holder) (n : ℕ)
          → t.holders ≡ pre ++ differing n ∷ post
          → ((r : ℕ × Bool) × (life_subtract t.life_count n ≡ some r)) × (deleters t ≡ 0))
deleted_once {s} {t} r st =
    let one = deleted_by_last r st in
    (one.0, one.1, λ pre post n e. subtract_safe pre post n r st e)

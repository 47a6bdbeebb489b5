-- ===== src/Runtime/Store/Execute/Readers.antt =====
-- A task of oox/oox.h with any number of readers of its result and a next writer: how they are made.
use oox_kirkon_fork.Base.{ℕ, suc, ◌≡◌, ◌∙◌, ◌==◌, some, false, List, [], ◌∷◌, All, arith}
use oox_kirkon_fork.Runtime.Node.{TaskNode, Arc, live, edge, flow_back, unknown, writer}
use oox_kirkon_fork.Runtime.Store.{Store, Cmd, pure, ◌>>◌}
use oox_kirkon_fork.Runtime.Store.Execute.{value, reads, writes, run}
use oox_kirkon_fork.Runtime.Store.Execute.Lifecycle.{Ends}
use oox_kirkon_fork.Runtime.Store.Execute.Steps.{
  Ends-bind, Ends-three, Ends-map, slot, node, RefersTo,
}
use oox_kirkon_fork.Runtime.Store.Execute.Apart.{
  IsApart, AreApart, apart_sym, All-zip, IsApart-none, rev_onto, All-rev_onto,
}

-- A reader of the variable `r` for each address in the list, the result of `u` in the variable `q u`.
unfoldable pub make_readers : (f : ℕ) (q : ℕ → ℕ) (r spare : ℕ) → List ℕ → Cmd (Unit {0})
unfolding run
make_readers f q r spare [] = pure tt
make_readers f q r spare (u ∷ us) = do
  run f u (q u) value (reads r spare ∷ [])
  make_readers f q r spare us

-- A producer `t` with its result in `r`, the readers, and a task `w` that writes the result.
pub make_all : (f t r : ℕ) (q : ℕ → ℕ) (us : List ℕ) (w spare : ℕ) → Cmd (Unit {0})
unfolding run make_readers
make_all f t r q us w spare = do
  run f t r value []
  make_readers f q r spare us
  run f w (q w) value (writes r spare ∷ [])

-- The arcs of readers, the latest first.
abbrev pub arcs_of : List ℕ → List Arc
arcs_of [] = []
arcs_of (u ∷ us) = edge flow_back u 0 ∷ arcs_of us

abbrev pub unread : TaskNode
unread = node 3 (live []) 1 (slot unknown 1 ∷ [])

-- The readers in the list have been made, the latest first.
abbrev pub Made : (t r : ℕ) → List ℕ → (before : List ℕ) → Store → Type 0
Made t r us before s =
    (s.task t ≡ some (node 3 (live (arcs_of us)) 0 (slot unknown 1 ∷ [])))
    × RefersTo (s.var r) t
    × (s.spawned ≡ before)
    × All (λ u. s.task u ≡ some unread) us

producer-Made :
    (f t r : ℕ) (s : Store) → Ends (run (suc (suc f)) t r value [] s) (Made t r [] (t ∷ s.spawned))
unfolding run
producer-Made f t r s = ground arith

reader-made :
    (f t r q u spare : ℕ) (arcs : List Arc) (s : Store)
    → (t == u) ≡ false
    → (r == q) ≡ false
    → s.task t ≡ some (node 3 (live arcs) 0 (slot unknown 1 ∷ []))
    → RefersTo (s.var r) t
    → Ends (run (suc (suc f)) u q value (reads r spare ∷ []) s) (λ e.
      (e.task t ≡ some (node 3 (live (edge flow_back u 0 ∷ arcs)) 0 (slot unknown 1 ∷ [])))
      × (e.task u ≡ some unread)
      × RefersTo (e.var r) t
      × (e.spawned ≡ s.spawned)
      × ((x : ℕ) → (t == x) ≡ false → (u == x) ≡ false → e.task x ≡ s.task x))
unfolding run
reader-made f t r q u spare arcs s tu rq ht hv = ground arith

writer-made :
    (f t r q w spare : ℕ) (arcs : List Arc) (s : Store)
    → (t == w) ≡ false
    → (r == q) ≡ false
    → s.task t ≡ some (node 3 (live arcs) 0 (slot unknown 1 ∷ []))
    → RefersTo (s.var r) t
    → Ends (run (suc (suc f)) w q value (writes r spare ∷ []) s) (λ e.
      (e.task t ≡ some (node 3 (live arcs) 0 (slot (writer w) 1 ∷ [])))
      × (e.task w ≡ some (node 4 (live []) 1 (slot unknown 1 ∷ slot unknown 1 ∷ [])))
      × (e.spawned ≡ s.spawned)
      × ((x : ℕ) → (t == x) ≡ false → (w == x) ≡ false → e.task x ≡ s.task x))
unfolding run
writer-made f t r q w spare arcs s tw rq ht hv = ground arith

-- What another command leaves of the tasks in the list.
pub kept_tasks :
    (t u : ℕ) (n : TaskNode) (s e : Store) (us : List ℕ)
    → ((x : ℕ) → (t == x) ≡ false → (u == x) ≡ false → e.task x ≡ s.task x)
    → IsApart t us
    → IsApart u us
    → All (λ x. s.task x ≡ some n) us
    → All (λ x. e.task x ≡ some n) us
kept_tasks t u n s e [] frame a b h = tt
kept_tasks t u n s e (x ∷ us) frame a b h =
    (frame x a.0 b.0 ∙ h.0, kept_tasks t u n s e us frame a.1 b.1 h.1)

module _ (f t r : ℕ) (q : ℕ → ℕ) (spare : ℕ) (before : List ℕ) where
  make_readers-Made :
      (us ms : List ℕ) (s : Store)
      → Made t r ms before s
      → IsApart t us
      → IsApart t ms
      → All (λ u. (r == q u) ≡ false) us
      → AreApart us
      → All (λ u. IsApart u ms) us
      → Ends (make_readers (suc (suc f)) q r spare us s) (Made t r (rev_onto us ms) before)
  unfolding make_readers
  make_readers-Made [] ms s h a b rq d c = h
  make_readers-Made (u ∷ us) ms s h a b rq d c =
      Ends-bind (Made t r (u ∷ ms) before) (Made t r (rev_onto us (u ∷ ms)) before)
        (run (suc (suc f)) u (q u) value (reads r spare ∷ []))
        (make_readers (suc (suc f)) q r spare us) s
        (Ends-map _ (Made t r (u ∷ ms) before) _
          (reader-made f t r (q u) u spare (arcs_of ms) s a.0 rq.0 h.0 h.1)
          (λ e k. (k.0, k.2, k.3 ∙ h.2, (k.1, kept_tasks t u unread s e ms k.4 b c.0 h.3))))
        (λ e k.
          make_readers-Made us (u ∷ ms) e k a.1 (a.0, b) rq.1 d.1
            (All-zip (λ v. (u == v) ≡ false) (λ v. IsApart v ms) (λ v. IsApart v (u ∷ ms)) us
              (λ v g i. (apart_sym u v g, i)) d.0 c.1))

-- The producer and the readers wait, and the writer behind them.
abbrev pub Published : (t w : ℕ) → List ℕ → (before : List ℕ) → Store → Type 0
Published t w us before s =
    (s.task t ≡ some (node 3 (live (arcs_of us)) 0 (slot (writer w) 1 ∷ [])))
    × (s.task w ≡ some (node 4 (live []) 1 (slot unknown 1 ∷ slot unknown 1 ∷ [])))
    × (s.spawned ≡ before)
    × All (λ u. s.task u ≡ some unread) us

-- All addresses are different, and the result is none of the other results.
pub record AreDifferent (t r : ℕ) (q : ℕ → ℕ) (us : List ℕ) (w : ℕ) : Type 0 where
  pub producer_apart : IsApart t us
  pub next_apart : (t == w) ≡ false
  pub writer_apart : IsApart w us
  pub readers_apart : AreApart us
  pub results_apart : All (λ u. (r == q u) ≡ false) us
  pub last_apart : (r == q w) ≡ false

pub make_all-Published :
    (f t r : ℕ) (q : ℕ → ℕ) (us : List ℕ) (w spare : ℕ) (s : Store)
    → AreDifferent t r q us w
    → Ends
        (make_all (suc (suc f)) t r q us w spare s)
        (Published t w (rev_onto us []) (t ∷ s.spawned))
unfolding make_all
make_all-Published f t r q us w spare s d =
    let ms = rev_onto us [] in
    let before = t ∷ s.spawned in
    Ends-three (Made t r [] before) (Made t r ms before) (Published t w ms before)
      (run (suc (suc f)) t r value []) (make_readers (suc (suc f)) q r spare us)
      (run (suc (suc f)) w (q w) value (writes r spare ∷ [])) s (producer-Made f t r s)
      (λ e h.
        make_readers-Made f t r q spare before us [] e h d.producer_apart tt d.results_apart
          d.readers_apart (IsApart-none us))
      (λ e h.
        Ends-map _ (Published t w ms before) _
          (writer-made f t r (q w) w spare (arcs_of ms) e d.next_apart d.last_apart h.0 h.1)
          (λ e' k. (
            k.0,
            k.1,
            k.2 ∙ h.2,
            kept_tasks t w unread e e' ms k.3
                (All-rev_onto (λ u. (t == u) ≡ false) us [] d.producer_apart tt)
                (All-rev_onto (λ u. (w == u) ≡ false) us [] d.writer_apart tt) h.3,
          )))

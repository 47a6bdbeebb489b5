-- ===== src/Runtime/Store/Execute/Steps.antt =====
-- What a command of oox/oox.h ends in, step by step.
use oox_kirkon_fork.Base.{ℕ, ◌≡◌, none, some, List, false, arith}
use oox_kirkon_fork.Runtime.Node.{TaskNode, Var, Head, NextWriter, OutputNode}
use oox_kirkon_fork.Runtime.Store.{Store, Result, ok, fault, Cmd, ◌>>=◌, ◌>>◌, load}
use oox_kirkon_fork.Runtime.Store.Execute.{allocate_if_empty}
use oox_kirkon_fork.Runtime.Store.Execute.Lifecycle.{Ends, Leaves}

pub Ends-bind :
    (P Q : Store → Type 0) (m k : Cmd (Unit {0})) (s : Store)
    → Ends (m s) P
    → ((s' : Store) → P s' → Ends (k s') Q)
    → Ends ((m >> k) s) Q
Ends-bind P Q m k s e h = by_result (m s) e
  where
    by_result :
        (x : Result (Unit {0})) → Ends x P → Ends (elim x [ ok a s' ↦ k s' | fault b ↦ fault b ]) Q
    by_result (ok a s') e' = h s' e'
    by_result (fault b) e' = e'

pub Ends-three :
    (P Q R : Store → Type 0) (k m n : Cmd (Unit {0})) (s : Store)
    → Ends (k s) P
    → ((s' : Store) → P s' → Ends (m s') Q)
    → ((s' : Store) → Q s' → Ends (n s') R)
    → Ends ((k >> (m >> n)) s) R
Ends-three P Q R k m n s e g h =
    Ends-bind P R k (m >> n) s e (λ s' a. Ends-bind Q R m n s' (g s' a) h)

pub Ends-Leaves :
    {B : Type 0} (P Q : Store → Type 0) (m : Cmd (Unit {0})) (k : Cmd B) (s : Store) (b : B)
    → Ends (m s) P
    → ((s' : Store) → P s' → Leaves (k s') b Q)
    → Leaves ((m >> k) s) b Q
Ends-Leaves {B} P Q m k s b e h = by_result (m s) e
  where
    by_result :
        (x : Result (Unit {0}))
        → Ends x P
        → Leaves (elim x [ ok a s' ↦ k s' | fault c ↦ fault c ]) b Q
    by_result (ok a s') e' = h s' e'
    by_result (fault c) e' = e'

pub Leaves-Ends :
    {B : Type 0} (P Q : Store → Type 0) (m : Cmd B) (k : B → Cmd (Unit {0})) (s : Store) (b : B)
    → Leaves (m s) b P
    → ((s' : Store) → P s' → Ends (k b s') Q)
    → Ends ((m >>= k) s) Q
Leaves-Ends {B} P Q m k s b e h = by_result (m s) e
  where
    by_result :
        (x : Result B) → Leaves x b P → Ends (elim x [ ok a s' ↦ k a s' | fault c ↦ fault c ]) Q
    by_result (ok a s') e' = rw e'.0 (h s' e'.1)
    by_result (fault c) e' = e'

pub Leaves-bind :
    {A B : Type 0} (P Q : Store → Type 0) (m : Cmd A) (k : A → Cmd B) (s : Store) (a : A) (b : B)
    → Leaves (m s) a P
    → ((s' : Store) → P s' → Leaves (k a s') b Q)
    → Leaves ((m >>= k) s) b Q
Leaves-bind {A} P Q m k s a b e h = by_result (m s) e
  where
    by_result :
        (x : Result A) → Leaves x a P → Leaves (elim x [ ok a s' ↦ k a s' | fault c ↦ fault c ]) b Q
    by_result (ok a' s') e' = rw e'.0 (h s' e'.1)
    by_result (fault c) e' = e'

pub Ends-map :
    (P Q : Store → Type 0) (x : Result (Unit {0})) → Ends x P → ((s : Store) → P s → Q s) → Ends x Q
Ends-map P Q (ok a s) e h = h s e
Ends-map P Q (fault b) e h = e

pub Leaves-map :
    {B : Type 0} (P Q : Store → Type 0) (x : Result B) (b : B)
    → Leaves x b P
    → ((s : Store) → P s → Q s)
    → Leaves x b Q
Leaves-map P Q (ok a s) b e h = (e.0, h s e.1)
Leaves-map P Q (fault c) b e h = e

pub Leaves-nested :
    {A B : Type 0} (P Q : Store → Type 0) (m : Cmd A) (k : A → Cmd B) (l : B → Cmd (Unit {0}))
    (n : Unit {0} → Cmd (Unit {0})) (s : Store) (a : A)
    → Leaves (m s) a P
    → ((s' : Store) → P s' → Ends ((k a >>= l >>= n) s') Q)
    → Ends ((m >>= k >>= l >>= n) s) Q
Leaves-nested {A} {B} P Q m k l n s a e h = by_result (m s) e
  where
    then_rest : Result B → Result (Unit {0})
    then_rest x =
        elim (elim x as (λ y. Result (Unit {0})) [ ok b s' ↦ l b s' | fault c ↦ fault c ])
          as (λ y. Result (Unit {0})) [ ok b s' ↦ n b s' | fault c ↦ fault c ]

    by_result :
        (x : Result A)
        → Leaves x a P
        → Ends (then_rest (elim x [ ok a' s' ↦ k a' s' | fault c ↦ fault c ])) Q
    by_result (ok a' s') e' = rw e'.0 (h s' e'.1)
    by_result (fault c) e' = e'

pub Ends-left :
    (P Q : Store → Type 0) (m k n : Cmd (Unit {0})) (s : Store)
    → Ends (m s) P
    → ((s' : Store) → P s' → Ends ((k >> n) s') Q)
    → Ends ((m >> k >> n) s) Q
Ends-left P Q m k n s e h = by_result (m s) e
  where
    by_result :
        (x : Result (Unit {0}))
        → Ends x P
        → Ends
            (elim (elim x as (λ y. Result (Unit {0})) [ ok a s' ↦ k s' | fault c ↦ fault c ])
              as (λ y. Result (Unit {0})) [ ok a s' ↦ n s' | fault c ↦ fault c ])
            Q
    by_result (ok a s') e' = h s' e'
    by_result (fault c) e' = e'

pub loaded :
    (t : ℕ) (n : TaskNode) (s : Store) → s.task t ≡ some n → Leaves (load t s) n (λ e. e ≡ s)
unfolding load
loaded t n s ht = ground arith

-- A variable that has a task is left as it is.
pub not_empty :
    (P : Store → Type 0) (s : Store) (v spare c : ℕ)
    → (s.var v).current_task ≡ some c
    → P s
    → Ends (allocate_if_empty v spare s) P
unfolding allocate_if_empty
not_empty P s v spare c e h = rw e h

abbrev pub slot : NextWriter → ℕ → OutputNode
slot d k = record { next_writer = d; countdown = k }

abbrev pub node : ℕ → Head → ℕ → List OutputNode → TaskNode
node life head start outs = record {
  life_count = life;
  head = head;
  start_count = start;
  output_nodes = outs;
  forwarded = none;
}

abbrev pub RefersTo : Var → ℕ → Type 0
RefersTo x t =
    (x.current_task ≡ some t)
    × (x.current_port ≡ 0)
    × (x.is_forwarded ≡ false)
    × (x.is_deferred ≡ false)

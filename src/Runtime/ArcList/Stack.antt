-- ===== src/Runtime/ArcList/Stack.antt =====
-- `arc_list::add_arc` of oox/oox.h as it runs: threads push arcs by compare-exchange on the head,
-- while another thread closes the list by an exchange.
use oox_kirkon_fork.Base.{
  ℕ, ◌≡◌, refl, ◌≢◌, ◌⊎◌, inl, inr, sym, ◌∙◌, Option-cases, ◌==◌, Bool, true, false, ◌||◌, Option,
  none, some, List, [], ◌∷◌, arith,
}
use oox_kirkon_fork.Base.Family.{update}

-- A word of the list: `nullptr`, the address of arc `i`, or one with a completion tag.
pub data Word : Type 0 where
  null : Word
  at : (i : ℕ) → Word
  tagged : Word

-- Where the thread that adds arc `i` stands in `add_arc (i)`, with the head `j` that it loaded.
pub data Adder : Type 0 where
  top : Adder
  loaded : (j : Word) → Adder
  linked : (j : Word) → Adder
  returned : (success : Bool) → Adder

pub record System : Type 0 where
  pub head : Word
  pub next : ℕ → Word
  pub adder : ℕ → Adder
  pub taken : Option Word  -- what the exchange that closed the list gave

pub data Step (s : System) : System → Type 0 where
  refuse :
      (i : ℕ)
      → s.adder i ≡ top
      → s.head ≡ tagged
      → Step s (record s { adder = update s.adder i (returned false) })
  load :
      (i : ℕ)
      → s.adder i ≡ top
      → s.head ≢ tagged
      → Step s (record s { adder = update s.adder i (loaded s.head) })
  link :
      (i : ℕ) {j : Word}
      → s.adder i ≡ loaded j
      → Step s (record s { next = update s.next i j; adder = update s.adder i (linked j) })
  exchange :
      (i : ℕ) {j : Word}
      → s.adder i ≡ linked j
      → s.head ≡ j
      → Step s (record s { head = at i; adder = update s.adder i (returned true) })
  -- The weak compare-exchange may fail at any head.
  fail :
      (i : ℕ) {j : Word} → s.adder i ≡ linked j → Step s (record s { adder = update s.adder i top })
  close : s.head ≢ tagged → Step s (record s { head = tagged; taken = some s.head })

abbrev pub init : System
init = record { head = null; next = λ _. null; adder = λ _. top; taken = none }

pub data Reach : System → Type 0 where
  start : Reach init
  later : {s t : System} → Reach s → Step s t → Reach t

abbrev pub has : ℕ → List ℕ → Bool
has i [] = false
has i (j ∷ js) = (j == i) || has i js

-- From the word `w` the links lead through the arcs of the list, all different, to `nullptr`.
abbrev pub Chain : (ℕ → Word) → Word → List ℕ → Type 0
Chain next w [] = w ≡ null
Chain next w (i ∷ is) = (w ≡ at i) × (has i is ≡ false) × Chain next (next i) is

abbrev pub is_added : Adder → Bool
is_added (returned true) = true
is_added _ = false

-- The first word of the list: the head, or what the closing exchange took.
abbrev pub first : System → Word
first s = elim s.taken [ none ↦ s.head | some w ↦ w ]

Chain-update :
    (next : ℕ → Word) (w : Word) (is : List ℕ) (i : ℕ) (v : Word)
    → has i is ≡ false
    → Chain next w is
    → Chain (update next i v) w is
Chain-update next w [] i v out c = c
Chain-update next w (j ∷ js) i v out c =
    let same : update next i v j ≡ next j = ground arith in
    (c.0, c.1, rw same (Chain-update next (next j) js i v (ground arith) c.2))

record Inv (s : System) : Type 0 where
  arcs : List ℕ
  chain : Chain s.next (first s) arcs
  members : (i : ℕ) → has i arcs ≡ is_added (s.adder i)
  links : (i : ℕ) (j : Word) → s.adder i ≡ linked j → s.next i ≡ j
  live : s.taken ≡ none → s.head ≢ tagged
  closed : (w : Word) → s.taken ≡ some w → s.head ≡ tagged
  untagged : (i : ℕ) (j : Word) → (s.adder i ≡ loaded j) ⊎ (s.adder i ≡ linked j) → j ≢ tagged
  refused : (i : ℕ) → s.adder i ≡ returned false → s.head ≡ tagged

Inv-init : Inv init
Inv-init = record {
  arcs = [];
  chain = refl;
  members = λ i. refl;
  links = λ i j e. cc;
  live = λ e. cc;
  closed = λ w e. cc;
  untagged = λ i j e. ground arith;
  refused = λ i e. cc;
}

-- While the head is not tagged, nothing has been taken.
open-first : {s : System} → Inv s → s.head ≢ tagged → (s.taken ≡ none) × (first s ≡ s.head)
open-first {s} inv untag = elim (Option-cases s.taken) [
  | inl unset ↦ (unset, rw unset)
  | inr (w, e) ↦ absurd (untag (inv.closed w e))
]

Step-Inv : {s t : System} → Step s t → Inv s → Inv t
Step-Inv {s} (refuse i e tag) inv = record {
  arcs = inv.arcs;
  chain = inv.chain;
  members = λ k. ground (arith, inv.members k);
  links = λ k j q. ground (arith, inv.links k j);
  live = inv.live;
  closed = inv.closed;
  untagged = λ k j q. ground (arith, inv.untagged k j);
  refused = λ k q. tag;
}
Step-Inv {s} (load i e untag) inv = record {
  arcs = inv.arcs;
  chain = inv.chain;
  members = λ k. ground (arith, inv.members k);
  links = λ k j q. ground (arith, inv.links k j);
  live = inv.live;
  closed = inv.closed;
  untagged = λ k j q. ground (arith, inv.untagged k j);
  refused = λ k q. ground (arith, inv.refused k);
}
Step-Inv {s} (link i {j} e) inv = record {
  arcs = inv.arcs;
  chain = Chain-update s.next (first s) inv.arcs i j (ground (arith, inv.members i)) inv.chain;
  members = λ k. ground (arith, inv.members k);
  links = λ k l q. ground (arith, inv.links k l);
  live = inv.live;
  closed = inv.closed;
  untagged = λ k l q. ground (arith, inv.untagged k l, inv.untagged i l);
  refused = λ k q. ground (arith, inv.refused k);
}
Step-Inv {s} (exchange i {j} e same) inv = record {
  arcs = i ∷ inv.arcs;
  chain =
      let (unset, f) = open-first inv (rw same (inv.untagged i j (inr e))) in
      (rw unset refl, ground (arith, inv.members i), rw (inv.links i j e, ← same, ← f) inv.chain);
  members = λ k. ground (arith, inv.members k);
  links = λ k l q. ground (arith, inv.links k l);
  live = λ q. cc;
  closed = λ w q. absurd (inv.untagged i j (inr e) (sym same ∙ inv.closed w q));
  untagged = λ k l q. ground (arith, inv.untagged k l);
  refused = λ k q. absurd (inv.untagged i j (inr e) (sym same ∙ inv.refused k (ground arith)));
}
Step-Inv {s} (fail i {j} e) inv = record {
  arcs = inv.arcs;
  chain = inv.chain;
  members = λ k. ground (arith, inv.members k);
  links = λ k l q. ground (arith, inv.links k l);
  live = inv.live;
  closed = inv.closed;
  untagged = λ k l q. ground (arith, inv.untagged k l);
  refused = λ k q. ground (arith, inv.refused k);
}
Step-Inv {s} (close up) inv = record {
  arcs = inv.arcs;
  chain = rw (open-first inv up).1 at inv.chain;
  members = inv.members;
  links = inv.links;
  live = λ q. cc;
  closed = λ w q. refl;
  untagged = inv.untagged;
  refused = λ k q. refl;
}

Reach-Inv : {s : System} → Reach s → Inv s
Reach-Inv start = Inv-init
Reach-Inv (later r st) = Step-Inv st (Reach-Inv r)

-- In every state that concurrent calls of `add_arc` and the closing exchange reach: the word that the
-- exchange took leads to a list of different arcs, and these are exactly the arcs for which `add_arc`
-- has returned true, so that none is lost and none is delivered twice; `add_arc` has returned false
-- only if the list is closed; and as long as it is not, the head leads to exactly the arcs that were
-- added.
pub arcs_delivered :
    {s : System}
    → Reach s
    → ((w : Word)
        → s.taken ≡ some w
        → (arcs : List ℕ) × Chain s.next w arcs × ((i : ℕ) → has i arcs ≡ is_added (s.adder i)))
      × ((i : ℕ) → s.adder i ≡ returned false → s.head ≡ tagged)
      × (s.head ≢ tagged
          → (arcs : List ℕ) × Chain s.next s.head arcs
            × ((i : ℕ) → has i arcs ≡ is_added (s.adder i)))
arcs_delivered {s} r =
    let inv = Reach-Inv r in
    (
      λ w e. let f : first s ≡ w = rw e in (inv.arcs, rw (← f) inv.chain, inv.members),
      inv.refused,
      λ untag. (inv.arcs, rw (← (open-first inv untag).1) inv.chain, inv.members),
    )

-- ===== src/Examples/Arcs.antt =====
-- The theorems on the arc list of oox/oox.h at a run of two threads, one of which comes too late.
use oox_kirkon_fork.Base.{ℕ, ◌≡◌, refl, ◌≢◌, false, true, some, List}
use oox_kirkon_fork.Base.Family.{update}
use oox_kirkon_fork.Runtime.ArcList.Stack.{
  null, at, tagged, loaded, linked, returned, top, System, init, Reach, Word, start, later, load,
  link, exchange, close, fail, refuse, has, Chain, is_added, arcs_delivered,
}

-- Both threads have loaded the empty head, and the first has pushed its arc.
abbrev pushed : System
pushed = record {
  head = at 0;
  next = update init.next 0 null;
  adder =
      update (update (update (update init.adder 0 (loaded null)) 1 (loaded null)) 0 (linked null)) 0
        (returned true);
  taken = init.taken;
}

to_pushed : Reach pushed
to_pushed =
    let r1 = later start (load 0 refl (λ e. cc)) in
    let r2 = later r1 (load 1 refl (λ e. cc)) in
    let r3 = later r2 (link 0 refl) in later r3 (exchange 0 refl refl)

-- The list is closed, and the second thread finds it so when it tries again.
abbrev closed : System
closed = record {
  head = tagged;
  next = update pushed.next 1 null;
  adder = update (update (update pushed.adder 1 (linked null)) 1 top) 1 (returned false);
  taken = some (at 0);
}

to_closed : Reach closed
to_closed =
    let r1 = later to_pushed (close (λ e. cc)) in
    let r2 = later r1 (link 1 refl) in
    let r3 = later r2 (fail 1 refl) in later r3 (refuse 1 refl refl)

arcs_delivered_example :
    ((w : Word)
      → closed.taken ≡ some w
      → (arcs : List ℕ) × Chain closed.next w arcs
        × ((i : ℕ) → has i arcs ≡ is_added (closed.adder i)))
    × ((i : ℕ) → closed.adder i ≡ returned false → closed.head ≡ tagged)
    × (closed.head ≢ tagged
        → (arcs : List ℕ) × Chain closed.next closed.head arcs
          × ((i : ℕ) → has i arcs ≡ is_added (closed.adder i)))
arcs_delivered_example = arcs_delivered to_closed

-- ===== src/Aio/System/Safety.antt =====
-- The reachable states of a context of linux_aio.
use caio.Base.{
  ◌==◌, if◌then◌else◌, length, count, Ref, Counts, ◌+◌, ◌≡◌, sym, ap, subst, false, none, [], arith,
}
use caio.Aio.Events.{Python}
use caio.Aio.Events.Delivery.{Keeps, keys}
use caio.Aio.Events.Cancel.{cancel-fails}
use caio.Aio.System.{
  System, Step, submits, completes, collects, cancels, fails_to_cancel, Reach, here, next,
}
use caio.Aio.System.Invariant.{
  flight, holder, places, in_flight, InvAt, Inv, submits-Inv, completes-Inv, collects-Inv,
  cancels-Inv,
}

Step-Inv :
    (py : Python) (base : Counts) (c : Ref) (s t : System)
    → Keeps py
    → Step py c s t
    → Inv base c s
    → Inv base c t
Step-Inv py base c s _ keeps (submits io_submit args ps opened typed) inv =
    submits-Inv base c s.world s.working s.made inv io_submit args ps opened typed
Step-Inv py base c s _ keeps (completes js ks p res split) inv =
    completes-Inv base c s.world s.working s.made inv js ks p res split
Step-Inv py base c s _ keeps (collects k args es rest gives few split) inv =
    collects-Inv base c s.world s.working s.made inv k py args es rest keeps gives split
Step-Inv py base c s _ keeps (cancels k js ks p res opened split done) inv =
    cancels-Inv base c s.world s.working s.made inv k py js ks p res keeps opened split done
Step-Inv py base c s _ keeps (fails_to_cancel k p e opened failing) inv =
    subst (λ w. InvAt base c w s.working s.made)
      (sym (cancel-fails k py c p e s.world opened failing)) inv

-- Operations that were never claimed, and nothing with the kernel.
pub record Initial (s : System) : Type 0 where
  pub no_work : s.working ≡ []
  pub no_events : s.made ≡ []
  pub unclaimed_ops : (p : Ref) → (s.world.ops p).in_progress ≡ false
  pub not_done : (p : Ref) → (s.world.ops p).done ≡ false
  pub no_context : (p : Ref) → (s.world.ops p).context ≡ none

start-Inv : (c : Ref) (s : System) → Initial s → Inv s.world.refs c s
start-Inv c s start = record {
  fresh = λ p idle. (start.not_done p, start.no_context p);
  held = λ p. ground (arith, start.unclaimed_ops p, start.no_context p);
  one_place = λ p. ground (
    arith,
    ap (count p) start.no_work,
    ap (λ l. count p (keys l)) start.no_events,
    start.unclaimed_ops p,
  );
  refs = λ q. ground (
    arith,
    ap (count q) start.no_work,
    ap (λ l. count q (keys l)) start.no_events,
    ap length start.no_work,
    ap length start.no_events,
  );
}

pub Reach-Inv :
    (py : Python) (c : Ref) (s t : System)
    → Keeps py
    → Initial s
    → Reach py c s t
    → Inv s.world.refs c t
Reach-Inv py c s _ keeps start here = start-Inv c s start
Reach-Inv py c s _ keeps start (next {t} {u} before step) =
    Step-Inv py s.world.refs c t u keeps step (Reach-Inv py c s t keeps start before)

-- However calls of submit, process_events and cancel and the moves of the kernel interleave from
-- operations that were never claimed, an operation in flight is with the kernel or in an event that is
-- not collected, in just one of them and once, and any other is in neither; one in flight holds the
-- context, and no other does; and the counts of references are those of the start, with one to each
-- operation in flight and one to the context for each. Callbacks change no operation and no count.
pub operations_held :
    (py : Python) (c : Ref) (s t : System) (p : Ref)
    → Keeps py
    → Initial s
    → Reach py c s t
    → (places p t.working t.made ≡ flight (t.world.ops p))
      × ((t.world.ops p).context ≡ holder c (t.world.ops p))
      × (t.world.refs p
          ≡ s.world.refs p
            + flight (t.world.ops p)
            + (if p == c then in_flight t.working t.made else 0))
operations_held py c s t p keeps start reach =
    let inv = Reach-Inv py c s t keeps start reach in
    (inv.one_place p, inv.held p, omega (arith, inv.refs p, inv.one_place p))

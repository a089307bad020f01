-- ===== src/Uring/System/Safety.antt =====
-- The reachable states of a ring.
use caio.Base.{count, Ref, ◌≡◌, ap, ◌≢◌, false, none, [], arith}
use caio.Uring.State.{cancel_user_data}
use caio.Uring.Drain.{Python}
use caio.Uring.Calls.{Kernel, flush}
use caio.Uring.Submit.Accept.{IsKnown}
use caio.Uring.Submit.Queue.{pending}
use caio.Uring.Submit.Refines.{IsRing}
use caio.Uring.Drain.Reader.{ready, completions}
use caio.Uring.Drain.Delivery.{keys}
use caio.Uring.System.{
  System, IsPassive, Step, submits, cancels, drains, flushes, processes, takes, posts, Reach, here,
  next,
}
use caio.Uring.System.Moves.{IsCq}
use caio.Uring.System.Calls.{names}
use caio.Uring.System.Invariant.{flight, places, Inv, submits-Inv, takes-Inv, posts-Inv}
use caio.Uring.System.Steps.{cancels-Inv}
use caio.Uring.System.Methods.{Drains-keeps, flush-Drains}
use caio.Uring.Events.{process_events}
use caio.Uring.System.Callbacks.{Reenters, drains-Inv}
use caio.Uring.System.Waits.{process_events-Drains}

Step-Inv :
    (k : Kernel) (py : Python) (c : Ref) (s t : System)
    → IsPassive k
    → Reenters py c
    → Step k py c s t
    → Inv c s
    → Inv c t
Step-Inv k py c s _ passive re (submits ps real) inv = submits-Inv c ps s inv
Step-Inv k py c s _ passive re (cancels p) inv = cancels-Inv k c p s passive inv
Step-Inv k py c s _ passive re (drains max) inv = drains-Inv py c max s re inv
Step-Inv k py c s _ passive re (flushes fuel alloc r w e) inv =
    Drains-keeps (λ v. Inv c (record s { world = v })) py c s.world w
      (flush k py fuel alloc c s.world) r (flush-Drains k py c passive fuel alloc s.world) e inv
      (λ max. drains-Inv py c max s re inv)
Step-Inv k py c s _ passive re (processes t fuel alloc args r w still e) inv =
    Drains-keeps (λ v. Inv c (record s { world = v })) py c s.world w
      (process_events k t py fuel alloc c args s.world) r
      (process_events-Drains k py c passive t still fuel alloc args s.world) e inv
      (λ max. drains-Inv py c max s re inv)
Step-Inv k py c s _ passive re (takes some_left) inv = takes-Inv c s some_left inv
Step-Inv k py c s _ passive re (posts js ks p res split room) inv =
    posts-Inv c s js ks p res split room inv

-- New rings, and operations that were never claimed.
pub record Initial (c : Ref) (s : System) : Type 0 where
  pub ring : IsRing (s.world.ctxs c)
  pub cq : IsCq (s.world.ctxs c)
  pub known : IsKnown s.world
  pub no_entries : pending (s.world.ctxs c) ≡ []
  pub no_work : s.working ≡ []
  pub no_completions : ready (s.world.ctxs c) ≡ []
  pub unclaimed_ops : (p : Ref) → (s.world.ops p).in_progress ≡ false
  pub not_done : (p : Ref) → (s.world.ops p).done ≡ false
  pub no_context : (p : Ref) → (s.world.ops p).context ≡ none

start-Inv : (c : Ref) (s : System) → Initial c s → Inv c s
start-Inv c s start = record {
  at = record {
    ring = start.ring;
    cq = start.cq;
    fresh = λ p idle. (start.not_done p, start.no_context p);
    held = λ p. ground (arith, start.unclaimed_ops p, start.no_context p);
    one_place = λ p real. ground (
      arith,
      ap (λ l. count p (names l)) start.no_entries,
      ap (count p) start.no_work,
      ap (λ l. count p (keys (completions l))) start.no_completions,
      start.unclaimed_ops p,
    );
  };
  known = start.known;
}

pub Reach-Inv :
    (k : Kernel) (py : Python) (c : Ref) (s t : System)
    → IsPassive k
    → Reenters py c
    → Initial c s
    → Reach k py c s t
    → Inv c t
Reach-Inv k py c s _ passive re start here = start-Inv c s start
Reach-Inv k py c s _ passive re start (next {t} {u} before step) =
    Step-Inv k py c t u passive re step (Reach-Inv k py c s t passive re start before)

-- However the calls and the moves of the kernel interleave from new rings and operations, an operation
-- in flight stands in just one place: staged in the submission ring, with the kernel, or in the
-- completion ring; any other stands in none. The calls of the kernel leave its moves to steps of their
-- own; callbacks may call the methods of the context while uring_drain_cq runs, what they do keeps the
-- invariant; the address that cancel uses is no operation's.
pub in_one_place :
    (k : Kernel) (py : Python) (c : Ref) (s t : System) (p : Ref)
    → IsPassive k
    → Reenters py c
    → Initial c s
    → Reach k py c s t
    → p ≢ cancel_user_data
    → places p (t.world.ctxs c) t.working ≡ flight (t.world.ops p)
in_one_place k py c s t p passive re start reach real =
    (Reach-Inv k py c s t passive re start reach).at.one_place p real

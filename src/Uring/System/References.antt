-- ===== src/Uring/System/References.antt =====
-- The reference counts in the reachable states of a ring.
use caio.Base.{
  ◌==◌, if◌then◌else◌, count, Ref, Counts, ℕ, ◌+◌, ◌≡◌, sym, ap, subst, ◌≢◌, true, arith,
}
use caio.Uring.State.{cancel_user_data, World}
use caio.Uring.Drain.{Python, drain}
use caio.Uring.Calls.{Kernel, flush}
use caio.Uring.Drain.Reader.{ready, completions, settle_all}
use caio.Uring.Drain.Delivery.{keys, batch_of}
use caio.Uring.System.{
  System, IsPassive, Step, submits, cancels, drains, flushes, processes, takes, posts, Reach, here,
  next,
}
use caio.Uring.System.Calls.{names, count-batch}
use caio.Uring.Drain.Balance.{settle_all-refs}
use caio.Uring.System.Invariant.{flight, holder, Inv}
use caio.Uring.System.Steps.{cancel-away, batch_in_flight, Drained, drain-collected, Drained-Inv}
use caio.Uring.System.Safety.{Initial, Reach-Inv, in_one_place}
use caio.Uring.System.Measures.{
  load, load-IsMeasure, count-IsMeasure, load-real, length-keys, spread-drain,
}
use caio.Uring.System.Methods.{Drains-keeps, flush-Drains}
use caio.Uring.Events.{process_events}
use caio.Uring.System.Callbacks.{Reenters}
use caio.Uring.System.Counted.{
  in_flight, Counted, submits-Counted, takes-Counted, posts-Counted, cancels-Counted,
}
use caio.Uring.System.Recounted.{KeepsCounted, deliver-Counted}
use caio.Uring.System.Waits.{process_events-Drains}

collected-Counted :
    (base : Counts) (c max : ℕ) (s : System) (w1 : World)
    → Inv c s
    → w1.refs ≡ (settle_all (batch_of (s.world.ctxs c) max) s.world).refs
    → Drained c max s w1
    → Counted base c s
    → Counted
        (λ q. base q + count q (keys (batch_of (s.world.ctxs c) max)))
        c
        (record s { world = w1 })
collected-Counted base c max s w1 inv refs d k = record {
  counts = λ q away.
      (let w = s.world in
        let batch = batch_of (w.ctxs c) max in
        let nobody : count cancel_user_data (keys batch) ≡ 0 = omega (
          arith,
          cancel-away (ready (w.ctxs c)),
          count-batch cancel_user_data max (completions (ready (w.ctxs c))),
        ) in
        let settled =
          settle_all-refs c batch w q (λ p. ground (arith, batch_in_flight c max s p inv))
            (λ p now. ground (arith, batch_in_flight c max s p inv, inv.at.held p, now)) in
        ground (
          arith,
          ap (λ r. r q) refs,
          settled,
          k.counts q away,
          spread-drain (count q) (count-IsMeasure q away) c max s w1 s.working d,
          spread-drain load load-IsMeasure c max s w1 s.working d,
          load-real (keys batch) nobody,
          length-keys batch,
        ));
}

drains-Counted :
    (py : Python) (base : Counts) (c max : ℕ) (s : System)
    → Reenters py c
    → KeepsCounted py c
    → Inv c s
    → Counted base c s
    → Counted base c (record s { world = (drain py true c max s.world).1 })
drains-Counted py base c max s re kc inv k =
    let (w1, run, refs, d) = drain-collected py c max s inv in
    subst (λ v. Counted base c (record s { world = v })) (sym run)
      (deliver-Counted py c s.working re kc base (batch_of (s.world.ctxs c) max) w1
        (Drained-Inv c max s w1 d inv) (collected-Counted base c max s w1 inv refs d k))

Step-Counted :
    (k : Kernel) (py : Python) (base : Counts) (c : Ref) (s t : System)
    → IsPassive k
    → Reenters py c
    → KeepsCounted py c
    → Step k py c s t
    → Inv c s
    → Counted base c s
    → Counted base c t
Step-Counted k py base c s _ passive re kc (submits ps real) inv h =
    submits-Counted base c ps s real inv h
Step-Counted k py base c s _ passive re kc (cancels p) inv h =
    cancels-Counted k base c p s passive inv h
Step-Counted k py base c s _ passive re kc (drains max) inv h =
    drains-Counted py base c max s re kc inv h
Step-Counted k py base c s _ passive re kc (flushes fuel alloc r w e) inv h =
    Drains-keeps (λ v. Counted base c (record s { world = v })) py c s.world w
      (flush k py fuel alloc c s.world) r (flush-Drains k py c passive fuel alloc s.world) e h
      (λ max. drains-Counted py base c max s re kc inv h)
Step-Counted k py base c s _ passive re kc (processes t fuel alloc args r w still e) inv h =
    Drains-keeps (λ v. Counted base c (record s { world = v })) py c s.world w
      (process_events k t py fuel alloc c args s.world) r
      (process_events-Drains k py c passive t still fuel alloc args s.world) e h
      (λ max. drains-Counted py base c max s re kc inv h)
Step-Counted k py base c s _ passive re kc (takes some_left) inv h =
    takes-Counted base c s some_left inv h
Step-Counted k py base c s _ passive re kc (posts js ks p res split room) inv h =
    posts-Counted base c s js ks p res split room inv h

start-Counted : (c : Ref) (s : System) → Initial c s → Counted s.world.refs c s
start-Counted c s start = record {
  counts = λ q away. ground (
    arith,
    ap (λ l. count q (names l)) start.no_entries,
    ap (count q) start.no_work,
    ap (λ l. count q (keys (completions l))) start.no_completions,
    ap (λ l. load (names l)) start.no_entries,
    ap load start.no_work,
    ap (λ l. load (keys (completions l))) start.no_completions,
  );
}

Reach-Counted :
    (k : Kernel) (py : Python) (c : Ref) (s t : System)
    → IsPassive k
    → Reenters py c
    → KeepsCounted py c
    → Initial c s
    → Reach k py c s t
    → Counted s.world.refs c t
Reach-Counted k py c s _ passive re kc start here = start-Counted c s start
Reach-Counted k py c s _ passive re kc start (next {t} {u} before step) =
    Step-Counted k py s.world.refs c t u passive re kc step
      (Reach-Inv k py c s t passive re start before)
      (Reach-Counted k py c s t passive re kc start before)

-- However the calls and the moves of the kernel interleave from new rings and operations, the ring
-- holds one reference to each operation in flight, and no other; each of these holds the context, by
-- a reference of its own, and no other operation does. Callbacks may call the methods of the context
-- while uring_drain_cq runs, what they do keeps the invariant and the references of the ring; the calls
-- of the kernel change nothing; the address that cancel uses is no object's.
pub references_held :
    (k : Kernel) (py : Python) (c : Ref) (s t : System) (q : Ref)
    → IsPassive k
    → Reenters py c
    → KeepsCounted py c
    → Initial c s
    → Reach k py c s t
    → q ≢ cancel_user_data
    → (t.world.refs q
        ≡ s.world.refs q
          + flight (t.world.ops q)
          + (if q == c then in_flight (t.world.ctxs c) t.working else 0))
      × ((t.world.ops q).context ≡ holder c (t.world.ops q))
references_held k py c s t q passive re kc start reach real =
    let counted = (Reach-Counted k py c s t passive re kc start reach).counts q real in
    let one = in_one_place k py c s t q passive re start reach real in
    (omega (arith, counted, one), (Reach-Inv k py c s t passive re start reach).at.held q)

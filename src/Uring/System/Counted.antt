-- ===== src/Uring/System/Counted.antt =====
-- The reference counts under the calls that run no callback, and the moves of the kernel.
use caio.Base.{
  ltb, ◌==◌, if◌then◌else◌, Bool-cases, count, count-take_le, ℤ, Ref, Counts, unclaimed, operation,
  ℕ, ◌+◌, ◌<◌, ◌≡◌, sym, ap, ◌∙◌, subst, ◌≢◌, inl, inr, some, List, [], ◌∷◌, ◌++◌, map, arith,
}
use caio.Uring.State.{cancel_user_data, Context, distance, set_ctx}
use caio.Uring.Submit.{submit}
use caio.Uring.Calls.{plain, Kernel, cancel}
use caio.Uring.Submit.Accept.{claimed_in}
use caio.Uring.Submit.Queue.{entry}
use caio.Uring.Submit.Refines.{staged, free, taken}
use caio.Uring.Submit.Holds.{submit-Holds}
use caio.Uring.Calls.Cancel.{asked, cancel-Queues, cancel-full}
use caio.Uring.System.{System, advance, post, IsPassive}
use caio.Uring.System.Invariant.{Inv, ctxs-set_ctx}
use caio.Uring.System.Measures.{
  spread, load, load-IsMeasure, count-IsMeasure, load-real, count-unclaimed_le, spread-submit,
  spread-advance, spread-post, spread-asked,
}

-- How many operations the ring has.
abbrev pub in_flight : Context → List Ref → ℕ
in_flight x working = spread load x working

-- The ring holds one reference to each of its operations and, for each, one to the context, and the
-- rest is as at the start.
pub record Counted (base : Counts) (c : Ref) (s : System) : Type 0 where
  pub counts :
      (q : Ref)
      → q ≢ cancel_user_data
      → s.world.refs q
        ≡ base q
          + spread (count q) (s.world.ctxs c) s.working
          + (if q == c then in_flight (s.world.ctxs c) s.working else 0)

pub submits-Counted :
    (base : Counts) (c : Ref) (ps : List Ref) (s : System)
    → count cancel_user_data ps ≡ 0
    → Inv c s
    → Counted base c s
    → Counted base c (record s { world = (submit c (some (map operation ps)) s.world).1 })
submits-Counted base c ps s real inv k = record {
  counts = λ q away.
      (let w = s.world in
        let xs = taken c ps w in
        let h = submit-Holds c ps w inv.at.ring inv.known (λ p idle. (inv.at.fresh p idle).1) in
        let real_xs : count cancel_user_data xs ≡ 0 = omega (
          arith,
          real,
          count-take_le (free (w.ctxs c)) cancel_user_data (unclaimed (claimed_in w) ps),
          count-unclaimed_le cancel_user_data (claimed_in w) ps,
        ) in
        ground (
          arith,
          h.refs q,
          k.counts q away,
          spread-submit (count q) (count-IsMeasure q away) c ps w s.working inv.at.ring inv.known,
          spread-submit load load-IsMeasure c ps w s.working inv.at.ring inv.known,
          load-real xs real_xs,
        ));
}

pub takes-Counted :
    (base : Counts) (c : Ref) (s : System)
    → 0 < staged (s.world.ctxs c)
    → Inv c s
    → Counted base c s
    → Counted base c (record {
      world = set_ctx c (advance (s.world.ctxs c)) s.world;
      working = s.working ++ (entry (s.world.ctxs c) (s.world.ctxs c).sq_head).user_data ∷ [];
    })
takes-Counted base c s some_left inv k =
    let x = s.world.ctxs c in
    let working = s.working ++ (entry x x.sq_head).user_data ∷ [] in
    let at = ctxs-set_ctx c (advance x) s.world in
    record {
      counts = λ q away. rw at (
          ground (
            arith,
            k.counts q away,
            spread-advance (count q) (count-IsMeasure q away) x s.working inv.at.ring some_left,
            spread-advance load load-IsMeasure x s.working inv.at.ring some_left,
          ));
    }

pub posts-Counted :
    (base : Counts) (c : Ref) (s : System) (js ks : List Ref) (p : Ref) (res : ℤ)
    → s.working ≡ js ++ p ∷ ks
    → distance (s.world.ctxs c).cq_tail (s.world.ctxs c).cq_head < (s.world.ctxs c).cq_ring_mask + 1
    → Inv c s
    → Counted base c s
    → Counted base c
        (record { world = set_ctx c (post p res (s.world.ctxs c)) s.world; working = js ++ ks })
posts-Counted base c s js ks p res split room inv k =
    let x = s.world.ctxs c in
    let at = ctxs-set_ctx c (post p res x) s.world in
    record {
      counts = λ q away. rw at (
          ground (
            arith,
            k.counts q away,
            ap (spread (count q) x) split,
            ap (spread load x) split,
            spread-post (count q) (count-IsMeasure q away) p res x js ks inv.at.cq room,
            spread-post load load-IsMeasure p res x js ks inv.at.cq room,
          ));
    }

pub cancels-Counted :
    (k : Kernel) (base : Counts) (c p : Ref) (s : System)
    → IsPassive k
    → Inv c s
    → Counted base c s
    → Counted base c (record s { world = (cancel k c (some p) s.world).1 })
cancels-Counted k base c p s passive inv counted =
    let w = s.world in
    elim (Bool-cases (ltb 0 (free (w.ctxs c)))) [
      | inl room ↦
          let some_room : 0 < free (w.ctxs c) = ground (arith, room) in
          let run = (cancel-Queues k c p w inv.at.ring some_room).0 in
          subst (λ v. Counted base c (record s { world = v }))
            (sym (ap (λ r. r.1) run ∙ passive.enter_keeps c 1 plain (asked c p w)))
            (record {
              counts = λ q away. ground (
                arith,
                counted.counts q away,
                spread-asked (count q) (count-IsMeasure q away) k c p w s.working inv.at.ring
                    some_room,
                spread-asked load load-IsMeasure k c p w s.working inv.at.ring some_room,
              );
            })
      | inr full ↦
          subst (λ v. Counted base c (record s { world = v }))
            (sym (ap (λ r. r.1) (cancel-full k c p w (ground (arith, full))))) counted
    ]

-- ===== src/Uring/System/Lifecycle.antt =====
-- A ring refines the life of an operation.
use caio.Base.{
  ltb, Bool-cases, Ref, operation, ℕ, sym, ap, ◌∙◌, subst, inl, inr, true, false, some, List, map,
  arith,
}
use caio.Uring.State.{World}
use caio.Uring.Submit.{submit}
use caio.Uring.Drain.{Python, drain}
use caio.Uring.Calls.{plain, Kernel, flush, cancel}
use caio.Uring.Submit.Refines.{free}
use caio.Uring.Submit.Holds.{submit-Holds}
use caio.Uring.Drain.Delivery.{batch_of}
use caio.Uring.System.{
  System, IsPassive, IsApart, Step, submits, cancels, drains, flushes, processes, takes, posts,
  Reach, here, next,
}
use caio.Uring.System.Calls.{settle_all-claim}
use caio.Uring.System.Invariant.{Inv}
use caio.Uring.System.Steps.{batch_in_flight, drain-Drained}
use caio.Uring.System.Safety.{Initial, Reach-Inv}
use caio.Uring.System.Methods.{Drains-keeps, flush-Drains}
use caio.Uring.Events.{process_events}
use caio.Base.Lifecycle.{StageMap, Run, rest, tick, stage_of, Goes, Goes-refl, Goes-Move}
use caio.Uring.Calls.Cancel.{asked, cancel-Queues, cancel-full}
use caio.Uring.System.Callbacks.{IsApart-Reenters}
use caio.Uring.System.Waits.{process_events-Drains}

abbrev pub stages : World → StageMap
stages w p = stage_of (w.ops p).in_progress (w.ops p).done

abbrev Steps : World → World → Type 0
Steps w w' =
    (p : Ref) → Goes (w.ops p).in_progress (w.ops p).done (w'.ops p).in_progress (w'.ops p).done

module _ (c : Ref) (s : System) (inv : Inv c s) where
  keeps-Goes : Steps s.world s.world
  keeps-Goes p = Goes-refl _ _ (λ bare. (inv.at.fresh p bare).0)

  submits-Goes : (ps : List Ref) → Steps s.world (submit c (some (map operation ps)) s.world).1
  submits-Goes ps p =
      let h = submit-Holds c ps s.world inv.at.ring inv.known (λ q free. (inv.at.fresh q free).1) in
      let old = keeps-Goes p in
      record {
        claim = λ e. ground (arith, h.ops p, e);
        done = λ e. ground (arith, h.ops p, e);
        first = λ e. ground (arith, h.ops p, e, old.first);
      }

  drains-Goes : (py : Python) (max : ℕ) → IsApart py → Steps s.world (drain py true c max s.world).1
  drains-Goes py max apart p =
      let d = drain-Drained py c max s apart inv in
      let batch = batch_of (s.world.ctxs c) max in
      let same = ap (λ f. (f p).in_progress) d.ops ∙ (settle_all-claim batch s.world p).0 in
      let old = keeps-Goes p in
      let known = batch_in_flight c max s p inv in
      record {
        claim = λ e. same ∙ e;
        done = λ e. ground (arith, d.done p, d.others p, e);
        first = λ e. ground (arith, d.others p, e, known, old.first);
      }

  cancels-Goes :
      (k : Kernel) (p : Ref) → IsPassive k → Steps s.world (cancel k c (some p) s.world).1
  cancels-Goes k p passive =
      let w = s.world in
      elim (Bool-cases (ltb 0 (free (w.ctxs c)))) [
        | inl room ↦
            let run = (cancel-Queues k c p w inv.at.ring (ground (arith, room))).0 in
            subst (Steps w) (sym (ap (λ r. r.1) run ∙ passive.enter_keeps c 1 plain (asked c p w)))
              keeps-Goes
        | inr full ↦
            subst (Steps w) (sym (ap (λ r. r.1) (cancel-full k c p w (ground (arith, full)))))
              keeps-Goes
      ]

  Step-Goes :
      (k : Kernel) (py : Python) (t : System)
      → IsPassive k
      → IsApart py
      → Step k py c s t
      → Steps s.world t.world
  Step-Goes k py _ passive apart (submits ps real) = submits-Goes ps
  Step-Goes k py _ passive apart (cancels p) = cancels-Goes k p passive
  Step-Goes k py _ passive apart (drains max) = drains-Goes py max apart
  Step-Goes k py _ passive apart (flushes fuel alloc r w e) =
      Drains-keeps (Steps s.world) py c s.world w (flush k py fuel alloc c s.world) r
        (flush-Drains k py c passive fuel alloc s.world) e keeps-Goes
        (λ max. drains-Goes py max apart)
  Step-Goes k py _ passive apart (processes t fuel alloc args r w still e) =
      Drains-keeps (Steps s.world) py c s.world w (process_events k t py fuel alloc c args s.world)
        r (process_events-Drains k py c passive t still fuel alloc args s.world) e keeps-Goes
        (λ max. drains-Goes py max apart)
  Step-Goes k py _ passive apart (takes some_left) = keeps-Goes
  Step-Goes k py _ passive apart (posts js ks p res split room) = keeps-Goes

pub Reach-Run :
    (k : Kernel) (py : Python) (c : Ref) (s t : System)
    → IsPassive k
    → IsApart py
    → Initial c s
    → Reach k py c s t
    → Run false (stages s.world) (stages t.world)
Reach-Run k py c s _ passive apart start here = rest
Reach-Run k py c s _ passive apart start (next {t} {u} before step) =
    tick (Reach-Run k py c s t passive apart start before) (λ p. Goes-Move false _ _ _ _ (
      Step-Goes c t (Reach-Inv k py c s t passive (IsApart-Reenters py c apart) start before) k py u
        passive apart step p))

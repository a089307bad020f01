-- ===== src/Aio/System/Lifecycle.antt =====
-- A context of linux_aio refines the life of an operation.
use caio.Base.{
  ◌==◌, count, count-append, ℤ, Ref, Counts, ok, Arg, operation, ◌≡◌, sym, ap, ◌∙◌, subst, true,
  false, some, List, ◌∷◌, ◌++◌, arith,
}
use caio.Aio.State.{World}
use caio.Aio.Submit.{Answer, check_types, submit}
use caio.Aio.Events.{Event, Python, cancel_done, Kernel, EventArgs, process_events, cancel}
use caio.Aio.Submit.Outcome.{submit-Takes}
use caio.Aio.Events.Delivery.{
  Keeps, keys, deliver-settle_all, deliver-finishes, deliver-others, Gives, process_events-deliver,
}
use caio.Aio.Events.Cancel.{cancel-Releases, cancel-fails}
use caio.Aio.System.{
  System, Step, submits, completes, collects, cancels, fails_to_cancel, Reach, here, next,
}
use caio.Aio.System.Invariant.{Inv, count-keys, settle_all-claim}
use caio.Aio.System.Safety.{Initial, Reach-Inv}
use caio.Base.Lifecycle.{StageMap, Run, rest, tick, stage_of, Goes, Goes-refl, Goes-Move}

abbrev pub stages : World → StageMap
stages w p = stage_of (w.ops p).in_progress (w.ops p).done

abbrev Steps : World → World → Type 0
Steps w w' =
    (p : Ref) → Goes (w.ops p).in_progress (w.ops p).done (w'.ops p).in_progress (w'.ops p).done

module _ (base : Counts) (c : Ref) (s : System) (inv : Inv base c s) where
  keeps-Goes : Steps s.world s.world
  keeps-Goes p = Goes-refl _ _ (λ bare. (inv.fresh p bare).0)

  submits-Goes :
      (io_submit : Ref → List Ref → Answer) (args : List Arg) (ps : List Ref)
      → ((s.world.ctxs c).ctx == 0) ≡ false
      → check_types args ≡ ok ps
      → Steps s.world (submit io_submit true (some c) (some args) s.world).1
  submits-Goes io_submit args ps opened typed p =
      let t =
        (submit-Takes io_submit c args ps s.world (λ q bare. (inv.fresh q bare).1) opened
          typed).1 in
      let old = keeps-Goes p in
      record {
        claim = λ e. ground (arith, t.in_progress p, e);
        done = λ e. t.done p ∙ e;
        first = λ e. old.first (sym (t.done p) ∙ e);
      }

  collects-Goes :
      (k : Kernel) (py : Python) (args : EventArgs) (es later : List Event)
      → Keeps py
      → Gives k c args es s.world s.world
      → s.made ≡ es ++ later
      → Steps s.world (process_events k py true c (some args) s.world).1
  collects-Goes k py args es later keeps gives split p =
      let w = s.world in
      let same =
        ap (λ f. (f p).in_progress) (deliver-settle_all py es w keeps) ∙ settle_all-claim es w p in
      let old = keeps-Goes p in
      let before = ap (λ l. count p (keys l)) split ∙ count-keys p es later in
      rw (process_events-deliver k py c args es w w gives) (record {
        claim = λ e. same ∙ e;
        done = λ e.
            ground (arith, deliver-finishes py es w p keeps, deliver-others py es w p keeps, e);
        first = λ e.
            ground (arith, deliver-others py es w p keeps, e, before, inv.one_place p, old.first);
      })

  cancels-Goes :
      (k : Kernel) (py : Python) (js ks : List Ref) (p : Ref) (res : ℤ)
      → Keeps py
      → ((s.world.ctxs c).ctx == 0) ≡ false
      → s.working ≡ js ++ p ∷ ks
      → k.io_cancel p s.world ≡ cancel_done res
      → Steps s.world (cancel k py (some c) (some (operation p)) s.world).1
  cancels-Goes k py js ks p res keeps opened split fine q =
      let r = cancel-Releases k py c p res s.world keeps opened fine in
      let before = ap (count p) split ∙ count-append p js (p ∷ ks) in
      let old = keeps-Goes q in
      record {
        claim = λ e. ground (arith, r.claimed, r.others q, e);
        done = λ e. ground (arith, r.done, r.others q, e);
        first = λ e. ground (arith, r.others q, before, inv.one_place p, old.first, e);
      }

  Step-Goes : (py : Python) (t : System) → Keeps py → Step py c s t → Steps s.world t.world
  Step-Goes py _ keeps (submits io_submit args ps opened typed) =
      submits-Goes io_submit args ps opened typed
  Step-Goes py _ keeps (completes js ks p res split) = keeps-Goes
  Step-Goes py _ keeps (collects k args es later gives few split) =
      collects-Goes k py args es later keeps gives split
  Step-Goes py _ keeps (cancels k js ks p res opened split fine) =
      cancels-Goes k py js ks p res keeps opened split fine
  Step-Goes py _ keeps (fails_to_cancel k p e opened failing) =
      subst (Steps s.world) (sym (cancel-fails k py c p e s.world opened failing)) keeps-Goes

pub Reach-Run :
    (py : Python) (c : Ref) (s t : System)
    → Keeps py
    → Initial s
    → Reach py c s t
    → Run false (stages s.world) (stages t.world)
Reach-Run py c s _ keeps start here = rest
Reach-Run py c s _ keeps start (next {t} {u} before step) =
    tick (Reach-Run py c s t keeps start before) (λ p.
      Goes-Move false _ _ _ _
        (Step-Goes s.world.refs c t (Reach-Inv py c s t keeps start before) py u keeps step p))

-- ===== src/Thread/System/Invariant.antt =====
-- The invariant of every reachable state.
use caio.Base.{refl, subst, arith}
use caio.Thread.Worker.{Kernel}
use caio.Thread.System.{
  System, Step, submits, begins, skips, performs, publishes, retires, creates, sets_callback,
  gets_payload, clears, closes, Initial, Reach, here, next,
}
use caio.Thread.System.Sound.{Inv, submit-Inv, begin-Inv, perform-Inv, publish-Inv, retire-Inv}
use caio.Thread.System.Renewal.{create-Inv, clear-Inv, set_callback-Inv, payload-Inv, close-Inv}

pub Step-Inv : {k : Kernel} {s t : System} → Step k s t → Inv s.world s.jobs → Inv t.world t.jobs
Step-Inv {s} (submits alloc add self args) h = submit-Inv s.jobs alloc add self args s.world h
Step-Inv {s} (begins p some_task real) h =
    begin-Inv s.jobs (s.world.ops p).ctx s.world p h some_task
Step-Inv {s} (skips p some_task noop) h = absurd (cc (h p).real)
Step-Inv {k} {s} (performs js ks p c e) h =
    perform-Inv js ks _ s.world k _ refl refl refl (subst (Inv s.world) e h)
Step-Inv {s} (publishes js ks p c e) h =
    publish-Inv js ks _ s.world _ refl refl refl (subst (Inv s.world) e h)
Step-Inv {s} (retires js ks p c f e) h =
    retire-Inv js ks _ s.world f c refl (subst (Inv s.world) e h)
Step-Inv {s} (creates a call unused) h = create-Inv s.jobs a call s.world unused h
Step-Inv {s} (sets_callback p callable f) h = set_callback-Inv s.jobs p callable f s.world h
Step-Inv {s} (gets_payload p) h = payload-Inv s.jobs p s.world h
Step-Inv {s} (clears p unused) h = clear-Inv s.jobs p s.world unused.0 unused.1 h
Step-Inv {s} (closes c) h = close-Inv s.jobs c s.world h

Initial-Inv : {s : System} → Initial s → Inv s.world s.jobs
Initial-Inv {s} i p =
    rw (i.no_tasks, i.no_jobs, i.idle p)
      (record {
        flies = refl;
        bare = λ e. refl;
        unfinished = λ e. refl;
        holds = λ e. absurd (omega arith);
        real = refl;
      })

pub Reach-Inv : {k : Kernel} {s t : System} → Initial s → Reach k s t → Inv t.world t.jobs
Reach-Inv i here = Initial-Inv i
Reach-Inv i (next r st) = Step-Inv st (Reach-Inv i r)

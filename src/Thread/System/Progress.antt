-- ===== src/Thread/System/Progress.antt =====
-- Every operation in flight can be finished: the way from a task, or from a run of `worker`, to
-- the publication of its result.
use caio.Base.{
  ◌==◌, Bool-cases, count, Ref, ◌≤◌, ◌<◌, ◌≡◌, refl, ap, subst, inl, inr, true, ◌&&◌, Option, List,
  [], ◌∷◌, ◌++◌, arith, dec_lt,
}
use caio.Thread.Operation.{in_flight}
use caio.Thread.Worker.{Kernel, publish}
use caio.Thread.System.{
  Phase, begun, performed, published, Job, System, pending_phase, pending, Step, begins, performs,
  publishes, Initial, Reach, here, next,
}
use caio.Thread.System.Sound.{Inv}
use caio.Thread.System.Invariant.{Reach-Inv}

-- A run that has yet to publish `p`, in the list of all runs.
pending_split :
    (p : Ref) (js : List Job)
    → 0 < pending p js
    → (js1 : List Job) × (js2 : List Job) × (j : Job) × (js ≡ js1 ++ j ∷ js2)
      × (j.op ≡ p)
      × (pending_phase j.phase ≡ 1)
pending_split p [] h = absurd (omega arith)
pending_split p (j ∷ js) h = elim (Bool-cases ((p == j.op) && (pending_phase j.phase == 1))) [
  | inl hit ↦ ([], js, j, refl, ground arith, ground arith)
  | inr miss ↦
      let (js1, js2, i, e, same, one) =
        pending_split p js (ground (arith, pending_le_one j.phase)) in
      (j ∷ js1, js2, i, ap (λ r. j ∷ r) e, same, one)
]
  where
    pending_le_one : (f : Phase) → pending_phase f ≤ 1
    pending_le_one begun = omega arith
    pending_le_one performed = omega arith
    pending_le_one (published g) = omega arith

-- What is reached from `s` with the operation `p` done.
abbrev pub Finishes : Kernel → System → Ref → Type 0
Finishes k s p = (t : System) × Reach k s t × ((t.world.ops p).done ≡ true)

publish-Finishes :
    (k : Kernel) (s : System) (p : Ref) (js ks : List Job) (c : Option Ref)
    → s.jobs ≡ js ++ record { op = p; ctx = c; phase = performed } ∷ ks
    → Finishes k s p
unfolding publish
publish-Finishes k s p js ks c e = (_, next here (publishes js ks p c e), ground arith)

Reach-trans : {k : Kernel} {s t u : System} → Reach k s t → Reach k t u → Reach k s u
Reach-trans r here = r
Reach-trans r (next q st) = next (Reach-trans r q) st

Step-Finishes : {k : Kernel} {s t : System} (p : Ref) → Step k s t → Finishes k t p → Finishes k s p
Step-Finishes p st (u, r, fin) = (u, Reach-trans (next here st) r, fin)

perform-Finishes :
    (k : Kernel) (s : System) (p : Ref) (js ks : List Job) (c : Option Ref)
    → s.jobs ≡ js ++ record { op = p; ctx = c; phase = begun } ∷ ks
    → Finishes k s p
perform-Finishes k s p js ks c e =
    Step-Finishes p (performs js ks p c e) (publish-Finishes k _ p js ks c refl)

run-Finishes :
    (k : Kernel) (s : System) (js ks : List Job) (p : Ref) (c : Option Ref) (f : Phase)
    → pending_phase f ≡ 1
    → s.jobs ≡ js ++ record { op = p; ctx = c; phase = f } ∷ ks
    → Finishes k s p
run-Finishes k s js ks p c begun one e = perform-Finishes k s p js ks c e
run-Finishes k s js ks p c performed one e = publish-Finishes k s p js ks c e
run-Finishes k s js ks p c (published g) one e = absurd (omega arith)

-- From every reachable state, steps of the workers alone can finish any operation in flight.
pub in_flight-Finishes :
    {k : Kernel} {s t : System}
    → Initial s
    → Reach k s t
    → (p : Ref) → in_flight (t.world.ops p) ≡ true
    → Finishes k t p
in_flight-Finishes {k} {t} i r p flying = elim (dec_lt 0 (count p t.world.tasks)) [
  | yes task ↦
      Step-Finishes p (begins p task (inv p).real) (perform-Finishes k _ p [] t.jobs _ refl)
  | no none_queued ↦
      let (js1, js2, j, e, same, one) = pending_split p t.jobs (worked none_queued) in
      subst (Finishes k t) same (run-Finishes k t js1 js2 j.op j.ctx j.phase one e)
]
  where
    inv : Inv t.world t.jobs
    inv = Reach-Inv i r

    worked : ¬ (0 < count p t.world.tasks) → 0 < pending p t.jobs
    worked h = ground (arith, (inv p).flies)

-- ===== src/Thread/System/Lifecycle.antt =====
-- The pools and the calls from Python refine the life of an operation, at addresses that new
-- operations may use again.
use caio.Base.{
  ◌==◌, Bool-cases, Option-cases, erase, Ref, Arg, ◌<◌, ◌≡◌, refl, ap, subst, inl, inr, Bool, true,
  false, not, ◌&&◌, Option, some, List, ◌∷◌, ◌++◌, arith,
}
use caio.Thread.State.{Operation, World}
use caio.Thread.Operation.{clear, Alloc, set_callback, payload}
use caio.Thread.Worker.{Kernel, begin, perform, publish, retire}
use caio.Thread.System.{
  performed, Job, System, pending, Unused, Call, create, Step, submits, begins, skips, performs,
  publishes, retires, creates, sets_callback, gets_payload, clears, closes, Initial, Reach, here,
  next,
}
use caio.Thread.System.Sound.{Inv, claim-Inv, pending-append}
use caio.Thread.System.Invariant.{Reach-Inv}
use caio.Thread.Context.{close}
use caio.Thread.Submit.{claim, enqueue, Add, submit}
use caio.Thread.Submit.Effect.{submit-preserves}
use caio.Thread.System.Renewal.{pending-le-running, create-Renews, create-none}
use caio.Base.Lifecycle.{
  Move, stays, renews, StageMap, Run, rest, tick, stage_of, Goes, Goes-refl, Goes-Move,
}

abbrev pub stages : World → StageMap
stages w p = stage_of (w.ops p).in_progress (w.ops p).done

abbrev GoesTo : Operation → Operation → Type 0
GoesTo o o' = Goes o.in_progress o.done o'.in_progress o'.done

same-Goes : (i d i' d' : Bool) → (i ≡ false → d ≡ false) → i' ≡ i → d' ≡ d → Goes i d i' d'
same-Goes i d i' d' sound claim done = rw (claim, done) (Goes-refl i d sound)

-- A new operation where none was on its way.
fresh-Move :
    (i d i' d' : Bool)
    → (i && not d) ≡ false
    → i' ≡ false
    → Move true (stage_of i d) (stage_of i' d')
fresh-Move false d i' d' away new = rw new stays
fresh-Move true false i' d' away new = absurd (cc away)
fresh-Move true true i' d' away new = rw new (renews refl)

module _ (s : System) (h : Inv s.world s.jobs) (p : Ref) where
  submit-GoesTo :
      (alloc : Bool) (add : Add) (self : Option Ref) (args : Option (List Arg))
      → GoesTo (s.world.ops p) ((submit alloc add self args s.world).1.ops p)
  unfolding claim
  submit-GoesTo alloc add self args =
      (submit-preserves (λ v. Inv v s.jobs × GoesTo (s.world.ops p) (v.ops p)) add
        (λ v x q. (x.0 q).bare)
        (λ c v q x bare. (claim-Inv s.jobs c v q x.0 bare, claimed c v q x bare)) alloc self args
        s.world (h, Goes-refl (s.world.ops p).in_progress (s.world.ops p).done (h p).unfinished)).1
    where
      claimed :
          (c : Ref) (v : World) (q : Ref)
          → Inv v s.jobs × GoesTo (s.world.ops p) (v.ops p)
          → (v.ops q).in_progress ≡ false
          → GoesTo (s.world.ops p) ((enqueue q (claim c q v)).ops p)
      claimed c v q x bare = record {
        claim = λ e. ground (arith, x.1.claim, e);
        done = λ e. ground (arith, x.1.done, e, (x.0 q).unfinished, bare);
        first = λ e. ground (arith, x.1.first, e, (x.0 q).unfinished, bare);
      }

  publish-GoesTo :
      (js ks : List Job) (q : Ref) (c : Option Ref)
      → s.jobs ≡ js ++ record { op = q; ctx = c; phase = performed } ∷ ks
      → GoesTo (s.world.ops p) ((publish q s.world).ops p)
  unfolding publish
  publish-GoesTo js ks q c e =
      let busy : 0 < pending q s.jobs = ground (
        arith,
        ap (pending q) e,
        pending-append q js (record { op = q; ctx = c; phase = performed } ∷ ks),
      ) in
      record {
        claim = λ t. ground (arith, t);
        done = λ t. ground (arith, t);
        first = λ t. ground (arith, t, (h q).flies, busy, (h p).unfinished);
      }

  begin-GoesTo :
      (q : Ref)
      → GoesTo
          (s.world.ops p)
          ((begin q (record (s.world) { tasks = erase q s.world.tasks })).ops p)
  unfolding begin
  begin-GoesTo q = same-Goes _ _ _ _ (h p).unfinished (ground arith) (ground arith)

  perform-GoesTo : (k : Kernel) (q : Ref) → GoesTo (s.world.ops p) ((perform k q s.world).ops p)
  unfolding perform
  perform-GoesTo k q = same-Goes _ _ _ _ (h p).unfinished (ground arith) (ground arith)

  set_callback-GoesTo :
      (q : Ref) (callable : Ref → Bool) (f : Option Ref)
      → GoesTo (s.world.ops p) (((set_callback q callable f s.world).1).ops p)
  unfolding set_callback
  set_callback-GoesTo q callable f =
      same-Goes _ _ _ _ (h p).unfinished (ground arith) (ground arith)

  payload-GoesTo : (q : Ref) → GoesTo (s.world.ops p) (((payload q s.world).1).ops p)
  unfolding payload
  payload-GoesTo q = same-Goes _ _ _ _ (h p).unfinished (ground arith) (ground arith)

  clear-GoesTo : (q : Ref) → GoesTo (s.world.ops p) ((clear q s.world).ops p)
  unfolding clear
  clear-GoesTo q = same-Goes _ _ _ _ (h p).unfinished (ground arith) (ground arith)

  close-GoesTo : (c : Ref) → GoesTo (s.world.ops p) ((close c s.world).1.ops p)
  unfolding close
  close-GoesTo c = same-Goes _ _ _ _ (h p).unfinished (ground arith) (ground arith)

  create-Move :
      (a : Alloc) (call : Call)
      → ((q : Ref) → a.object ≡ some q → Unused q s)
      → Move true (stages s.world p) (stages (create a call s.world).1 p)
  create-Move a call unused = elim (Option-cases a.object) [
    | inl e ↦ rw (create-none a call s.world e) stays
    | inr (q, e) ↦
        let r = create-Renews a call q s.world e in
        elim (Bool-cases (p == q)) [
          | inl hit ↦
              let same : q ≡ p = ground (arith, hit) in
              let away = unused q e in
              fresh-Move _ _ _ _
                (ground (arith, same, away, (h p).flies, pending-le-running p s.jobs))
                (subst (λ x. ((create a call s.world).1.ops x).in_progress ≡ false) same r.idle)
          | inr apart ↦ rw (r.others p apart) stays
        ]
  ]

  Step-Move :
      {k : Kernel} {t : System} → Step k s t → Move true (stages s.world p) (stages t.world p)
  Step-Move (submits alloc add self args) =
      Goes-Move true _ _ _ _ (submit-GoesTo alloc add self args)
  Step-Move (begins q some_task real) = Goes-Move true _ _ _ _ (begin-GoesTo q)
  Step-Move (skips q some_task noop) = absurd (cc (h q).real)
  Step-Move {k} (performs js ks q c e) = Goes-Move true _ _ _ _ (perform-GoesTo k q)
  Step-Move (publishes js ks q c e) = Goes-Move true _ _ _ _ (publish-GoesTo js ks q c e)
  Step-Move (retires js ks q c f e) = unfold retire in stays
  Step-Move (creates a call unused) = create-Move a call unused
  Step-Move (sets_callback q callable f) = Goes-Move true _ _ _ _ (set_callback-GoesTo q callable f)
  Step-Move (gets_payload q) = Goes-Move true _ _ _ _ (payload-GoesTo q)
  Step-Move (clears q unused) = Goes-Move true _ _ _ _ (clear-GoesTo q)
  Step-Move (closes c) = Goes-Move true _ _ _ _ (close-GoesTo c)

pub Reach-Run :
    {k : Kernel} {s t : System}
    → Initial s
    → Reach k s t
    → Run true (stages s.world) (stages t.world)
Reach-Run i here = rest
Reach-Run i (next {t} r st) = tick (Reach-Run i r) (λ p. Step-Move t (Reach-Inv i r) p st)

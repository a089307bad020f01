-- ===== src/Uring/System/Steps.antt =====
-- The invariant under AIOContext_cancel and uring_drain_cq.
use caio.Base.{
  ltb, ◌==◌, Bool-cases, drop, count, Ref, ℕ, ◌^◌, ◌≤◌, ◌<◌, ◌≡◌, refl, sym, ap, ◌∙◌, subst, inl,
  inr, true, none, some, List, [], ◌∷◌, arith,
}
use caio.Uring.State.{Cqe, cancel_user_data, distance, World}
use caio.Uring.Submit.{put_sqe}
use caio.Uring.Drain.{Python, commit, deliver, drain}
use caio.Uring.Calls.{plain, Kernel, cancel_sqe, cancel}
use caio.Uring.Submit.Queue.{pending}
use caio.Uring.Submit.Refines.{free}
use caio.Uring.Drain.Reader.{ready, completions, settle_all}
use caio.Uring.Drain.Delivery.{keys, batch_of, settle_all-ctxs, ctxs-commit, drain-settles}
use caio.Uring.Calls.Cancel.{asked, cancel-Queues, cancel-full}
use caio.Uring.System.{System, IsPassive, IsApart}
use caio.Uring.System.Moves.{set_head-IsRing}
use caio.Uring.System.Calls.{
  SameCq, SameCq-IsCq, SameCq-ready, names, count-names, count-batch, deliver-same,
  settle_all-claim, opcode-IsKnown,
}
use caio.Uring.System.Invariant.{flight, InvAt, Inv}

pub asked-SameCq : (c p : Ref) (w : World) → SameCq (w.ctxs c) ((asked c p w).ctxs c)
unfolding put_sqe
asked-SameCq c p w = record {
  head = ground arith;
  tail = ground arith;
  mask = ground arith;
  entries = ground arith;
}

asked-Inv :
    (k : Kernel) (c p : Ref) (s : System)
    → 0 < free (s.world.ctxs c)
    → Inv c s
    → Inv c (record s { world = asked c p s.world })
asked-Inv k c p s room inv =
    let w = s.world in
    let i = inv.at in
    let (run, appended, ring) = cancel-Queues k c p w i.ring room in
    let same = asked-SameCq c p w in
    record {
      at = record {
        ring = ring;
        cq = SameCq-IsCq (w.ctxs c) ((asked c p w).ctxs c) same i.cq;
        fresh = i.fresh;
        held = i.held;
        one_place = λ q real.
            (let staged_now =
                ap (λ l. count q (names l)) appended
                ∙ count-names q (pending (w.ctxs c)) (cancel_sqe p ∷ []) in
              let ready_now =
                ap (λ l. count q (keys (completions l)))
                  (SameCq-ready (w.ctxs c) ((asked c p w).ctxs c) same) in
              ground (arith, staged_now, ready_now, i.one_place q real, real));
      };
      known = inv.known;
    }

pub cancels-Inv :
    (k : Kernel) (c p : Ref) (s : System)
    → IsPassive k
    → Inv c s
    → Inv c (record s { world = (cancel k c (some p) s.world).1 })
cancels-Inv k c p s passive inv =
    let w = s.world in
    elim (Bool-cases (ltb 0 (free (w.ctxs c)))) [
      | inl room ↦
          let (run, appended, ring) = cancel-Queues k c p w inv.at.ring (ground (arith, room)) in
          subst (λ v. Inv c (record s { world = v }))
            (sym (ap (λ r. r.1) run ∙ passive.enter_keeps c 1 plain (asked c p w)))
            (asked-Inv k c p s (ground (arith, room)) inv)
      | inr full ↦
          subst (λ v. Inv c (record s { world = v }))
            (sym (ap (λ r. r.1) (cancel-full k c p w (ground (arith, full))))) inv
    ]

commit-ops : (c head : ℕ) (w : World) → (commit c head w).ops ≡ w.ops
unfolding commit
commit-ops c head w = refl

pub cancel-away : (es : List Cqe) → count cancel_user_data (keys (completions es)) ≡ 0
cancel-away [] = refl
cancel-away (e ∷ es) = ground (arith, cancel-away es)

-- No more than what is in flight is drained.
pub batch_in_flight :
    (c max : ℕ) (s : System) (p : Ref)
    → Inv c s
    → count p (keys (batch_of (s.world.ctxs c) max)) ≤ flight (s.world.ops p)
batch_in_flight c max s p inv =
    let l = completions (ready (s.world.ctxs c)) in
    elim (Bool-cases (p == cancel_user_data)) [
      | inl e ↦
          let same : p ≡ cancel_user_data = ground (arith, e) in
          let away = ap (λ q. count q (keys l)) same ∙ cancel-away (ready (s.world.ctxs c)) in
          omega (arith, away, count-batch p max l)
      | inr e ↦ omega (arith, inv.at.one_place p (λ h. ground (arith, e, h)), count-batch p max l)
    ]

-- A call of uring_drain_cq, callbacks apart.
pub record Drained (c max : ℕ) (s : System) (w' : World) : Type 0 where
  pub head : ℕ
  pub small : head < 2 ^ 32
  pub shrink :
      distance (s.world.ctxs c).cq_tail head
      ≤ distance (s.world.ctxs c).cq_tail (s.world.ctxs c).cq_head
  pub ring : w'.ctxs c ≡ record (s.world.ctxs c) { cq_head = head }
  pub ops : w'.ops ≡ (settle_all (batch_of (s.world.ctxs c) max) s.world).ops
  pub rest :
      completions (ready (record (s.world.ctxs c) { cq_head = head }))
      ≡ drop max (completions (ready (s.world.ctxs c)))
  pub done :
      (q : Ref)
      → 0 < count q (keys (batch_of (s.world.ctxs c) max))
      → ((w'.ops q).done ≡ true) × ((w'.ops q).context ≡ none)
  pub others :
      (q : Ref) → count q (keys (batch_of (s.world.ctxs c) max)) ≡ 0 → w'.ops q ≡ s.world.ops q

-- What is collected, before the first callback runs.
pub drain-collected :
    (py : Python) (c max : ℕ) (s : System)
    → Inv c s
    → (w1 : World) × ((drain py true c max s.world).1
        ≡ deliver py (batch_of (s.world.ctxs c) max) w1)
      × (w1.refs ≡ (settle_all (batch_of (s.world.ctxs c) max) s.world).refs)
      × Drained c max s w1
drain-collected py c max s inv =
    let w = s.world in
    let x = w.ctxs c in
    let batch = batch_of x max in
    let (head, w1, run, is, caught, small, shrink) =
      drain-settles c max w inv.at.cq.head inv.at.cq.tail py in
    let ring : w1.ctxs c ≡ record x { cq_head = head } =
      ap (λ v. v.ctxs c) is
      ∙ ctxs-commit c head (settle_all batch w)
      ∙ ap (λ f. record (f c) { cq_head = head }) (settle_all-ctxs batch w) in
    (
      w1,
      run,
      caught.refs,
      record {
        head = head;
        small = small;
        shrink = shrink;
        ring = ring;
        ops = ap (λ v. v.ops) is ∙ commit-ops c head (settle_all batch w);
        rest = ap (λ z. completions (ready z)) (sym ring) ∙ caught.rest;
        done = caught.done;
        others = caught.others;
      },
    )

pub drain-Drained :
    (py : Python) (c max : ℕ) (s : System)
    → IsApart py
    → Inv c s
    → Drained c max s (drain py true c max s.world).1
drain-Drained py c max s apart inv =
    let (w1, run, refs, d) = drain-collected py c max s inv in
    let same = deliver-same py (batch_of (s.world.ctxs c) max) w1 apart in
    let ops_now : (drain py true c max s.world).1.ops ≡ w1.ops = ap (λ v. v.ops) run ∙ same.0 in
    record {
      head = d.head;
      small = d.small;
      shrink = d.shrink;
      ring = ap (λ v. v.ctxs c) run ∙ ap (λ f. f c) same.1 ∙ d.ring;
      ops = ops_now ∙ d.ops;
      rest = d.rest;
      done = λ q inside.
          subst (λ f. ((f q).done ≡ true) × ((f q).context ≡ none)) (sym ops_now) (d.done q inside);
      others = λ q away. ap (λ f. f q) ops_now ∙ d.others q away;
    }

pub Drained-Inv :
    (c max : ℕ) (s : System) (w' : World)
    → Drained c max s w'
    → Inv c s
    → Inv c (record s { world = w' })
Drained-Inv c max s w' d inv =
    let w = s.world in
    let x = w.ctxs c in
    let i = inv.at in
    let batch = batch_of x max in
    let y = record x { cq_head = d.head } in
    let claim = λ (p : Ref). ap (λ f. (f p).in_progress) d.ops ∙ (settle_all-claim batch w p).0 in
    let moved_on : InvAt c y w'.ops s.working = record {
      ring = set_head-IsRing x d.head i.ring;
      cq = record {
        whole = i.cq.whole;
        small = i.cq.small;
        head = d.small;
        tail = i.cq.tail;
        fits = omega (arith, d.shrink, i.cq.fits);
      };
      fresh = λ p idle.
          (let away : count p (keys batch) ≡ 0 =
              ground (arith, batch_in_flight c max s p inv, claim p, idle) in
            ground (arith, d.others p away, i.fresh p, idle));
      held = λ p. ground (arith, d.done p, d.others p, i.held p, claim p);
      one_place = λ p real.
          (let left = ap (λ l. count p (keys l)) d.rest in
            ground (
              arith,
              left,
              count-batch p max (completions (ready x)),
              i.one_place p real,
              d.done p,
              d.others p,
            ));
    } in
    record {
      at = subst (λ z. InvAt c z w'.ops s.working) (sym d.ring) moved_on;
      known =
          opcode-IsKnown w w' (λ p. ap (λ f. (f p).opcode) d.ops ∙ (settle_all-claim batch w p).1)
            inv.known;
    }

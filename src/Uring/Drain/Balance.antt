-- ===== src/Uring/Drain/Balance.antt =====
-- The references that AIOContext_submit takes and uring_drain_cq gives back.
use caio.Base.{
  ◌==◌, if◌then◌else◌, Bool-cases, length, count, ℤ, Ref, update, incref, operation, ℕ, ◌-◌, ◌^◌,
  ◌≤◌, ◌<◌, ◌≡◌, refl, ap, ◌∙◌, inl, inr, Bool, true, Option, none, some, List, [], ◌∷◌, map, arith,
}
use caio.Uring.State.{World, set_refs}
use caio.Uring.Drain.{Python, settle, invoke, release, call_back, deliver, drain}
use caio.Uring.Drain.Reader.{settle_all}
use caio.Uring.Drain.Delivery.{keys, batch_of, drain-IsCaughtUp}
use caio.Uring.Submit.{submit}
use caio.Uring.Submit.Accept.{claimed_in, IsKnown}
use caio.Uring.Submit.Refines.{free, IsRing, taken}
use caio.Uring.Submit.Holds.{IsTidy, Holds, AreNew, take-unclaimed-AreNew, submit-Holds}

-- Callbacks that leave every reference count as they found it.
pub record KeepsCounts (py : Python) : Type 0 where
  pub call_keeps : (f : Ref) (res : ℤ) (w : World) → (py.call f res w).1.refs ≡ w.refs
  pub unraisable_keeps : (f : Ref) (w : World) → (py.unraisable f w).refs ≡ w.refs

invoke-refs :
    (py : Python) (f : Ref) (res : ℤ) (w : World)
    → KeepsCounts py
    → (invoke py f res w).refs ≡ w.refs
invoke-refs py f res w k = elim (Bool-cases (py.new_int res)) [
  | inr poor ↦ rw poor (k.unraisable_keeps f w)
  | inl enough ↦ elim (Bool-cases (py.call f res w).0) [
    | inl returned ↦ rw (enough, returned) (k.call_keeps f res w)
    | inr raised ↦
        rw (enough, raised) (k.unraisable_keeps f (py.call f res w).1 ∙ k.call_keeps f res w)
  ]
]

call_back-refs :
    (py : Python) (cb : Option Ref) (res : ℤ) (w : World) (q : Ref)
    → KeepsCounts py
    → (call_back py cb res w).refs q ≡ w.refs q
call_back-refs py none res w q k = refl
call_back-refs py (some f) res w q k =
    ground (arith, invoke-refs py f res (set_refs (incref f w.refs) w) k)

pub deliver-refs :
    (py : Python) (ops : List (Ref × ℤ)) (w : World) (q : Ref)
    → KeepsCounts py
    → (deliver py ops w).refs q ≡ w.refs q - count q (keys ops)
unfolding deliver
deliver-refs py [] w q k = omega arith
deliver-refs py ((p, res) ∷ ops) w q k =
    let w' = call_back py (w.ops p).callback res w in
    let rest = deliver-refs py ops (release p w') q k in
    ground (arith, rest, call_back-refs py (w.ops p).callback res w q k)

pub settle_all-refs :
    (c : Ref) (ops : List (Ref × ℤ)) (w : World) (q : Ref)
    → ((p : Ref) → count p (keys ops) ≤ 1)
    → ((p : Ref) → 0 < count p (keys ops) → (w.ops p).context ≡ some c)
    → (settle_all ops w).refs q ≡ w.refs q - (if q == c then length ops else 0)
unfolding settle
settle_all-refs c [] w q once held = ground arith
settle_all-refs c ((p, res) ∷ ops) w q once held =
    let rest =
      settle_all-refs c ops (settle p res w) q (λ r. ground (arith, once r))
        (λ r here. ground (arith, once r, held r, here)) in
    ground (arith, rest, held p)

pub count-AreNew :
    (claimed : Ref → Bool) (xs : List Ref) (q : Ref)
    → AreNew claimed xs
    → (count q xs ≤ 1) × ((claimed q ≡ true) → (count q xs ≡ 0))
count-AreNew claimed [] q new = (omega arith, λ h. refl)
count-AreNew claimed (p ∷ ps) q (idle, new) =
    let rest = count-AreNew (update claimed p true) ps q new in
    (ground (arith, rest.0, rest.1), λ h. ground (arith, rest.1, idle, h))

Holds-context :
    (c : Ref) (xs : List Ref) (w w' : World) (p : Ref)
    → Holds c xs w w'
    → 0 < count p xs
    → (w'.ops p).context ≡ some c
Holds-context c xs w w' p h here = ground (arith, h.ops p, here)

-- A world in which the kernel has completed what a call of submit took, in any order: the counts and
-- the operations are those that submit left, and the completion ring holds one entry for each.
pub record Completed (c max : ℕ) (xs : List Ref) (w w2 : World) : Type 0 where
  pub refs : w2.refs ≡ w.refs
  pub ops : w2.ops ≡ w.ops
  pub head : (w2.ctxs c).cq_head < 2 ^ 32
  pub tail : (w2.ctxs c).cq_tail < 2 ^ 32
  pub same : (q : Ref) → count q (keys (batch_of (w2.ctxs c) max)) ≡ count q xs
  pub length_same : length (batch_of (w2.ctxs c) max) ≡ length xs

-- After a call of submit on a ring in order, with opcodes that are known and no context held by an
-- operation that is not claimed, draining what the kernel completed of it, with memory for the arrays
-- and callbacks that keep the counts, leaves every reference count as it was before the call.
pub submit-drain :
    (py : Python) (c max : ℕ) (ps : List Ref) (w w2 : World)
    → IsRing (w.ctxs c)
    → IsKnown w
    → IsTidy w
    → KeepsCounts py
    → Completed c max (taken c ps w) ((submit c (some (map operation ps)) w).1) w2
    → (q : Ref) → (drain py true c max w2).1.refs q ≡ w.refs q
submit-drain py c max ps w w2 ring known tidy keeps done q =
    let holds = submit-Holds c ps w ring known tidy in
    let batch = batch_of (w2.ctxs c) max in
    let (w1, run, caught, cap) = drain-IsCaughtUp c max w2 done.head done.tail py in
    let settled =
      settle_all-refs c batch w2 q
        (λ p. omega (
          arith,
          done.same p,
          (count-AreNew (claimed_in w) (taken c ps w) p
              (take-unclaimed-AreNew (free (w.ctxs c)) (claimed_in w) ps)).0,
        ))
        (λ p here.
          ap (λ f. (f p).context) done.ops
          ∙ Holds-context c (taken c ps w) w ((submit c (some (map operation ps)) w).1) p holds
              (omega (arith, here, done.same p))) in
    let final = deliver-refs py batch w1 q keeps in
    let start = ap (λ f. f q) done.refs ∙ holds.refs q in
    rw run (
      ground
        (arith, final, settled, start, ap (λ f. f q) caught.refs, done.same q, done.length_same))

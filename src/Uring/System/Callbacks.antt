-- ===== src/Uring/System/Callbacks.antt =====
-- uring_drain_cq with callbacks that call the methods of the same context.
use caio.Base.{
  Bool-cases, ℤ, Ref, Counts, incref, decref, ℕ, ◌≡◌, sym, ap, subst, inl, inr, true, Option, none,
  some, List, [], ◌∷◌,
}
use caio.Uring.State.{World, set_refs}
use caio.Uring.Drain.{Python, invoke, release, call_back, deliver, drain}
use caio.Uring.Drain.Delivery.{batch_of}
use caio.Uring.System.{System, IsApart}
use caio.Uring.System.Calls.{opcode-IsKnown}
use caio.Uring.System.Invariant.{InvAt, Inv}
use caio.Uring.System.Steps.{drain-collected, Drained-Inv}

-- Callbacks that may call the methods of the context: what they do keeps the invariant.
pub record Reenters (py : Python) (c : Ref) : Type 0 where
  pub call_keeps :
      (f : Ref) (res : ℤ) (w : World) (working : List Ref)
      → Inv c (record { world = w; working = working })
      → Inv c (record { world = (py.call f res w).1; working = working })
  pub unraisable_keeps :
      (f : Ref) (w : World) (working : List Ref)
      → Inv c (record { world = w; working = working })
      → Inv c (record { world = py.unraisable f w; working = working })

-- The invariant says nothing of the counts, nor of anything else but operations and contexts.
pub refs-Inv :
    (c : Ref) (r : Counts) (w : World) (working : List Ref)
    → Inv c (record { world = w; working = working })
    → Inv c (record { world = set_refs r w; working = working })
refs-Inv c r w working inv = record { at = inv.at; known = inv.known }

same-Inv :
    (c : Ref) (w v : World) (working : List Ref)
    → v.ops ≡ w.ops
    → v.ctxs ≡ w.ctxs
    → Inv c (record { world = w; working = working })
    → Inv c (record { world = v; working = working })
same-Inv c w v working ops ctxs inv = record {
  at =
      subst (λ f. InvAt c (f c) v.ops working) (sym ctxs)
        (subst (λ f. InvAt c (w.ctxs c) f working) (sym ops) inv.at);
  known = opcode-IsKnown w v (λ q. ap (λ f. (f q).opcode) ops) inv.known;
}

-- Those that leave operations and contexts alone are such callbacks.
pub IsApart-Reenters : (py : Python) (c : Ref) → IsApart py → Reenters py c
IsApart-Reenters py c apart = record {
  call_keeps = λ f res w working inv.
      same-Inv c w (py.call f res w).1 working (apart.call_ops f res w) (apart.call_ctxs f res w)
        inv;
  unraisable_keeps = λ f w working inv.
      same-Inv c w (py.unraisable f w) working (apart.unraisable_ops f w)
        (apart.unraisable_ctxs f w) inv;
}

module _ (py : Python) (c : Ref) (working : List Ref) (re : Reenters py c) where
  invoke-Inv :
      (f : Ref) (res : ℤ) (w : World)
      → Inv c (record { world = w; working = working })
      → Inv c (record { world = invoke py f res w; working = working })
  invoke-Inv f res w inv = elim (Bool-cases (py.new_int res)) [
    | inr poor ↦ rw poor (re.unraisable_keeps f w working inv)
    | inl enough ↦
        let called = re.call_keeps f res w working inv in
        elim (Bool-cases (py.call f res w).0) [
          | inl returned ↦ rw (enough, returned) called
          | inr raised ↦
              rw (enough, raised) (re.unraisable_keeps f (py.call f res w).1 working called)
        ]
  ]

  pub call_back-Inv :
      (f : Option Ref) (res : ℤ) (w : World)
      → Inv c (record { world = w; working = working })
      → Inv c (record { world = call_back py f res w; working = working })
  call_back-Inv none res w inv = inv
  call_back-Inv (some f) res w inv =
      refs-Inv c _ (invoke py f res (set_refs (incref f w.refs) w)) working (
        invoke-Inv f res (set_refs (incref f w.refs) w)
          (refs-Inv c (incref f w.refs) w working inv))

  deliver-Inv :
      (l : List (Ref × ℤ)) (w : World)
      → Inv c (record { world = w; working = working })
      → Inv c (record { world = deliver py l w; working = working })
  unfolding deliver
  deliver-Inv [] w inv = inv
  deliver-Inv ((p, res) ∷ l) w inv =
      let w' = call_back py (w.ops p).callback res w in
      deliver-Inv l (release p w')
        (refs-Inv c (decref p w'.refs) w' working (call_back-Inv (w.ops p).callback res w inv))

pub drains-Inv :
    (py : Python) (c max : ℕ) (s : System)
    → Reenters py c
    → Inv c s
    → Inv c (record s { world = (drain py true c max s.world).1 })
drains-Inv py c max s re inv =
    let (w1, run, refs, d) = drain-collected py c max s inv in
    subst (λ v. Inv c (record s { world = v })) (sym run)
      (deliver-Inv py c s.working re (batch_of (s.world.ctxs c) max) w1
        (Drained-Inv c max s w1 d inv))

-- ===== src/Uring/System/Recounted.antt =====
-- The reference counts under the callbacks of uring_drain_cq.
use caio.Base.{
  Bool-cases, count, ℤ, Ref, Counts, incref, decref, ◌+◌, ◌≡◌, ◌≢◌, inl, inr, Option, none, some,
  List, [], ◌∷◌, arith,
}
use caio.Uring.State.{cancel_user_data, World, set_refs}
use caio.Uring.Drain.{Python, invoke, release, call_back, deliver}
use caio.Uring.Drain.Delivery.{keys}
use caio.Uring.System.Invariant.{Inv}
use caio.Uring.System.Callbacks.{Reenters, refs-Inv, call_back-Inv}
use caio.Uring.System.Counted.{Counted}

-- Callbacks that may call the methods of the context: what they do keeps the references of the ring,
-- whatever else holds references.
pub record KeepsCounted (py : Python) (c : Ref) : Type 0 where
  pub call_keeps :
      (f : Ref) (res : ℤ) (base : Counts) (w : World) (working : List Ref)
      → Inv c (record { world = w; working = working })
      → Counted base c (record { world = w; working = working })
      → Counted base c (record { world = (py.call f res w).1; working = working })
  pub unraisable_keeps :
      (f : Ref) (base : Counts) (w : World) (working : List Ref)
      → Inv c (record { world = w; working = working })
      → Counted base c (record { world = w; working = working })
      → Counted base c (record { world = py.unraisable f w; working = working })

-- References taken or dropped by others.
rebase-Counted :
    (base base' : Counts) (c : Ref) (r : Counts) (w : World) (working : List Ref)
    → ((q : Ref) → q ≢ cancel_user_data → r q + base q ≡ w.refs q + base' q)
    → Counted base c (record { world = w; working = working })
    → Counted base' c (record { world = set_refs r w; working = working })
rebase-Counted base base' c r w working same k = record {
  counts = λ q away. omega (arith, k.counts q away, same q away);
}

module _ (py : Python) (c : Ref) (working : List Ref) (re : Reenters py c)
    (kc : KeepsCounted py c) where
  invoke-Counted :
      (base : Counts) (f : Ref) (res : ℤ) (w : World)
      → Inv c (record { world = w; working = working })
      → Counted base c (record { world = w; working = working })
      → Counted base c (record { world = invoke py f res w; working = working })
  invoke-Counted base f res w inv k = elim (Bool-cases (py.new_int res)) [
    | inr poor ↦ rw poor (kc.unraisable_keeps f base w working inv k)
    | inl enough ↦
        let called = kc.call_keeps f res base w working inv k in
        elim (Bool-cases (py.call f res w).0) [
          | inl returned ↦ rw (enough, returned) called
          | inr raised ↦
              rw (enough, raised)
                (kc.unraisable_keeps f base (py.call f res w).1 working
                  (re.call_keeps f res w working inv) called)
        ]
  ]

  call_back-Counted :
      (base : Counts) (f : Option Ref) (res : ℤ) (w : World)
      → Inv c (record { world = w; working = working })
      → Counted base c (record { world = w; working = working })
      → Counted base c (record { world = call_back py f res w; working = working })
  call_back-Counted base none res w inv k = k
  call_back-Counted base (some f) res w inv k =
      let held = set_refs (incref f w.refs) w in
      let w' = invoke py f res held in
      let one =
        invoke-Counted (incref f base) f res held (refs-Inv c (incref f w.refs) w working inv) (
          rebase-Counted base (incref f base) c (incref f w.refs) w working (λ q away. ground arith)
            k) in
      rebase-Counted (incref f base) base c (decref f w'.refs) w' working
        (λ q away. ground (arith, one.counts q away)) one

  -- Each callback runs while the call still holds the references to the rest of the batch.
  pub deliver-Counted :
      (base : Counts) (l : List (Ref × ℤ)) (w : World)
      → Inv c (record { world = w; working = working })
      → Counted (λ q. base q + count q (keys l)) c (record { world = w; working = working })
      → Counted base c (record { world = deliver py l w; working = working })
  unfolding deliver
  deliver-Counted base [] w inv k = record { counts = λ q away. omega (arith, k.counts q away) }
  deliver-Counted base ((p, res) ∷ l) w inv k =
      let f = (w.ops p).callback in
      let w' = call_back py f res w in
      let called = call_back-Counted (λ q. base q + count q (p ∷ keys l)) f res w inv k in
      deliver-Counted base l (release p w')
        (refs-Inv c (decref p w'.refs) w' working (call_back-Inv py c working re f res w inv))
        (rebase-Counted (λ q. base q + count q (p ∷ keys l)) (λ q. base q + count q (keys l)) c
          (decref p w'.refs) w' working (λ q away. ground (arith, called.counts q away)) called)

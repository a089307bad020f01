-- ===== src/Aio/Events/Cancel.antt =====
-- The outcomes of AIOContext_cancel.
use caio.Base.{
  ◌==◌, Bool-cases, ℤ, Ref, incref, decref, xdecref, propagated, ok, raise, int, operation, ℕ, ◌≡◌,
  refl, sym, ap, ◌∙◌, subst, ◌⊎◌, inl, inr, false, Option, none, some, arith,
}
use caio.Aio.State.{World, set_refs}
use caio.Aio.Events.{
  Python, callback_arg, settle, Canceled, cancel_done, cancel_failed, Kernel, io_cancel_error,
  call_canceled, canceled, cancel,
}
use caio.Aio.Events.Delivery.{Keeps, ended, IsDone, settle-IsDone, settle-ended, settle-others}

-- A result leaves the claims alone.
pub settle-claim :
    (p : Ref) (res : ℤ) (w : World) (q : Ref)
    → ((settle p res w).ops q).in_progress ≡ (w.ops q).in_progress
unfolding settle
settle-claim p res w q = ground arith

-- `w'` is `w` with the operation `p` ended with a result and done, its context and the kernel's reference given back.
pub record Releases (p : Ref) (res : ℤ) (w w' : World) : Type 0 where
  pub done : IsDone (w'.ops p)
  pub result : w'.ops p ≡ ended res (w.ops p)
  pub claimed : (w'.ops p).in_progress ≡ (w.ops p).in_progress
  pub others : (q : Ref) → (q == p) ≡ false → w'.ops q ≡ w.ops q
  pub refs : (q : Ref) → w'.refs q ≡ decref p (xdecref (w.ops p).context w.refs) q

call_canceled-refs :
    (py : Python) (cb : Option Ref) (res : ℤ) (w : World) (q : Ref)
    → Keeps py
    → (call_canceled py cb res w).1.refs q ≡ w.refs q
call_canceled-refs py none res w q k = refl
call_canceled-refs py (some f) res w q k =
    ground (arith, ap (λ r. r q) (k.call_refs f (callback_arg res) (set_refs (incref f w.refs) w)))

call_canceled-ops :
    (py : Python) (cb : Option Ref) (res : ℤ) (w : World)
    → Keeps py
    → (call_canceled py cb res w).1.ops ≡ w.ops
call_canceled-ops py none res w k = refl
call_canceled-ops py (some f) res w k =
    k.call_ops f (callback_arg res) (set_refs (incref f w.refs) w)

Canceled-cases :
    (a : Canceled) → ((res : ℤ) × (a ≡ cancel_done res)) ⊎ ((e : ℕ) × (a ≡ cancel_failed e))
Canceled-cases (cancel_done res) = inl (res, refl)
Canceled-cases (cancel_failed e) = inr (e, refl)

module _ (py : Python) (p : Ref) (res : ℤ) (w : World) (keeps : Keeps py) where
  canceled-Releases : Releases p res w (canceled py p res w).1
  unfolding canceled
  canceled-Releases =
      let w1 = settle p res w in
      let ops = call_canceled-ops py (w1.ops p).callback res w1 keeps in
      record {
        done = subst (λ f. IsDone (f p)) (sym ops) (settle-IsDone p res w);
        result = ap (λ f. f p) ops ∙ settle-ended p res w;
        claimed = ap (λ f. (f p).in_progress) ops ∙ settle-claim p res w p;
        others = λ q away. ap (λ f. f q) ops ∙ settle-others p res w q away;
        refs = λ q.
            let back = call_canceled-refs py (w1.ops p).callback res w1 in
            unfold settle in ground (arith, back q keeps, back p keeps);
      }

  canceled_value :
      ((canceled py p res w).0 ≡ ok (int res)) ⊎ ((canceled py p res w).0 ≡ raise propagated)
  unfolding canceled
  canceled_value =
      let w1 = settle p res w in
      elim (Bool-cases (call_canceled py (w1.ops p).callback res w1).0) [
        | inl e ↦ inl (rw e refl)
        | inr e ↦ inr (rw e refl)
      ]

-- With a handle and callbacks that leave operations and counts alone: if the kernel cancels the
-- operation, that is done, with the number of bytes or the error number of the kernel's result and
-- otherwise as it was, its context and the reference of the kernel are given back, whether the callback raises
-- or not, and the call returns the result or raises what the callback raised; otherwise it raises and
-- changes nothing.
pub cancel_cases :
    (k : Kernel) (py : Python) (c p : Ref) (w : World)
    → Keeps py
    → ((w.ctxs c).ctx == 0) ≡ false
    → let (r, w') = cancel k py (some c) (some (operation p)) w in
      ((res : ℤ) × (k.io_cancel p w ≡ cancel_done res)
        × Releases p res w w'
        × ((r ≡ ok (int res)) ⊎ (r ≡ raise propagated)))
      ⊎ ((e : ℕ) × (k.io_cancel p w ≡ cancel_failed e) × (r ≡ raise (io_cancel_error e)) × (w' ≡ w))
unfolding cancel
cancel_cases k py c p w keeps open_ctx = elim (Canceled-cases (k.io_cancel p w)) [
  | inr (e, kept) ↦ rw (open_ctx, kept) (inr (e, refl, refl, refl))
  | inl (res, done) ↦
      rw (open_ctx, done)
        (inl (res, refl, canceled-Releases py p res w keeps, canceled_value py p res w keeps))
]

-- The two answers of the kernel apart.
pub cancel-Releases :
    (k : Kernel) (py : Python) (c p : Ref) (res : ℤ) (w : World)
    → Keeps py
    → ((w.ctxs c).ctx == 0) ≡ false
    → k.io_cancel p w ≡ cancel_done res
    → Releases p res w (cancel k py (some c) (some (operation p)) w).1
unfolding cancel
cancel-Releases k py c p res w keeps opened done =
    rw (opened, done) (canceled-Releases py p res w keeps)

pub cancel-fails :
    (k : Kernel) (py : Python) (c p e : Ref) (w : World)
    → ((w.ctxs c).ctx == 0) ≡ false
    → k.io_cancel p w ≡ cancel_failed e
    → (cancel k py (some c) (some (operation p)) w).1 ≡ w
unfolding cancel
cancel-fails k py c p e w opened failing = rw (opened, failing) refl

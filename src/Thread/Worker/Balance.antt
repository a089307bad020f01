-- ===== src/Thread/Worker/Balance.antt =====
-- The references that a task holds, from submit to the end of `worker`.
use caio.Base.{
  ◌==◌, if◌then◌else◌, Bool-cases, Ref, Counts, incref, decref, xincref, xdecref, ℕ, ◌+◌, ◌<◌, ◌≡◌,
  refl, ap, ◌∙◌, inl, inr, true, Option, none, some, arith,
}
use caio.Thread.State.{Opcode, thaio_write, World}
use caio.Thread.Submit.{claim}
use caio.Thread.Worker.{Kernel, written_refs, is_noop, worker}
use mathlib.Core.Path.{fun_ext}

-- A write drops its payload when it is done.
abbrev pub dropped : Opcode → Option Ref → Ref → ℕ
dropped thaio_write (some b) q = if q == b then 1 else 0
dropped _ _ q = 0

abbrev same : Ref → Ref → ℕ
same q p = if q == p then 1 else 0

xdecref-xincref : (f : Option Ref) (r : Counts) → xdecref f (xincref f r) ≡ r
xdecref-xincref none r = refl
xdecref-xincref (some f) r = fun_ext λ q. ground arith

-- What `worker` does to the counts, on either of its ways.
worker-refs :
    (k : Kernel) (p : Ref) (w : World)
    → let o = w.ops p in
      (worker k p w).refs ≡ decref p (xdecref o.ctx (written_refs o.opcode o.py_buffer w.refs))
unfolding worker
worker-refs k p w = elim (Bool-cases (is_noop (w.ops p).opcode)) [
  | inl noop ↦ ground arith
  | inr real ↦ ground (
    arith,
    xdecref-xincref (w.ops p).callback (written_refs (w.ops p).opcode (w.ops p).py_buffer w.refs),
  )
]

drop_two :
    (c p : Ref) (r r' : Counts)
    → ((q : Ref) → r q ≡ r' q + same q p + same q c)
    → (q : Ref) → decref p (decref c r) q ≡ r' q
drop_two c p r r' h q = ground (arith, h q, h p, h c)

written-claim :
    (code : Opcode) (b : Option Ref) (c p : Ref) (r : Counts)
    → ((a : Ref) → b ≡ some a → 0 < r a)
    → (q : Ref)
    → written_refs code b (incref c (incref p r)) q ≡ written_refs code b r q + same q p + same q c
written-claim thaio_write none c p r owned q = ground arith
written-claim thaio_write (some a) c p r owned q = ground (arith, owned a refl)
written-claim _ b c p r owned q = ground arith

written-dropped :
    (code : Opcode) (b : Option Ref) (r : Counts)
    → ((a : Ref) → b ≡ some a → 0 < r a)
    → (q : Ref) → written_refs code b r q + dropped code b q ≡ r q
written-dropped thaio_write none r owned q = ground arith
written-dropped thaio_write (some a) r owned q = ground (arith, owned a refl)
written-dropped _ b r owned q = ground arith

claim-op :
    (c p : Ref) (w : World)
    → (claim c p w).ops p ≡ record (w.ops p) { in_progress = true; ctx = some c }
unfolding claim
claim-op c p w = ground arith

claim-refs : (c p : Ref) (w : World) → (claim c p w).refs ≡ incref c (incref p w.refs)
unfolding claim
claim-refs c p w = refl

worker-refs_claim :
    (k : Kernel) (c p : Ref) (w : World)
    → let o = w.ops p in
      (worker k p (claim c p w)).refs
      ≡ decref p (decref c (written_refs o.opcode o.py_buffer (incref c (incref p w.refs))))
worker-refs_claim k c p w =
    worker-refs k p (claim c p w)
    ∙ ap (λ o. decref p (xdecref o.ctx (written_refs o.opcode o.py_buffer (claim c p w).refs)))
        (claim-op c p w)
    ∙ ap (λ r. decref p (decref c (written_refs (w.ops p).opcode (w.ops p).py_buffer r)))
        (claim-refs c p w)

-- submit and `worker` together leave every count as it was, less one for the payload of a write.
pub worker-claim :
    (k : Kernel) (c p : Ref) (w : World)
    → ((b : Ref) → (w.ops p).py_buffer ≡ some b → 0 < w.refs b)
    → (q : Ref)
    → (worker k p (claim c p w)).refs q + dropped (w.ops p).opcode (w.ops p).py_buffer q ≡ w.refs q
worker-claim k c p w owned q =
    let o = w.ops p in
    omega (
      arith,
      ap (λ (r : Counts). r q) (worker-refs_claim k c p w),
      drop_two c p (written_refs o.opcode o.py_buffer (incref c (incref p w.refs)))
          (written_refs o.opcode o.py_buffer w.refs)
          (written-claim o.opcode o.py_buffer c p w.refs owned) q,
      written-dropped o.opcode o.py_buffer w.refs owned q,
    )

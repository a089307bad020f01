-- ===== src/Aio/Events/Balance.antt =====
-- The references that AIOContext_submit takes and AIOContext_process_events gives back.
use caio.Base.{
  ◌==◌, length, take, count, count-take_le, Ref, unclaimed, ok, Arg, ◌≤◌, ◌<◌, ◌≡◌, ap, ◌∙◌, true,
  false, some, List, arith,
}
use caio.Aio.State.{World}
use caio.Aio.Submit.{Answer, check_types, submit}
use caio.Aio.Events.{Event, Python, deliver, Kernel, EventArgs, process_events}
use caio.Aio.Submit.Claims.{claimed_in, IsTidy, count-unclaimed}
use caio.Aio.Submit.Outcome.{Takes, expected, submit-Takes}
use caio.Aio.Events.Delivery.{Keeps, keys, deliver-refs, Gives, process_events-deliver}

-- The operations that a call of submit takes.
abbrev pub taken : (Ref → List Ref → Answer) → Ref → List Ref → World → List Ref
taken io_submit c ps w =
    let todo = unclaimed (claimed_in w) ps in take (expected io_submit c todo).1 todo

taken_once :
    (io_submit : Ref → List Ref → Answer) (c : Ref) (ps : List Ref) (w : World) (q : Ref)
    → count q (taken io_submit c ps w) ≤ 1
taken_once io_submit c ps w q =
    let todo = unclaimed (claimed_in w) ps in
    omega (
      arith,
      count-take_le (expected io_submit c todo).1 q todo,
      (count-unclaimed (claimed_in w) ps q).0,
    )

-- No operation is taken that was claimed already.
pub taken_new :
    (io_submit : Ref → List Ref → Answer) (c : Ref) (ps : List Ref) (w : World) (q : Ref)
    → (count q (taken io_submit c ps w) ≤ 1)
      × (((w.ops q).in_progress ≡ true) → (count q (taken io_submit c ps w) ≡ 0))
taken_new io_submit c ps w q = (
  taken_once io_submit c ps w q,
  λ busy.
      let todo = unclaimed (claimed_in w) ps in
      omega (
        arith,
        count-take_le (expected io_submit c todo).1 q todo,
        (count-unclaimed (claimed_in w) ps q).1 busy,
      ),
)

-- The events of what a call of submit took, in any order, and the world in which io_getevents gives
-- them: the counts and the operations are those that submit left.
pub record Completed (es : List Event) (xs : List Ref) (w w1 : World) : Type 0 where
  pub refs : w1.refs ≡ w.refs
  pub ops : w1.ops ≡ w.ops
  pub same : (q : Ref) → count q (keys es) ≡ count q xs
  pub length_same : length es ≡ length xs

Takes-context :
    (c : Ref) (xs : List Ref) (w w' : World) (p : Ref)
    → Takes c xs w w'
    → 0 < count p xs
    → (w'.ops p).context ≡ some c
Takes-context c xs w w' p t here = ground (arith, t.context p, here)

deliver_back :
    (io_submit : Ref → List Ref → Answer) (py : Python) (c : Ref) (args : List Arg) (ps : List Ref)
    (es : List Event) (w w1 : World)
    → Keeps py
    → IsTidy w
    → ((w.ctxs c).ctx == 0) ≡ false
    → check_types args ≡ ok ps
    → Completed es (taken io_submit c ps w) (submit io_submit true (some c) (some args) w).1 w1
    → (q : Ref) → (deliver py es w1).refs q ≡ w.refs q
deliver_back io_submit py c args ps es w w1 keeps tidy open_ctx typed done q =
    let takes = (submit-Takes io_submit c args ps w tidy open_ctx typed).1 in
    let xs = taken io_submit c ps w in
    let final =
      deliver-refs py c es w1 q keeps
        (λ p. omega (arith, done.same p, taken_once io_submit c ps w p))
        (λ p here.
          ap (λ f. (f p).context) done.ops
          ∙ Takes-context c xs w ((submit io_submit true (some c) (some args) w).1) p takes
              (omega (arith, here, done.same p))) in
    let start = ap (λ f. f q) done.refs ∙ takes.refs q in
    ground (arith, final, start, done.same q, done.length_same)

-- With a handle and memory, callbacks that leave operations and counts alone, and no context held by
-- an operation that is not claimed: a call of process_events whose events are those of what submit
-- took, in any order, leaves every reference count as it was before the call of submit.
pub submit-process_events :
    (io_submit : Ref → List Ref → Answer) (k : Kernel) (py : Python) (c : Ref) (args : List Arg)
    (ps : List Ref) (eargs : EventArgs) (es : List Event) (w w1 w2 : World)
    → Keeps py
    → IsTidy w
    → ((w.ctxs c).ctx == 0) ≡ false
    → check_types args ≡ ok ps
    → Completed es (taken io_submit c ps w) (submit io_submit true (some c) (some args) w).1 w2
    → Gives k c eargs es w1 w2
    → (q : Ref) → (process_events k py true c (some eargs) w1).1.refs q ≡ w.refs q
submit-process_events io_submit k py c args ps eargs es w w1 w2 keeps tidy has_handle typed done g
      q =
    rw (process_events-deliver k py c eargs es w1 w2 g)
      (deliver_back io_submit py c args ps es w w2 keeps tidy has_handle typed done q)

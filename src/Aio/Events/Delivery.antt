-- ===== src/Aio/Events/Delivery.antt =====
-- What process_events and cancel have done to the operations and the references.
use caio.Base.{
  ltb, ◌==◌, if◌then◌else◌, Bool-cases, length, count, ℤ, pos, negsuc, u32, Ref, incref, decref,
  xdecref, ok, int, ◌+◌, ◌-◌, ◌≤◌, ◌<◌, ◌≡◌, refl, ap, ◌∙◌, subst, ◌⊎◌, inl, inr, true, false,
  Option, none, some, List, [], ◌∷◌, arith,
}
use caio.Aio.State.{Operation, World, set_refs}
use caio.Aio.Events.{
  max_events_request, Event, Python, callback_arg, settle, call_back, deliver_one, deliver, events,
  Kernel, EventArgs, or_default, timeout, collect, process_events,
}

-- Callbacks that leave the operations, their claims and every reference count as they found them.
pub record Keeps (py : Python) : Type 0 where
  pub call_refs : (f : Ref) (arg : ℤ) (w : World) → (py.call f arg w).1.refs ≡ w.refs
  pub call_ops : (f : Ref) (arg : ℤ) (w : World) → (py.call f arg w).1.ops ≡ w.ops
  pub unraisable_refs : (f : Ref) (w : World) → (py.unraisable f w).refs ≡ w.refs
  pub unraisable_ops : (f : Ref) (w : World) → (py.unraisable f w).ops ≡ w.ops

-- The operations of the events.
abbrev pub keys : List Event → List Ref
keys [] = []
keys (ev ∷ es) = ev.data_ref ∷ keys es

pub call_back-refs :
    (py : Python) (cb : Option Ref) (res : ℤ) (w : World) (q : Ref)
    → Keeps py
    → (call_back py cb res w).refs q ≡ w.refs q
call_back-refs py none res w q k = refl
call_back-refs py (some f) res w q k =
    let held = set_refs (incref f w.refs) w in
    let w' = (py.call f (callback_arg res) held).1 in
    ground (
      arith,
      ap (λ r. r q) (k.call_refs f (callback_arg res) held),
      ap (λ r. r q) (k.unraisable_refs f w'),
    )

pub call_back-ops :
    (py : Python) (cb : Option Ref) (res : ℤ) (w : World)
    → Keeps py
    → (call_back py cb res w).ops ≡ w.ops
call_back-ops py none res w k = refl
call_back-ops py (some f) res w k =
    let held = set_refs (incref f w.refs) w in
    let (returned, w') = py.call f (callback_arg res) held in
    elim (Bool-cases (py.call f (callback_arg res) held).0) [
      | inl e ↦ rw e (k.call_ops f (callback_arg res) held)
      | inr e ↦ rw e (k.unraisable_ops f w' ∙ k.call_ops f (callback_arg res) held)
    ]

-- One event: the operation is done and holds no context, and the others are as they were.
deliver_one-ops :
    (py : Python) (ev : Event) (w : World)
    → Keeps py
    → (deliver_one py ev w).ops ≡ (settle ev.data_ref ev.res w).ops
unfolding deliver_one
deliver_one-ops py ev w k =
    let w' = settle ev.data_ref ev.res w in
    call_back-ops py (w'.ops ev.data_ref).callback ev.res w' k

deliver_one-refs :
    (py : Python) (ev : Event) (w : World) (q : Ref)
    → Keeps py
    → (deliver_one py ev w).refs q
      ≡ decref ev.data_ref (xdecref (w.ops ev.data_ref).context w.refs) q
unfolding deliver_one settle
deliver_one-refs py ev w q k =
    let w' = settle ev.data_ref ev.res w in
    ground (arith, call_back-refs py (w'.ops ev.data_ref).callback ev.res w' q k)

-- The results of the events alone, in order.
abbrev pub settle_all : List Event → World → World
settle_all [] w = w
settle_all (ev ∷ es) w = settle_all es (settle ev.data_ref ev.res w)

settle-congr :
    (p : Ref) (res : ℤ) (u v : World) → u.ops ≡ v.ops → (settle p res u).ops ≡ (settle p res v).ops
unfolding settle
settle-congr p res u v same = rw same refl

settle_all-congr :
    (es : List Event) (u v : World) → u.ops ≡ v.ops → (settle_all es u).ops ≡ (settle_all es v).ops
settle_all-congr [] u v same = same
settle_all-congr (ev ∷ es) u v same =
    settle_all-congr es (settle ev.data_ref ev.res u) (settle ev.data_ref ev.res v)
      (settle-congr ev.data_ref ev.res u v same)

pub deliver-settle_all :
    (py : Python) (es : List Event) (w : World)
    → Keeps py
    → (deliver py es w).ops ≡ (settle_all es w).ops
unfolding deliver
deliver-settle_all py [] w k = refl
deliver-settle_all py (ev ∷ es) w k =
    deliver-settle_all py es (deliver_one py ev w) k
    ∙ settle_all-congr es (deliver_one py ev w) (settle ev.data_ref ev.res w)
        (deliver_one-ops py ev w k)

-- The result of the first event of an operation.
abbrev pub result_of : Ref → List Event → ℤ
result_of q [] = pos 0
result_of q (ev ∷ es) = let rest = result_of q es in if q == ev.data_ref then ev.res else rest

-- An operation that ended with a result: the number of bytes, or the error number as an `int`.
abbrev pub ended : ℤ → Operation → Operation
ended (pos n) o = record o { iocb = record o.iocb { nbytes = n }; context = none; done = true }
ended (negsuc n) o = record o { error = u32 (n + 1); context = none; done = true }

-- After the loop the operations have their results, as if there were no callbacks: those of the events
-- are done and hold no context, each with one event has ended with its result, and no other has
-- changed. The references dropped are those to a
-- context that a result drops, and one to each operation.
pub record Delivered (es : List Event) (w w' : World) : Type 0 where
  pub ops : w'.ops ≡ (settle_all es w).ops
  pub refs : (q : Ref) → w'.refs q ≡ (settle_all es w).refs q - count q (keys es)
  pub done :
      (q : Ref) → 0 < count q (keys es) → ((w'.ops q).done ≡ true) × ((w'.ops q).context ≡ none)
  pub results : (q : Ref) → count q (keys es) ≡ 1 → w'.ops q ≡ ended (result_of q es) (w.ops q)
  pub others : (q : Ref) → count q (keys es) ≡ 0 → w'.ops q ≡ w.ops q

abbrev pub IsDone : Operation → Type 0
IsDone o = (o.done ≡ true) × (o.context ≡ none)

pub settle-IsDone : (p : Ref) (res : ℤ) (w : World) → IsDone ((settle p res w).ops p)
unfolding settle
settle-IsDone p res w = ground arith

settle-keeps :
    (p : Ref) (res : ℤ) (w : World) (q : Ref) → IsDone (w.ops q) → IsDone ((settle p res w).ops q)
unfolding settle
settle-keeps p res w q h = ground (arith, h.0, h.1)

pub settle-ended : (p : Ref) (res : ℤ) (w : World) → (settle p res w).ops p ≡ ended res (w.ops p)
unfolding settle
settle-ended p (pos n) w = ground arith
settle-ended p (negsuc n) w = ground arith

pub settle-others :
    (p : Ref) (res : ℤ) (w : World) (q : Ref) → (q == p) ≡ false → (settle p res w).ops q ≡ w.ops q
unfolding settle
settle-others p res w q away = ground arith

pub deliver-finishes :
    (py : Python) (es : List Event) (w : World) (q : Ref)
    → Keeps py
    → IsDone (w.ops q) ⊎ (0 < count q (keys es))
    → IsDone ((deliver py es w).ops q)
unfolding deliver
deliver-finishes py [] w q k (inl h) = h
deliver-finishes py [] w q k (inr h) = absurd (omega arith)
deliver-finishes py (ev ∷ es) w q k h = deliver-finishes py es (deliver_one py ev w) q k (later h)
  where
    later :
        IsDone (w.ops q) ⊎ (0 < count q (keys (ev ∷ es)))
        → IsDone ((deliver_one py ev w).ops q) ⊎ (0 < count q (keys es))
    later (inl d) = inl (rw (deliver_one-ops py ev w k) (settle-keeps ev.data_ref ev.res w q d))
    later (inr d) = elim (Bool-cases (q == ev.data_ref)) [
      | inl e ↦
          let same : ev.data_ref ≡ q = ground (arith, e) in
          inl (
            rw (deliver_one-ops py ev w k) (
              subst (λ r. IsDone ((settle ev.data_ref ev.res w).ops r)) same
                (settle-IsDone ev.data_ref ev.res w)))
      | inr e ↦ inr (ground (arith, e, d))
    ]

pub deliver-others :
    (py : Python) (es : List Event) (w : World) (q : Ref)
    → Keeps py
    → count q (keys es) ≡ 0
    → (deliver py es w).ops q ≡ w.ops q
unfolding deliver
deliver-others py [] w q k away = refl
deliver-others py (ev ∷ es) w q k away =
    deliver-others py es (deliver_one py ev w) q k (ground arith)
    ∙ ap (λ f. f q) (deliver_one-ops py ev w k)
    ∙ settle-others ev.data_ref ev.res w q (ground arith)

pub deliver-refs :
    (py : Python) (c : Ref) (es : List Event) (w : World) (q : Ref)
    → Keeps py
    → ((p : Ref) → count p (keys es) ≤ 1)
    → ((p : Ref) → 0 < count p (keys es) → (w.ops p).context ≡ some c)
    → (deliver py es w).refs q ≡ w.refs q - count q (keys es) - (if q == c then length es else 0)
unfolding deliver
deliver-refs py c [] w q k once held = ground arith
deliver-refs py c (ev ∷ es) w q k once held =
    let w' = deliver_one py ev w in
    let away = λ (p : Ref) (here : 0 < count p (keys es)). other_key p here in
    let rest =
      deliver-refs py c es w' q k (λ p. ground (arith, once p))
        (λ p here.
          ap (λ (f : Ref → Operation). (f p).context) (deliver_one-ops py ev w k)
          ∙ ap (λ (o : Operation). o.context) (settle-others ev.data_ref ev.res w p (away p here))
          ∙ held p (ground (arith, here))) in
    ground (arith, rest, held ev.data_ref, deliver_one-refs py ev w q k)
  where
    other_key : (p : Ref) → 0 < count p (keys es) → (p == ev.data_ref) ≡ false
    other_key p here = ground (arith, once p)

-- A call that io_getevents gives events.
pub record Gives (k : Kernel) (c : Ref) (args : EventArgs) (es : List Event) (w w1 : World)
    : Type 0 where
  pub has_handle : ((w.ctxs c).ctx == 0) ≡ false
  pub small : or_default args.max_requests ≤ max_events_request
  pub order : args.min_requests ≤ or_default args.max_requests
  pub got :
      k.getevents args.min_requests (or_default args.max_requests) (timeout args.tv_sec) w
      ≡ (events es, w1)

pub process_events-deliver :
    (k : Kernel) (py : Python) (c : Ref) (args : EventArgs) (es : List Event) (w w1 : World)
    → Gives k c args es w w1
    → process_events k py true c (some args) w ≡ (ok (int (pos (length es))), deliver py es w1)
unfolding process_events collect
process_events-deliver k py c args es w w1 g =
    let fits : ltb max_events_request (or_default args.max_requests) ≡ false =
      ground (arith, g.small) in
    let ordered : ltb (or_default args.max_requests) args.min_requests ≡ false =
      ground (arith, g.order) in
    rw (g.has_handle, fits, ordered, g.got) refl

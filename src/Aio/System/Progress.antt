-- ===== src/Aio/System/Progress.antt =====
-- Every operation of linux_aio can be finished: the kernel completes it, and process_events collects
-- the events up to its own.
use caio.Base.{
  ◌==◌, Bool-cases, count, split_at_member, ℤ, pos, Ref, incref, ◌<◌, ◌≡◌, refl, sym, ap, ◌∙◌,
  subst, inl, inr, true, false, Option, none, some, List, [], ◌∷◌, ◌++◌, arith, dec_lt,
}
use caio.Aio.State.{World, set_refs}
use caio.Aio.Events.{
  Event, Python, callback_arg, settle, call_back, deliver_one, deliver, events, cancel_failed,
  Kernel, EventArgs, process_events,
}
use caio.Aio.Events.Delivery.{Keeps, keys, IsDone, deliver-finishes, process_events-deliver}
use caio.Aio.System.{System, Step, completes, collects, Reach, here, next}
use caio.Aio.System.Invariant.{flight, count-keys}
use caio.Aio.System.Safety.{Initial, Reach-Inv}

-- Callbacks that leave the contexts as they found them.
pub record KeepsContexts (py : Python) : Type 0 where
  pub call_ctxs : (f : Ref) (arg : ℤ) (w : World) → (py.call f arg w).1.ctxs ≡ w.ctxs
  pub unraisable_ctxs : (f : Ref) (w : World) → (py.unraisable f w).ctxs ≡ w.ctxs

call_back-ctxs :
    (py : Python) (cb : Option Ref) (res : ℤ) (w : World)
    → KeepsContexts py
    → (call_back py cb res w).ctxs ≡ w.ctxs
call_back-ctxs py none res w k = refl
call_back-ctxs py (some f) res w k =
    let held = set_refs (incref f w.refs) w in
    let (returned, w') = py.call f (callback_arg res) held in
    elim (Bool-cases (py.call f (callback_arg res) held).0) [
      | inl e ↦ rw e (k.call_ctxs f (callback_arg res) held)
      | inr e ↦ rw e (k.unraisable_ctxs f w' ∙ k.call_ctxs f (callback_arg res) held)
    ]

deliver_one-ctxs :
    (py : Python) (ev : Event) (w : World) → KeepsContexts py → (deliver_one py ev w).ctxs ≡ w.ctxs
unfolding deliver_one settle
deliver_one-ctxs py ev w k =
    let w' = settle ev.data_ref ev.res w in
    call_back-ctxs py (w'.ops ev.data_ref).callback ev.res w' k

-- A call that asks for one event, of a kernel that has it.
abbrev one_at_most : EventArgs
one_at_most = record { max_requests = 1; min_requests = 0; tv_sec = pos 0 }

abbrev gives_one : Event → Kernel
gives_one ev = record {
  getevents = λ min max t w. (events (ev ∷ []), w);
  io_cancel = λ p w. cancel_failed 0;
}

-- What is reached from `s` with the operation `p` done.
abbrev pub Finishes : Python → Ref → System → Ref → Type 0
Finishes py c s p = (t : System) × Reach py c s t × ((t.world.ops p).done ≡ true)

Reach-trans :
    {py : Python} {c : Ref} {s t u : System} → Reach py c s t → Reach py c t u → Reach py c s u
Reach-trans r here = r
Reach-trans r (next q st) = next (Reach-trans r q) st

Step-Finishes :
    {py : Python} {c : Ref} {s t : System} (p : Ref)
    → Step py c s t
    → Finishes py c t p
    → Finishes py c s p
Step-Finishes p st (u, r, fin) = (u, Reach-trans (next here st) r, fin)

module _ (py : Python) (c p : Ref) (keeps : Keeps py) (ctxs : KeepsContexts py) where
  collect-one :
      (ev : Event) (w : World)
      → ((w.ctxs c).ctx == 0) ≡ false
      → (process_events (gives_one ev) py true c (some one_at_most) w).1 ≡ deliver py (ev ∷ []) w
  collect-one ev w opened =
      ap (λ r. r.1)
        (process_events-deliver (gives_one ev) py c one_at_most (ev ∷ []) w w
          (record { has_handle = opened; small = omega arith; order = omega arith; got = refl }))

  deliver-one : (ev : Event) (w : World) → deliver py (ev ∷ []) w ≡ deliver_one py ev w
  unfolding deliver
  deliver-one ev w = refl

  made-Finishes :
      (made : List Event) (working : List Ref) (w : World)
      → ((w.ctxs c).ctx == 0) ≡ false
      → 0 < count p (keys made)
      → Finishes py c (record { world = w; working = working; made = made }) p
  made-Finishes [] working w opened there = absurd (omega arith)
  made-Finishes (ev ∷ es) working w opened there =
      let step : Step py c (record { world = w; working = working; made = ev ∷ es })
          (record {
            world = (process_events (gives_one ev) py true c (some one_at_most) w).1;
            working = working;
            made = es;
          }) =
        collects (gives_one ev) one_at_most (ev ∷ []) es
          (record { has_handle = opened; small = omega arith; order = omega arith; got = refl })
          (omega arith) refl in
      let after_one = (process_events (gives_one ev) py true c (some one_at_most) w).1 in
      let called = collect-one ev w opened in
      let same = called ∙ deliver-one ev w in
      elim (Bool-cases (p == ev.data_ref)) [
        | inl hit ↦ (
          _,
          next here step,
          (subst (λ v. IsDone (v.ops p)) (sym called)
              (deliver-finishes py (ev ∷ []) w p keeps (inr (ground (arith, hit))))).0,
        )
        | inr miss ↦ Step-Finishes p step (
            made-Finishes es working after_one
              (ground (
                arith,
                ap (λ v. (v.ctxs c).ctx) same,
                ap (λ f. (f c).ctx) (deliver_one-ctxs py ev w ctxs),
                opened,
              ))
              (ground (arith, miss, there)))
      ]

-- From every reachable state of a context with a handle, an operation in flight can be finished: by
-- the kernel, which completes it, and calls of process_events, that collect one event each. Callbacks
-- change no operation, count or context.
pub claimed-Finishes :
    (py : Python) (c : Ref) (s t : System) (p : Ref)
    → Keeps py
    → KeepsContexts py
    → Initial s
    → Reach py c s t
    → ((t.world.ctxs c).ctx == 0) ≡ false
    → flight (t.world.ops p) ≡ 1
    → Finishes py c t p
claimed-Finishes py c s t p keeps ctxs start reach opened flying =
    let inv = Reach-Inv py c s t keeps start reach in
    elim (dec_lt 0 (count p t.working)) [
      | yes busy ↦
          let (js, ks, split) = split_at_member p t.working busy in
          let ev : Event = record { data_ref = p; res = pos 0 } in
          Step-Finishes p (completes js ks p (pos 0) split) (
            made-Finishes py c p keeps ctxs (t.made ++ ev ∷ []) (js ++ ks) t.world opened
              (ground (arith, count-keys p t.made (ev ∷ []))))
      | no away ↦
          made-Finishes py c p keeps ctxs t.made t.working t.world opened
            (omega (arith, away, inv.one_place p, flying))
    ]

-- ===== src/Aio/System/Invariant.antt =====
-- The invariant of a context of linux_aio, kept by each call and each move of the kernel.
use caio.Base.{
  ◌==◌, if◌then◌else◌, length, length-append, count, count-append, ℤ, Ref, Counts, ok, Arg,
  operation, ℕ, ◌+◌, ◌≤◌, ◌<◌, ◌≡◌, refl, ap, ◌∙◌, true, false, not, ◌&&◌, Option, none, some, List,
  [], ◌∷◌, ◌++◌, arith,
}
use caio.Aio.State.{Operation, World}
use caio.Aio.Submit.{Answer, check_types, submit}
use caio.Aio.Events.{Event, Python, settle, cancel_done, Kernel, EventArgs, process_events, cancel}
use caio.Aio.Submit.Outcome.{submit-Takes}
use caio.Aio.Events.Delivery.{
  Keeps, keys, settle_all, deliver-settle_all, deliver-finishes, deliver-others, deliver-refs,
  Gives, process_events-deliver,
}
use caio.Aio.Events.Balance.{taken, taken_new}
use caio.Aio.Events.Cancel.{settle-claim, cancel-Releases}
use caio.Aio.System.{System}

-- Whether an operation is in flight, and the context that it then holds.
abbrev pub flight : Operation → ℕ
flight o = if o.in_progress && not o.done then 1 else 0

abbrev pub holder : Ref → Operation → Option Ref
holder c o = if o.in_progress && not o.done then some c else none

-- In how many places an operation is: with the kernel, or in an event that is not collected.
abbrev pub places : Ref → List Ref → List Event → ℕ
places p working made = count p working + count p (keys made)

-- How many operations the context has.
abbrev pub in_flight : List Ref → List Event → ℕ
in_flight working made = length working + length made

-- The kernel, and for each operation the context, hold one reference each; `base` has the others.
pub record InvAt (base : Counts) (c : Ref) (w : World) (working : List Ref) (made : List Event)
    : Type 0 where
  pub fresh :
      (p : Ref)
      → (w.ops p).in_progress ≡ false
      → ((w.ops p).done ≡ false) × ((w.ops p).context ≡ none)
  pub held : (p : Ref) → (w.ops p).context ≡ holder c (w.ops p)
  pub one_place : (p : Ref) → places p working made ≡ flight (w.ops p)
  pub refs :
      (q : Ref)
      → w.refs q ≡ base q + places q working made + (if q == c then in_flight working made else 0)

abbrev pub Inv : Counts → Ref → System → Type 0
Inv base c s = InvAt base c s.world s.working s.made

pub count-keys :
    (q : Ref) (xs ys : List Event)
    → count q (keys (xs ++ ys)) ≡ count q (keys xs) + count q (keys ys)
count-keys q [] ys = omega arith
count-keys q (e ∷ es) ys = ground (arith, count-keys q es ys)

pub settle_all-claim :
    (es : List Event) (w : World) (q : Ref)
    → ((settle_all es w).ops q).in_progress ≡ (w.ops q).in_progress
settle_all-claim [] w q = refl
settle_all-claim (ev ∷ es) w q =
    settle_all-claim es (settle ev.data_ref ev.res w) q ∙ settle-claim ev.data_ref ev.res w q

module _ (base : Counts) (c : Ref) (w : World) (working : List Ref) (made : List Event)
    (inv : InvAt base c w working made) where
  pub submits-Inv :
      (io_submit : Ref → List Ref → Answer) (args : List Arg) (ps : List Ref)
      → ((w.ctxs c).ctx == 0) ≡ false
      → check_types args ≡ ok ps
      → InvAt base c
          (submit io_submit true (some c) (some args) w).1
          (working ++ taken io_submit c ps w)
          made
  submits-Inv io_submit args ps opened typed =
      let xs = taken io_submit c ps w in
      let t =
        (submit-Takes io_submit c args ps w (λ p idle. (inv.fresh p idle).1) opened typed).1 in
      let once = λ (p : Ref). taken_new io_submit c ps w p in
      record {
        fresh = λ p idle. ground (arith, t.in_progress p, t.context p, t.done p, inv.fresh p, idle);
        held = λ p.
            ground
              (arith, t.in_progress p, t.context p, t.done p, inv.held p, inv.fresh p, (once p).1);
        one_place = λ p. ground (
          arith,
          count-append p working xs,
          t.in_progress p,
          t.done p,
          inv.one_place p,
          inv.fresh p,
          (once p).0,
          (once p).1,
        );
        refs = λ q.
            ground
              (arith, t.refs q, inv.refs q, count-append q working xs, length-append working xs);
      }

  pub completes-Inv :
      (js ks : List Ref) (p : Ref) (res : ℤ)
      → working ≡ js ++ p ∷ ks
      → InvAt base c w (js ++ ks) (made ++ record { data_ref = p; res = res } ∷ [])
  completes-Inv js ks p res split =
      let ev : List Event = record { data_ref = p; res = res } ∷ [] in
      let before = λ (q : Ref). ap (count q) split ∙ count-append q js (p ∷ ks) in
      record {
        fresh = inv.fresh;
        held = inv.held;
        one_place = λ q.
            ground (arith, before q, count-append q js ks, count-keys q made ev, inv.one_place q);
        refs = λ q. ground (
          arith,
          before q,
          count-append q js ks,
          count-keys q made ev,
          ap length split ∙ length-append js (p ∷ ks),
          length-append js ks,
          length-append made ev,
          inv.refs q,
        );
      }

  pub collects-Inv :
      (k : Kernel) (py : Python) (args : EventArgs) (es rest : List Event)
      → Keeps py
      → Gives k c args es w w
      → made ≡ es ++ rest
      → InvAt base c (process_events k py true c (some args) w).1 working rest
  collects-Inv k py args es rest keeps gives split =
      let kept = λ (p : Ref).
        ap (λ f. (f p).in_progress) (deliver-settle_all py es w keeps) ∙ settle_all-claim es w p in
      let before = λ (p : Ref). ap (λ l. count p (keys l)) split ∙ count-keys p es rest in
      let once : (p : Ref) → count p (keys es) ≤ 1 =
        λ p. ground (arith, before p, inv.one_place p) in
      let context : (p : Ref) → 0 < count p (keys es) → (w.ops p).context ≡ some c =
        λ p inside. ground (arith, before p, inv.one_place p, inv.held p, inside) in
      rw (process_events-deliver k py c args es w w gives) (record {
        fresh = λ p idle.
            (let away : count p (keys es) ≡ 0 =
                ground (arith, before p, inv.one_place p, kept p, idle) in
              ground (arith, deliver-others py es w p keeps away, inv.fresh p, idle));
        held = λ p. ground (
          arith,
          deliver-finishes py es w p keeps,
          deliver-others py es w p keeps,
          inv.held p,
          kept p,
        );
        one_place = λ p. ground (
          arith,
          before p,
          deliver-finishes py es w p keeps,
          deliver-others py es w p keeps,
          inv.one_place p,
          kept p,
        );
        refs = λ q. ground (
          arith,
          before q,
          deliver-refs py c es w q keeps once context,
          ap length split ∙ length-append es rest,
          inv.refs q,
        );
      })

  pub cancels-Inv :
      (k : Kernel) (py : Python) (js ks : List Ref) (p : Ref) (res : ℤ)
      → Keeps py
      → ((w.ctxs c).ctx == 0) ≡ false
      → working ≡ js ++ p ∷ ks
      → k.io_cancel p w ≡ cancel_done res
      → InvAt base c (cancel k py (some c) (some (operation p)) w).1 (js ++ ks) made
  cancels-Inv k py js ks p res keeps opened split done =
      let r = cancel-Releases k py c p res w keeps opened done in
      let before = λ (q : Ref). ap (count q) split ∙ count-append q js (p ∷ ks) in
      let context : (w.ops p).context ≡ some c =
        ground (arith, before p, inv.one_place p, inv.held p) in
      record {
        fresh = λ q idle.
            ground (arith, before p, inv.one_place p, r.others q, r.claimed, inv.fresh q, idle);
        held = λ q. ground (arith, r.done, r.claimed, r.others q, inv.held q);
        one_place = λ q.
            ground (
              arith,
              before q,
              count-append q js ks,
              r.done,
              r.claimed,
              r.others q,
              inv.one_place q,
            );
        refs = λ q. ground (
          arith,
          before q,
          count-append q js ks,
          ap length split ∙ length-append js (p ∷ ks),
          length-append js ks,
          context,
          r.refs q,
          inv.refs q,
        );
      }

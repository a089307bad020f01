-- ===== src/Uring/System/Invariant.antt =====
-- The invariant of a ring, under AIOContext_submit and the moves of the kernel.
use caio.Base.{
  if◌then◌else◌, count, count-append, ℤ, Ref, operation, ℕ, ◌+◌, ◌<◌, ◌≡◌, refl, sym, ap, ◌∙◌,
  subst, ◌≢◌, false, not, ◌&&◌, Option, none, some, List, [], ◌∷◌, ◌++◌, map, arith,
}
use caio.Uring.State.{Operation, cancel_user_data, Context, distance, World, set_ctx}
use caio.Uring.Submit.{submit}
use caio.Uring.Submit.Accept.{claimed_in, IsKnown, sqe_of}
use caio.Uring.Submit.Queue.{entry, pending}
use caio.Uring.Submit.Refines.{staged, free, IsRing, taken, submit-Queues}
use caio.Uring.Submit.Holds.{take-unclaimed-AreNew, submit-Holds}
use caio.Uring.Drain.Reader.{ready, completions}
use caio.Uring.Drain.Delivery.{keys}
use caio.Uring.System.{System, advance, post}
use caio.Uring.System.Moves.{
  IsCq, advance-pending, advance-IsRing, post-ready, post-IsCq, post-IsRing,
}
use caio.Uring.System.Calls.{
  SameCq-IsCq, SameCq-ready, submit-SameCq, names, names-sqe_of, count-names, count-completions,
  opcode-IsKnown,
}
use caio.Uring.Drain.Balance.{count-AreNew}

-- Whether an operation is in flight.
abbrev pub flight : Operation → ℕ
flight o = if o.in_progress && not o.done then 1 else 0

-- The context that an operation holds: that of its ring while it is in flight.
abbrev pub holder : Ref → Operation → Option Ref
holder c o = if o.in_progress && not o.done then some c else none

-- In how many places an operation is: staged in the submission ring, with the kernel, or in the
-- completion ring.
abbrev pub places : Ref → Context → List Ref → ℕ
places p x working =
    count p (names (pending x)) + count p working + count p (keys (completions (ready x)))

-- The invariant, for the context `x`. A request to cancel stands under an address of its own.
pub record InvAt (c : Ref) (x : Context) (ops : Ref → Operation) (working : List Ref) : Type 0 where
  pub ring : IsRing x
  pub cq : IsCq x
  pub fresh :
      (p : Ref) → (ops p).in_progress ≡ false → ((ops p).done ≡ false) × ((ops p).context ≡ none)
  pub held : (p : Ref) → (ops p).context ≡ holder c (ops p)
  pub one_place : (p : Ref) → p ≢ cancel_user_data → places p x working ≡ flight (ops p)

pub record Inv (c : Ref) (s : System) : Type 0 where
  pub at : InvAt c (s.world.ctxs c) s.world.ops s.working
  pub known : IsKnown s.world

pub ctxs-set_ctx : (c : Ref) (x : Context) (w : World) → (set_ctx c x w).ctxs c ≡ x
ctxs-set_ctx c x w = ground arith

pub submits-Inv :
    (c : Ref) (ps : List Ref) (s : System)
    → Inv c s
    → Inv c (record s { world = (submit c (some (map operation ps)) s.world).1 })
submits-Inv c ps s inv =
    let w = s.world in
    let x = w.ctxs c in
    let i = inv.at in
    let xs = taken c ps w in
    let y = (submit c (some (map operation ps)) w).1.ctxs c in
    let q = submit-Queues c ps w i.ring inv.known in
    let h = submit-Holds c ps w i.ring inv.known (λ p idle. (i.fresh p idle).1) in
    let same = submit-SameCq c ps w i.ring inv.known in
    let once = λ (p : Ref).
      count-AreNew (claimed_in w) xs p (take-unclaimed-AreNew (free x) (claimed_in w) ps) in
    record {
      at = record {
        ring = q.ring;
        cq = SameCq-IsCq x y same i.cq;
        fresh = λ p idle. ground (arith, h.ops p, i.fresh p, idle);
        held = λ p. ground (arith, h.ops p, i.held p, i.fresh p, (once p).1);
        one_place = λ p real.
            (let staged_now : count p (names (pending y))
                  ≡ count p (names (pending x)) + count p xs =
                ap (λ l. count p (names l)) q.appended
                ∙ count-names p (pending x) (map (sqe_of w) xs)
                ∙ ap (λ l. count p (names (pending x)) + count p l) (names-sqe_of w xs inv.known) in
              let ready_now = ap (λ l. count p (keys (completions l))) (SameCq-ready x y same) in
              ground (
                arith,
                staged_now,
                ready_now,
                h.ops p,
                (once p).0,
                (once p).1,
                i.fresh p,
                i.one_place p real,
              ));
      };
      known =
          opcode-IsKnown w ((submit c (some (map operation ps)) w).1) (λ p. ground (arith, h.ops p))
            inv.known;
    }

pub takes-Inv :
    (c : Ref) (s : System)
    → 0 < staged (s.world.ctxs c)
    → Inv c s
    → Inv c (record {
      world = set_ctx c (advance (s.world.ctxs c)) s.world;
      working = s.working ++ (entry (s.world.ctxs c) (s.world.ctxs c).sq_head).user_data ∷ [];
    })
takes-Inv c s some_left inv =
    let x = s.world.ctxs c in
    let i = inv.at in
    let e = entry x x.sq_head in
    let working = s.working ++ e.user_data ∷ [] in
    let moved_on : InvAt c (advance x) s.world.ops working = record {
      ring = advance-IsRing x i.ring some_left;
      cq =
          SameCq-IsCq x (advance x)
            (record { head = refl; tail = refl; mask = refl; entries = refl }) i.cq;
      fresh = i.fresh;
      held = i.held;
      one_place = λ p real.
          (let before = ap (λ l. count p (names l)) (advance-pending x i.ring some_left) in
            ground
              (arith, before, count-append p s.working (e.user_data ∷ []), i.one_place p real));
    } in
    record {
      at =
          subst (λ z. InvAt c z s.world.ops working) (sym (ctxs-set_ctx c (advance x) s.world))
            moved_on;
      known = inv.known;
    }

pub posts-Inv :
    (c : Ref) (s : System) (js ks : List Ref) (p : Ref) (res : ℤ)
    → s.working ≡ js ++ p ∷ ks
    → distance (s.world.ctxs c).cq_tail (s.world.ctxs c).cq_head < (s.world.ctxs c).cq_ring_mask + 1
    → Inv c s
    → Inv c (record { world = set_ctx c (post p res (s.world.ctxs c)) s.world; working = js ++ ks })
posts-Inv c s js ks p res split room inv =
    let x = s.world.ctxs c in
    let i = inv.at in
    let y = post p res x in
    let cqe = record { user_data = p; res = res } ∷ [] in
    let moved_on : InvAt c y s.world.ops (js ++ ks) = record {
      ring = post-IsRing p res x i.ring;
      cq = post-IsCq p res x i.cq room;
      fresh = i.fresh;
      held = i.held;
      one_place = λ q real.
          (let after =
              ap (λ l. count q (keys (completions l))) (post-ready p res x i.cq room)
              ∙ count-completions q (ready x) cqe in
            let before = ap (count q) split ∙ count-append q js (p ∷ ks) in
            ground (arith, after, before, count-append q js ks, i.one_place q real, real));
    } in
    record {
      at = subst (λ z. InvAt c z s.world.ops (js ++ ks)) (sym (ctxs-set_ctx c y s.world)) moved_on;
      known = inv.known;
    }

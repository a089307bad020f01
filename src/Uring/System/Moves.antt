-- ===== src/Uring/System/Moves.antt =====
-- What the moves of the kernel do to the two rings.
use Prim.Native.Nat.{ℕ, suc, ◌+◌, ◌-◌, ◌^◌, ◌≤◌, ◌<◌, ◌∣◌}
use caio.Base.{ℤ, u32, ◌≡◌, sym, ap, ◌∙◌, subst, [], ◌∷◌, ◌++◌, arith}
use caio.Uring.State.{Context, slot, distance}
use caio.Uring.Ring.{window, window-congr, slot-ne}
use caio.Uring.Submit.Queue.{entry, pending}
use caio.Uring.Submit.Refines.{staged, IsRing}
use caio.Uring.Drain.Reader.{cqe_at, ready, window-cons}
use caio.Uring.System.{advance, post}
use mathlib.Core.Path.{ap₂}

-- A completion ring in order.
pub record IsCq (x : Context) : Type 0 where
  pub whole : x.cq_ring_mask + 1 ∣ 2 ^ 32
  pub small : x.cq_ring_mask + 1 < 2 ^ 32
  pub head : x.cq_head < 2 ^ 32
  pub tail : x.cq_tail < 2 ^ 32
  pub fits : distance x.cq_tail x.cq_head ≤ x.cq_ring_mask + 1

pub advance-pending :
    (x : Context) → IsRing x → 0 < staged x → pending x ≡ entry x x.sq_head ∷ pending (advance x)
advance-pending x ring some_left =
    let n = staged x - 1 in
    let long : staged x ≡ suc n = omega arith in
    let left : staged (advance x) ≡ n = omega (arith, ring.small, ring.queue.small) in
    ap (window (entry x) x.sq_head) long
    ∙ window-cons (entry x) x.sq_head n ring.queue.small
    ∙ ap (λ m. entry x x.sq_head ∷ window (entry x) (u32 (x.sq_head + 1)) m) (sym left)

pub advance-IsRing : (x : Context) → IsRing x → 0 < staged x → IsRing (advance x)
advance-IsRing x ring some_left =
    let left : staged (advance x) + 1 ≡ staged x = omega (arith, ring.small, ring.queue.small) in
    record {
      is_open = ring.is_open;
      queue = record {
        mask = ring.queue.mask;
        whole = ring.queue.whole;
        short = ring.queue.short;
        small = omega arith;
        indexed = λ i lt has.
            (let e : u32 (x.sq_head + suc i) ≡ u32 (u32 (x.sq_head + 1) + i) = omega arith in
              subst (λ j. x.sq_array (slot j x.sq_ring_mask) ≡ slot j x.sq_ring_mask) e
                (ring.queue.indexed (suc i) (omega (arith, left, lt)) has));
      };
      fits = omega (arith, left, ring.fits);
      small = ring.small;
    }

pub post-ready :
    (p : ℕ) (res : ℤ) (x : Context)
    → IsCq x
    → distance x.cq_tail x.cq_head < x.cq_ring_mask + 1
    → ready (post p res x) ≡ ready x ++ record { user_data = p; res = res } ∷ []
post-ready p res x cq room =
    let n = distance x.cq_tail x.cq_head in
    let y = post p res x in
    let long : distance y.cq_tail y.cq_head ≡ suc n = omega (arith, cq.head, cq.tail, cq.small) in
    let at : u32 (x.cq_head + n) ≡ x.cq_tail = omega (arith, cq.head, cq.tail) in
    ap (window (cqe_at y) x.cq_head) long
    ∙ ap₂ (λ xs e. xs ++ e ∷ [])
        (window-congr (cqe_at y) (cqe_at x) x.cq_head n (λ i lt.
          (let away = slot-ne x.cq_ring_mask x.cq_head i n cq.whole lt (omega (arith, room)) in
            ground (arith, away, at))))
        (rw at (ground arith))

pub post-IsCq :
    (p : ℕ) (res : ℤ) (x : Context)
    → IsCq x
    → distance x.cq_tail x.cq_head < x.cq_ring_mask + 1
    → IsCq (post p res x)
post-IsCq p res x cq room = record {
  whole = cq.whole;
  small = cq.small;
  head = cq.head;
  tail = omega arith;
  fits = omega (arith, room, cq.head, cq.tail, cq.small);
}

-- Nothing of the submission ring is touched by what moves on the completion ring.
pub post-IsRing : (p : ℕ) (res : ℤ) (x : Context) → IsRing x → IsRing (post p res x)
post-IsRing p res x ring = record {
  is_open = ring.is_open;
  queue = record {
    mask = ring.queue.mask;
    whole = ring.queue.whole;
    short = ring.queue.short;
    small = ring.queue.small;
    indexed = ring.queue.indexed;
  };
  fits = ring.fits;
  small = ring.small;
}

pub set_head-IsRing : (x : Context) (h : ℕ) → IsRing x → IsRing (record x { cq_head = h })
set_head-IsRing x h ring = record {
  is_open = ring.is_open;
  queue = record {
    mask = ring.queue.mask;
    whole = ring.queue.whole;
    short = ring.queue.short;
    small = ring.queue.small;
    indexed = ring.queue.indexed;
  };
  fits = ring.fits;
  small = ring.small;
}

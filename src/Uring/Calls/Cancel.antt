-- ===== src/Uring/Calls/Cancel.antt =====
-- AIOContext_cancel on its ring.
use caio.Base.{
  leb, length, pos, u32, Ref, overflow_error, ok, raise, int, ◌+◌, ◌≤◌, ◌<◌, ◌≡◌, refl, sym, ap,
  ◌∙◌, subst, false, some, [], ◌∷◌, ◌++◌, arith,
}
use caio.Uring.State.{distance, World, set_ctx}
use caio.Uring.Submit.{put_sqe, set_tail}
use caio.Uring.Calls.{plain, Kernel, cancel_sqe, cancel}
use caio.Uring.Submit.Queue.{pending}
use caio.Uring.Submit.Refines.{staged, free, IsRing, moved-IsRing, moved-pending}
use caio.Uring.Submit.Append.{Appends, put_sqe-Appends}

-- The world in which cancel calls the kernel.
abbrev pub asked : Ref → Ref → World → World
asked c p w =
    let x = w.ctxs c in
    set_tail c (u32 (x.sq_tail + 1)) (set_ctx c (put_sqe x x.sq_tail (cancel_sqe p)) w)

asked-ring :
    (c p : Ref) (w : World)
    → (asked c p w).ctxs c ≡ record (put_sqe (w.ctxs c) (w.ctxs c).sq_tail (cancel_sqe p)) {
      sq_tail = u32 ((w.ctxs c).sq_tail + 1);
    }
asked-ring c p w = ground arith

-- With room in the ring, cancel appends its entry after those that are staged and then asks the
-- kernel to take one entry, whatever that is, and returns 0.
pub cancel-Queues :
    (k : Kernel) (c p : Ref) (w : World)
    → IsRing (w.ctxs c)
    → 0 < free (w.ctxs c)
    → (cancel k c (some p) w ≡ (ok (int (pos 0)), (k.enter c 1 plain (asked c p w)).1))
      × (pending ((asked c p w).ctxs c) ≡ pending (w.ctxs c) ++ cancel_sqe p ∷ [])
      × IsRing ((asked c p w).ctxs c)
unfolding cancel
cancel-Queues k c p w ring room =
    let x = w.ctxs c in
    let test : leb x.sq_ring_entries (distance x.sq_tail x.sq_head) ≡ false = ground arith in
    let new = cancel_sqe p ∷ [] in
    let y = put_sqe x x.sq_tail (cancel_sqe p) in
    let at : u32 (x.sq_head + staged x) ≡ x.sq_tail = omega (arith, ring.small, ring.queue.small) in
    let a : Appends x y (staged x) new =
      subst (λ t. Appends x (put_sqe x t (cancel_sqe p)) (staged x) new) at
        (put_sqe-Appends x (staged x) (cancel_sqe p) ring.queue (omega arith)) in
    let fits : length new ≤ free x = omega arith in
    let after = asked-ring c p w in
    (
      rw test refl,
      ap pending after ∙ moved-pending x y new ring a fits,
      subst IsRing (sym after) (moved-IsRing x y new ring a fits),
    )

-- With a full ring cancel raises and changes nothing.
pub cancel-full :
    (k : Kernel) (c p : Ref) (w : World)
    → (w.ctxs c).sq_ring_entries ≤ staged (w.ctxs c)
    → cancel k c (some p) w ≡ (raise (overflow_error "io_uring SQ ring full"), w)
unfolding cancel
cancel-full k c p w full = ground arith

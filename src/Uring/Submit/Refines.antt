-- ===== src/Uring/Submit/Refines.antt =====
-- The outcome of a whole call of AIOContext_submit.
use caio.Base.{
  length, take, length-take_le, pos, is_neg, u32, Ref, unclaimed, PyErr, Result, ok, raise, Value,
  int, Arg, operation, ℕ, ◌+◌, ◌-◌, ◌*◌, ◌^◌, ◌≤◌, ◌<◌, ◌≡◌, refl, sym, ap, ◌∙◌, subst, ◌≢◌, ◌⊎◌,
  inl, inr, true, false, Option, none, some, List, [], ◌∷◌, ◌++◌, map, arith,
}
use caio.Uring.State.{uring_read, uring_write, Operation, Sqe, Context, distance, World}
use caio.Uring.Submit.{check_types, fill_sqe, set_tail, stage, submit_checked, submit_args, submit}
use caio.Uring.Submit.Accept.{
  claimed_in, IsKnown, sqe_of, accept, answer, Stages, take-nil, stage-Stages,
}
use caio.Uring.Submit.Queue.{entry, pending, IsQueue}
use caio.Uring.Ring.{window}
use caio.Uring.Submit.Append.{Appends, append_none, length-map_sqe, accept-Appends}
use mathlib.Core.Path.{ap₂}

-- How many entries are staged, and how many more fit.
abbrev pub staged : Context → ℕ
staged x = distance x.sq_tail x.sq_head

abbrev pub free : Context → ℕ
free x = x.sq_ring_entries - staged x

-- The rings of an open context between two calls.
pub record IsRing (x : Context) : Type 0 where
  pub is_open : is_neg x.uring_fd ≡ false
  pub queue : IsQueue x (staged x)
  pub fits : staged x ≤ x.sq_ring_entries
  pub small : x.sq_tail < 2 ^ 32

check_types-operation : (ps : List Ref) → check_types (map operation ps) ≡ ok ps
unfolding check_types
check_types-operation [] = refl
check_types-operation (p ∷ ps) = rw (check_types-operation ps) refl

-- The operations of a call that are taken, where it is made with `ps`.
abbrev pub taken : Ref → List Ref → World → List Ref
taken c ps w = take (free (w.ctxs c)) (unclaimed (claimed_in w) ps)

submit-loop :
    (c : Ref) (ps : List Ref) (w : World)
    → is_neg (w.ctxs c).uring_fd ≡ false
    → ps ≢ []
    → submit c (some (map operation ps)) w ≡ stage c (w.ctxs c).sq_head ps (w.ctxs c).sq_tail 0 w
unfolding submit
submit-loop c [] w opened more = absurd (more refl)
submit-loop c (p ∷ ps) w opened more = rw (opened, check_types-operation (p ∷ ps)) refl

pub submit-Stages :
    (c : Ref) (ps : List Ref) (w : World)
    → IsRing (w.ctxs c)
    → IsKnown w
    → ps ≢ []
    → Stages c
        (w.ctxs c).sq_tail
        0
        (free (w.ctxs c))
        (unclaimed (claimed_in w) ps)
        w
        (submit c (some (map operation ps)) w)
submit-Stages c ps w ring known more =
    let x = w.ctxs c in
    let tail : u32 (x.sq_head + staged x) ≡ x.sq_tail =
      omega (arith, ring.small, ring.queue.small) in
    rw (submit-loop c ps w ring.is_open more) (
      subst
        (λ t. Stages c t 0 (free x) (unclaimed (claimed_in w) ps) w (stage c x.sq_head ps t 0 w))
        tail
        (stage-Stages c x.sq_head ps (staged x) 0 (free x) w known ring.queue.small
          (omega (arith, ring.fits)) ring.queue.short))

IsQueue-set_tail : (y : Context) (t n : ℕ) → IsQueue y n → IsQueue (record y { sq_tail = t }) n
IsQueue-set_tail y t n q = record {
  mask = q.mask;
  whole = q.whole;
  short = q.short;
  small = q.small;
  indexed = q.indexed;
}

-- What a call does to the ring: it answers and appends.
pub record Queues (c : Ref) (ps : List Ref) (w : World) (r : Result Value) (w' : World)
    : Type 0 where
  pub answered : r ≡ answer 0 (free (w.ctxs c)) (unclaimed (claimed_in w) ps)
  pub appended : pending (w'.ctxs c) ≡ pending (w.ctxs c) ++ map (sqe_of w) (taken c ps w)
  pub ring : IsRing (w'.ctxs c)

-- A ring after entries were appended and the tail moved past them.
module _ (x y : Context) (new : List Sqe) (ring : IsRing x) (a : Appends x y (staged x) new)
    (room : length new ≤ free x) where
  abbrev pub moved : Context
  moved = record y { sq_tail = u32 (x.sq_tail + length new) }

  staged-moved : staged moved ≡ staged x + length new
  staged-moved =
      rw a.same_head (omega (arith, ring.small, ring.queue.small, ring.queue.short, ring.fits))

  pub moved-IsRing : IsRing moved
  moved-IsRing =
      let q = IsQueue-set_tail y (u32 (x.sq_tail + length new)) (staged x + length new) a.queue in
      record {
        is_open = ap is_neg a.same_fd ∙ ring.is_open;
        queue = subst (IsQueue moved) (sym staged-moved) q;
        fits = omega (arith, staged-moved, a.same_entries, ring.fits);
        small = omega arith;
      }

  pub moved-pending : pending moved ≡ pending x ++ new
  moved-pending = ap₂ (λ h n. window (entry y) h n) a.same_head staged-moved ∙ a.entries

pub ring-set_tail :
    (c : Ref) (t : ℕ) (w : World) → (set_tail c t w).ctxs c ≡ record (w.ctxs c) { sq_tail = t }
ring-set_tail c t w = ground arith

pub submit-none :
    (c : Ref) (w : World)
    → is_neg (w.ctxs c).uring_fd ≡ false
    → submit c (some []) w ≡ (ok (int (pos 0)), w)
unfolding submit
submit-none c w opened = rw opened refl

-- A call on a ring in order, with opcodes that are known, answers like a queue with the room that is
-- free, appends the entries of the operations that it takes after those that are staged, and leaves a
-- ring in order.
pub submit-Queues :
    (c : Ref) (ps : List Ref) (w : World)
    → IsRing (w.ctxs c)
    → IsKnown w
    → (let (r, w') = submit c (some (map operation ps)) w in Queues c ps w r w')
unfolding unclaimed
submit-Queues c [] w ring known = rw (submit-none c w ring.is_open) record {
  answered = ground arith;
  appended = rw (unclaimed, take-nil (free (w.ctxs c))) (sym (append_none (pending (w.ctxs c))));
  ring = ring;
}
submit-Queues c (p ∷ ps) w ring known =
    let x = w.ctxs c in
    let stages = submit-Stages c (p ∷ ps) w ring known (λ eq. ground (arith, eq)) in
    let qs = taken c (p ∷ ps) w in
    let y = (accept c x.sq_tail qs w).ctxs c in
    let at : u32 (x.sq_head + staged x) ≡ x.sq_tail = omega (arith, ring.small, ring.queue.small) in
    let len = length-map_sqe (sqe_of w) qs in
    let room : length (map (sqe_of w) qs) ≤ free x =
      omega (arith, len, length-take_le (free x) (unclaimed (claimed_in w) (p ∷ ps))) in
    let a =
      subst (λ t. Appends x ((accept c t qs w).ctxs c) (staged x) (map (sqe_of w) qs)) at
        (accept-Appends c x.sq_head qs (staged x) w refl ring.queue
          (omega (arith, room, len, ring.fits))) in
    let after : ((submit c (some (map operation (p ∷ ps))) w).1).ctxs c
        ≡ moved x y (map (sqe_of w) qs) ring a room =
      ap (λ v. v.ctxs c) stages.1
      ∙ ring-set_tail c (u32 (x.sq_tail + length qs)) (accept c x.sq_tail qs w)
      ∙ ap (λ n. record y { sq_tail = u32 (x.sq_tail + n) }) (sym len) in
    record {
      answered = stages.0;
      appended = ap pending after ∙ moved-pending x y (map (sqe_of w) qs) ring a room;
      ring = subst IsRing (sym after) (moved-IsRing x y (map (sqe_of w) qs) ring a room);
    }

check_types-nil : {e : PyErr} → check_types [] ≢ raise e
unfolding check_types
check_types-nil h = ground (arith, h)

-- Whatever keeps a call from the second loop: a context without a ring, no tuple, or an argument that
-- is no operation.
pub data Refused (c : Ref) (w : World) : Option (List Arg) → Type 0 where
  no_ring : (args : Option (List Arg)) → is_neg (w.ctxs c).uring_fd ≡ true → Refused c w args
  no_tuple : is_neg (w.ctxs c).uring_fd ≡ false → Refused c w none
  wrong_type :
      (args : List Arg) {e : PyErr}
      → is_neg (w.ctxs c).uring_fd ≡ false
      → check_types args ≡ raise e
      → Refused c w (some args)

-- Then submit raises and leaves every operation, reference and ring as it was.
pub submit-Refused :
    (c : Ref) (args : Option (List Arg)) (w : World)
    → Refused c w args
    → ((submit c args w).1 ≡ w) × ((e : PyErr) × ((submit c args w).0 ≡ raise e))
unfolding submit submit_args submit_checked
submit-Refused c args w (no_ring args' closed) = rw (closed, submit) (refl, (_, refl))
submit-Refused c _ w (no_tuple opened) = rw (opened, submit) (refl, (_, refl))
submit-Refused c _ w (wrong_type [] opened typed) = absurd (check_types-nil typed)
submit-Refused c _ w (wrong_type (arg ∷ args) opened typed) =
    rw (opened, submit, typed) (refl, (_, refl))

-- A read or a write of 2^32 bytes or more asks the kernel for the size less a multiple of 2^32.
pub fill_sqe-wraps :
    (p k n : ℕ) (o : Operation)
    → (o.opcode ≡ uring_read) ⊎ (o.opcode ≡ uring_write)
    → o.buf_size ≡ pos (k * 2 ^ 32 + n)
    → k * 2 ^ 32 + n < 2 ^ 63
    → n < 2 ^ 32
    → (sqe : Sqe) × (fill_sqe p o ≡ some sqe) × (sqe.len ≡ n)
unfolding fill_sqe
fill_sqe-wraps p k n o (inl reads) size fits small = rw (reads, size) (_, refl, omega arith)
fill_sqe-wraps p k n o (inr writes) size fits small = rw (writes, size) (_, refl, omega arith)

-- ===== src/Uring/System/Calls.antt =====
-- What the calls from Python do to the two rings and the operations.
use caio.Base.{
  Bool-cases, length, take, drop, count, ℤ, u32, Ref, incref, operation, ℕ, zero, suc, ◌+◌, ◌≡◌,
  refl, ◌∙◌, inl, inr, Option, none, some, List, [], ◌∷◌, ◌++◌, map, arith,
}
use caio.Uring.State.{Sqe, Cqe, Context, World, set_refs}
use caio.Uring.Submit.{fill_sqe, put_sqe, hold, set_tail, submit}
use caio.Uring.Drain.{Python, settle, invoke, release, call_back, deliver}
use caio.Uring.Submit.Accept.{IsKnown, sqe_of, take_one, accept}
use caio.Uring.Submit.Refines.{IsRing, taken, submit-Stages, submit-none}
use caio.Uring.Drain.Reader.{ready, completions, settle_all}
use caio.Uring.Drain.Delivery.{keys}
use caio.Uring.System.{IsApart}
use caio.Uring.System.Moves.{IsCq}
use mathlib.Core.Path.{ap₂}

-- Two contexts with the same completion ring.
pub record SameCq (x y : Context) : Type 0 where
  pub head : y.cq_head ≡ x.cq_head
  pub tail : y.cq_tail ≡ x.cq_tail
  pub mask : y.cq_ring_mask ≡ x.cq_ring_mask
  pub entries : y.cqes ≡ x.cqes

pub SameCq-trans : (x y z : Context) → SameCq x y → SameCq y z → SameCq x z
SameCq-trans x y z a b = record {
  head = b.head ∙ a.head;
  tail = b.tail ∙ a.tail;
  mask = b.mask ∙ a.mask;
  entries = b.entries ∙ a.entries;
}

pub SameCq-IsCq : (x y : Context) → SameCq x y → IsCq x → IsCq y
SameCq-IsCq x y same cq = record {
  whole = rw same.mask cq.whole;
  small = rw same.mask cq.small;
  head = rw same.head cq.head;
  tail = rw same.tail cq.tail;
  fits = rw (same.mask, same.head, same.tail) cq.fits;
}

pub SameCq-ready : (x y : Context) → SameCq x y → ready y ≡ ready x
SameCq-ready x y same = rw (same.mask, same.head, same.tail, same.entries) refl

put_sqe-SameCq : (c tail p : ℕ) (w : World) → SameCq (w.ctxs c) ((take_one c tail p w).ctxs c)
unfolding hold put_sqe
put_sqe-SameCq c tail p w = record {
  head = ground arith;
  tail = ground arith;
  mask = ground arith;
  entries = ground arith;
}

accept-SameCq :
    (c tail : ℕ) (ps : List Ref) (w : World) → SameCq (w.ctxs c) ((accept c tail ps w).ctxs c)
unfolding accept
accept-SameCq c tail [] w = record { head = refl; tail = refl; mask = refl; entries = refl }
accept-SameCq c tail (p ∷ ps) w =
    let w' = take_one c tail p w in
    SameCq-trans (w.ctxs c) (w'.ctxs c) ((accept c (u32 (tail + 1)) ps w').ctxs c)
      (put_sqe-SameCq c tail p w) (accept-SameCq c (u32 (tail + 1)) ps w')

set_tail-SameCq : (c t : ℕ) (w : World) → SameCq (w.ctxs c) ((set_tail c t w).ctxs c)
set_tail-SameCq c t w = record {
  head = ground arith;
  tail = ground arith;
  mask = ground arith;
  entries = ground arith;
}

pub submit-SameCq :
    (c : Ref) (ps : List Ref) (w : World)
    → IsRing (w.ctxs c)
    → IsKnown w
    → SameCq (w.ctxs c) ((submit c (some (map operation ps)) w).1.ctxs c)
submit-SameCq c [] w ring known =
    rw (submit-none c w ring.is_open)
      record { head = refl; tail = refl; mask = refl; entries = refl }
submit-SameCq c (p ∷ ps) w ring known =
    let xs = taken c (p ∷ ps) w in
    let t = (w.ctxs c).sq_tail in
    let v = accept c t xs w in
    rw (submit-Stages c (p ∷ ps) w ring known (λ eq. ground (arith, eq))).1 (
      SameCq-trans (w.ctxs c) (v.ctxs c) ((set_tail c (u32 (t + length xs)) v).ctxs c)
        (accept-SameCq c t xs w) (set_tail-SameCq c (u32 (t + length xs)) v))

-- The operations whose entries a list holds.
abbrev pub names : List Sqe → List ℕ
names [] = []
names (e ∷ es) = e.user_data ∷ names es

sqe_of-user_data : (w : World) (p : Ref) → IsKnown w → (sqe_of w p).user_data ≡ p
unfolding sqe_of fill_sqe
sqe_of-user_data w p known = ground (arith, known p)

pub names-sqe_of : (w : World) (ps : List Ref) → IsKnown w → names (map (sqe_of w) ps) ≡ ps
names-sqe_of w [] known = refl
names-sqe_of w (p ∷ ps) known =
    ap₂ (λ a l. a ∷ l) (sqe_of-user_data w p known) (names-sqe_of w ps known)

pub count-names :
    (q : ℕ) (xs ys : List Sqe)
    → count q (names (xs ++ ys)) ≡ count q (names xs) + count q (names ys)
count-names q [] ys = omega arith
count-names q (e ∷ es) ys = ground (arith, count-names q es ys)

-- The same of completions.
pub count-completions :
    (q : ℕ) (xs ys : List Cqe)
    → count q (keys (completions (xs ++ ys)))
      ≡ count q (keys (completions xs)) + count q (keys (completions ys))
count-completions q [] ys = omega arith
count-completions q (e ∷ es) ys = ground (arith, count-completions q es ys)

pub count-batch :
    (q max : ℕ) (l : List (Ref × ℤ))
    → count q (keys (take max l)) + count q (keys (drop max l)) ≡ count q (keys l)
count-batch q zero l = omega arith
count-batch q (suc max) [] = omega arith
count-batch q (suc max) (a ∷ l) = ground (arith, count-batch q max l)

-- Callbacks apart, the second loop of uring_drain_cq leaves operations and rings alone.
invoke-same :
    (py : Python) (f : Ref) (res : ℤ) (w : World)
    → IsApart py
    → ((invoke py f res w).ops ≡ w.ops) × ((invoke py f res w).ctxs ≡ w.ctxs)
invoke-same py f res w a = elim (Bool-cases (py.new_int res)) [
  | inr poor ↦ rw poor (a.unraisable_ops f w, a.unraisable_ctxs f w)
  | inl enough ↦ elim (Bool-cases (py.call f res w).0) [
    | inl returned ↦ rw (enough, returned) (a.call_ops f res w, a.call_ctxs f res w)
    | inr raised ↦
        let w' = (py.call f res w).1 in
        rw (enough, raised)
          (a.unraisable_ops f w' ∙ a.call_ops f res w, a.unraisable_ctxs f w' ∙ a.call_ctxs f res w)
  ]
]

call_back-same :
    (py : Python) (f : Option Ref) (res : ℤ) (w : World)
    → IsApart py
    → ((call_back py f res w).ops ≡ w.ops) × ((call_back py f res w).ctxs ≡ w.ctxs)
call_back-same py none res w a = (refl, refl)
call_back-same py (some f) res w a = invoke-same py f res (set_refs (incref f w.refs) w) a

pub deliver-same :
    (py : Python) (l : List (Ref × ℤ)) (w : World)
    → IsApart py
    → ((deliver py l w).ops ≡ w.ops) × ((deliver py l w).ctxs ≡ w.ctxs)
unfolding deliver
deliver-same py [] w a = (refl, refl)
deliver-same py ((p, res) ∷ l) w a =
    let w' = call_back py (w.ops p).callback res w in
    let one = call_back-same py (w.ops p).callback res w a in
    let rest = deliver-same py l (release p w') a in (rest.0 ∙ one.0, rest.1 ∙ one.1)

-- The first loop leaves claims and opcodes alone.
settle-claim :
    (p : Ref) (res : ℤ) (w : World) (q : Ref)
    → (((settle p res w).ops q).in_progress ≡ (w.ops q).in_progress)
      × (((settle p res w).ops q).opcode ≡ (w.ops q).opcode)
unfolding settle
settle-claim p res w q = ground arith

pub settle_all-claim :
    (l : List (Ref × ℤ)) (w : World) (q : Ref)
    → (((settle_all l w).ops q).in_progress ≡ (w.ops q).in_progress)
      × (((settle_all l w).ops q).opcode ≡ (w.ops q).opcode)
settle_all-claim [] w q = (refl, refl)
settle_all-claim ((p, res) ∷ l) w q =
    let one = settle-claim p res w q in
    let rest = settle_all-claim l (settle p res w) q in (rest.0 ∙ one.0, rest.1 ∙ one.1)

-- Whether an opcode is known is all that the entry needs.
pub opcode-IsKnown :
    (w v : World) → ((q : Ref) → (v.ops q).opcode ≡ (w.ops q).opcode) → IsKnown w → IsKnown v
unfolding fill_sqe
opcode-IsKnown w v same known q = ground (arith, same q, known q)

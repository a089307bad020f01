-- ===== src/Uring/Drain.antt =====
-- uring_drain_cq: collects what the kernel has completed, and then calls back.
pub mod Reader
pub mod Delivery
pub mod Balance
use caio.Base.{
  ltb, ◌==◌, if◌then◌else◌, length, count, ℤ, pos, is_neg, neg_part, u32, signed32, Ref, incref,
  decref, xdecref, memory_error, Result, ok, raise, ℕ, zero, suc, ◌+◌, Bool, true, not, ◌&&◌,
  Option, none, some, List, [], ◌∷◌,
}
use caio.Uring.State.{
  uring_read, Operation, cancel_user_data, Context, slot, distance, World, set_op, set_ctx,
  set_refs,
}

-- What the interpreter does for a callback.
pub record Python : Type 0 where
  -- whether `PyLong_FromLong` finds memory
  pub new_int : ℤ → Bool
  -- `PyObject_CallOneArg` and the release of what it returned: whether that was an object, and what
  -- the call did, which may be to call the context again
  pub call : Ref → ℤ → World → Bool × World
  -- `PyErr_WriteUnraisable`
  pub unraisable : Ref → World → World

abbrev with_result : ℤ → Operation → Operation
with_result res o = record o { result = res }

-- The two branches on the sign of the result.
abbrev with_error : ℤ → Operation → Operation
with_error res o =
    if is_neg res
    then record o { error = pos (neg_part res) }
    else elim o.opcode [ uring_read ↦ record o { buf_size = res } | _ ↦ o ]

-- An operation whose completion was read: its result, its context released, done.
unfoldable pub settle : Ref → ℤ → World → World
settle p res w =
    let o = w.ops p in
    set_refs (xdecref o.context w.refs)
      (set_op p (record (with_error res (with_result res o)) { context = none; done = true }) w)

-- The loop over the completion ring, which stops at the tail or at `max` completions. It gives the
-- operations collected with their results and the new head.
unfoldable pub scan : Context → ℕ → ℕ → ℕ → ℕ → ℕ → World → List (Ref × ℤ) × ℕ × World
scan x zero head tail count max w = ([], head, w)
scan x (suc fuel) head tail count max w =
    let cqe = x.cqes (slot head x.cq_ring_mask) in
    let skip = scan x fuel (u32 (head + 1)) tail count max w in
    let p = cqe.user_data in
    let (ops, head', w') = scan x fuel (u32 (head + 1)) tail (suc count) max (settle p cqe.res w) in
    if not (head == tail) && ltb count max
    then if p == cancel_user_data then skip else ((p, cqe.res) ∷ ops, head', w')
    else ([], head, w)

-- `__atomic_store_n(self->cq_head, head)`
unfoldable pub commit : Ref → ℕ → World → World
commit c head w = set_ctx c (record (w.ctxs c) { cq_head = head }) w

-- The call of one callback, whose reference is held meanwhile, and the loss of the ring's reference
-- to the operation.
abbrev pub invoke : Python → Ref → ℤ → World → World
invoke py f res w =
    let (returned, w') = py.call f res w in
    if py.new_int res then (if returned then w' else py.unraisable f w') else py.unraisable f w

abbrev pub release : Ref → World → World
release p w = set_refs (decref p w.refs) w

abbrev pub call_back : Python → Option Ref → ℤ → World → World
call_back py none res w = w
call_back py (some f) res w = release f (invoke py f res (set_refs (incref f w.refs) w))

-- The second loop.
unfoldable pub deliver : Python → List (Ref × ℤ) → World → World
deliver py [] w = w
deliver py ((p, res) ∷ ops) w = deliver py ops (release p (call_back py (w.ops p).callback res w))

-- The number of completions that the arrays have room for.
abbrev pub capacity : Context → ℕ → ℕ
capacity x max = let avail = distance x.cq_tail x.cq_head in if ltb avail max then avail else max

-- uring_drain_cq. `alloc` says whether there is memory for the arrays. The loop takes a completion at
-- each turn, so that their number is fuel enough.
unfoldable pub drain : Python → Bool → Ref → ℕ → World → Result ℤ × World
unfolding scan deliver commit
drain py alloc c max w =
    let x = w.ctxs c in
    let (ops, head, w') = scan x (distance x.cq_tail x.cq_head) x.cq_head x.cq_tail 0 max w in
    if ltb 0 (capacity x max) && not alloc
    then (raise memory_error, w)
    else (ok (signed32 (length ops)), deliver py ops (commit c head w'))

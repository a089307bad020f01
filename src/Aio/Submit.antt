-- ===== src/Aio/Submit.antt =====
-- AIOContext_submit: claims the operations, hands them to the kernel in one call, and takes back the
-- claims of those that the kernel did not take.
pub mod Claims
pub mod Outcome
use caio.Base.{
  ◌==◌, if◌then◌else◌, take, drop, pos, Ref, incref, decref, xdecref, PyErr, runtime_error,
  value_error, type_error, overflow_error, system_error, memory_error, Result, ok, raise, Value,
  int, Arg, operation, other, ℕ, Bool, true, false, Option, none, some, List, [], ◌∷◌,
}
use caio.Aio.State.{World, set_op, set_refs, queue}

-- What `io_submit` answers: how many operations it queued, or -1 with the error number.
pub data Answer : Type 0 where
  accepted : ℕ → Answer
  failed : ℕ → Answer

-- The error numbers of Linux.
abbrev eagain : ℕ
eagain = 11

abbrev ebadf : ℕ
ebadf = 9

abbrev efault : ℕ
efault = 14

abbrev einval : ℕ
einval = 22

-- io_submit_error
unfoldable pub io_submit_error : ℕ → PyErr
io_submit_error e =
    if e == eagain
    then overflow_error "Insufficient resources are available to queue any iocbs [EAGAIN]"
    else if e == ebadf
    then value_error "The file descriptor specified in the first iocb is invalid [EBADF]"
    else if e == efault
    then value_error "One of the data structures points to invalid data [EFAULT]"
    else if e == einval
    then value_error
        "The AIO context specified by ctx_id is invalid. nr is less than 0. The iocb at *iocbpp[0] is not properly initialized, the operation specified is invalid for the file descriptor in the iocb, or the value in the aio_reqprio field is invalid. [EINVAL]"
    else system_error e

-- The first loop.
unfoldable pub check_types : List Arg → Result (List Ref)
check_types [] = ok []
check_types (other ∷ args) = raise (type_error "Wrong type for argument")
check_types (operation p ∷ args) = elim (check_types args) [
  | ok ps ↦ ok (p ∷ ps)
  | raise e ↦ raise e
]

-- An operation is claimed, holds the context, and is to signal its eventfd.
unfoldable pub claim : Ref → Ref → World → World
claim c p w =
    let o = w.ops p in
    let iocb = record o.iocb { resfd_flag = true; resfd = (w.ctxs c).fileno } in
    set_refs (incref p (incref c (xdecref o.context w.refs)))
      (set_op p (record o { in_progress = true; context = some c; iocb = iocb }) w)

-- The way back.
unfoldable pub unclaim : Ref → World → World
unclaim p w =
    let o = w.ops p in
    set_refs (decref p (xdecref o.context w.refs))
      (set_op p (record o { in_progress = false; context = none }) w)

-- The second loop: the operations that it claimed, in order.
unfoldable pub claim_all : Ref → List Ref → World → List Ref × World
claim_all c [] w = ([], w)
claim_all c (p ∷ ps) w =
    let skip = claim_all c ps w in
    let (claimed, w') = claim_all c ps (claim c p w) in
    if (w.ops p).in_progress then skip else (p ∷ claimed, w')

-- The loops that roll back.
unfoldable pub unclaim_all : List Ref → World → World
unclaim_all [] w = w
unclaim_all (p ∷ ps) w = unclaim_all ps (unclaim p w)

-- From the call of io_submit on. The kernel queues operations from the first on.
unfoldable pub hand_over : (Ref → List Ref → Answer) → Ref → List Ref → World → Result Value × World
hand_over io_submit c [] w = (ok (int (pos 0)), w)
hand_over io_submit c (p ∷ ps) w = elim (io_submit c (p ∷ ps)) [
  | failed e ↦ (raise (io_submit_error e), unclaim_all (p ∷ ps) w)
  | accepted n ↦ (ok (int (pos n)), unclaim_all (drop n (p ∷ ps)) (queue (take n (p ∷ ps)) w))
]

unfoldable pub submit_checked :
    (Ref → List Ref → Answer) → Bool → Ref → Result (List Ref) → World → Result Value × World
unfolding claim_all hand_over
submit_checked io_submit alloc c (raise e) w = (raise e, w)
submit_checked io_submit alloc c (ok ps) w =
    let (claimed, w') = claim_all c ps w in
    if alloc then hand_over io_submit c claimed w' else (raise memory_error, w)

unfoldable pub submit_args :
    (Ref → List Ref → Answer) → Bool → Ref → Option (List Arg) → World → Result Value × World
unfolding submit_checked check_types
submit_args io_submit alloc c none w = (raise (value_error ""), w)
submit_args io_submit alloc c (some []) w = (ok (int (pos 0)), w)
submit_args io_submit alloc c (some (arg ∷ args)) w =
    submit_checked io_submit alloc c (check_types (arg ∷ args)) w

-- AIOContext_submit, with `none` for a NULL as the context. `alloc` says whether there is memory for
-- the two arrays.
unfoldable pub submit :
    (Ref → List Ref → Answer) → Bool → Option Ref → Option (List Arg) → World → Result Value × World
unfolding submit_args
submit io_submit alloc none args w = (raise (runtime_error "self is NULL"), w)
submit io_submit alloc (some c) args w =
    if (w.ctxs c).ctx == 0
    then (raise (runtime_error "self->ctx is NULL"), w)
    else submit_args io_submit alloc c args w

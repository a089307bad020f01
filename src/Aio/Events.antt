-- ===== src/Aio/Events.antt =====
-- AIOContext_process_events and AIOContext_cancel of caio/linux_aio.c.
pub mod Delivery
pub mod Balance
pub mod Cancel
pub mod Values
use caio.Base.{
  ltb, ◌==◌, if◌then◌else◌, length, ℤ, pos, negsuc, is_neg, neg_part, pos_part, u32, bits64, Ref,
  incref, decref, xdecref, PyErr, runtime_error, value_error, type_error, overflow_error,
  not_implemented, system_error, system_error_text, memory_error, propagated, Result, ok, raise,
  Value, int, Arg, operation, other, ℕ, ◌^◌, Bool, true, not, Option, none, some, List, [], ◌∷◌,
}
use caio.Aio.State.{Operation, World, set_op, set_refs}

-- `EV_MAX_REQUESTS_DEFAULT` and `MAX_EVENTS_REQUEST`
abbrev pub ev_max_requests_default : ℕ
ev_max_requests_default = 512

abbrev pub max_events_request : ℕ
max_events_request = 2 ^ 20

-- `struct io_event`: the operation, and what its system call gave.
pub record Event : Type 0 where
  pub data_ref : Ref
  pub res : ℤ

-- What the interpreter does for a callback.
pub record Python : Type 0 where
  -- `PyObject_CallFunction` and the release of what it returned: whether that was an object, and what
  -- the call did
  pub call : Ref → ℤ → World → Bool × World
  -- `PyErr_WriteUnraisable`
  pub unraisable : Ref → World → World

-- The argument that the format "K" makes of a signed result of 64 bits.
unfoldable pub callback_arg : ℤ → ℤ
callback_arg res = pos (bits64 res)

-- The two branches on the sign of the result; `error` takes the low 32 bits.
abbrev with_result : ℤ → Operation → Operation
with_result res o =
    if is_neg res
    then record o { error = u32 (neg_part res) }
    else record o { iocb = record o.iocb { nbytes = pos_part res } }

-- An operation whose event was read: its result, its context released, done.
unfoldable pub settle : Ref → ℤ → World → World
settle p res w =
    let o = w.ops p in
    set_refs (xdecref o.context w.refs)
      (set_op p (record (with_result res o) { context = none; done = true }) w)

abbrev pub release : Ref → World → World
release p w = set_refs (decref p w.refs) w

-- The call of a callback, whose reference is held meanwhile.
abbrev pub call_back : Python → Option Ref → ℤ → World → World
call_back py none res w = w
call_back py (some f) res w =
    let (returned, w') = py.call f (callback_arg res) (set_refs (incref f w.refs) w) in
    release f (if returned then w' else py.unraisable f w')

-- The body of the loop, and the loop.
unfoldable pub deliver_one : Python → Event → World → World
unfolding callback_arg
deliver_one py ev w =
    let w' = settle ev.data_ref ev.res w in
    release ev.data_ref (call_back py (w'.ops ev.data_ref).callback ev.res w')

unfoldable pub deliver : Python → List Event → World → World
deliver py [] w = w
deliver py (ev ∷ es) w = deliver py es (deliver_one py ev w)

-- What `io_getevents` answers: the events, or -1 with the error number.
pub data Events : Type 0 where
  events : List Event → Events
  events_failed : ℕ → Events

-- What `io_cancel` answers: the result of the event, or the error number.
pub data Canceled : Type 0 where
  cancel_done : ℤ → Canceled
  cancel_failed : ℕ → Canceled

-- The kernel: `io_getevents` by its bounds and its timeout in seconds, `none` for NULL, and
-- `io_cancel` of an operation.
pub record Kernel : Type 0 where
  pub getevents : ℕ → ℕ → Option ℕ → World → Events × World
  pub io_cancel : Ref → World → Canceled

-- The arguments as `PyArg_ParseTupleAndKeywords` leaves them.
pub record EventArgs : Type 0 where
  pub max_requests : ℕ
  pub min_requests : ℕ
  pub tv_sec : ℤ

abbrev pub or_default : ℕ → ℕ
or_default n = if n == 0 then ev_max_requests_default else n

abbrev pub timeout : ℤ → Option ℕ
timeout (pos n) = some n
timeout (negsuc n) = none

unfoldable pub collect : Python → Events × World → Result Value × World
unfolding deliver
collect py (events_failed e, w) = (raise (system_error e), w)
collect py (events es, w) = (ok (int (pos (length es))), deliver py es w)

-- AIOContext_process_events. `alloc` says whether there is memory for the array.
unfoldable pub process_events :
    Kernel → Python → Bool → Ref → Option EventArgs → World → Result Value × World
process_events k py alloc c none w =
    if (w.ctxs c).ctx == 0 then (raise (runtime_error ""), w) else (raise propagated, w)
process_events k py alloc c (some args) w =
    let max = or_default args.max_requests in
    if (w.ctxs c).ctx == 0
    then (raise (runtime_error ""), w)
    else if ltb max_events_request max
    then (raise (overflow_error "max_requests exceeds the maximum allowed"), w)
    else if ltb max args.min_requests
    then (raise (value_error "min_requests must be lower then max_requests"), w)
    else if not alloc
    then (raise memory_error, w)
    else collect py (k.getevents args.min_requests max (timeout args.tv_sec) w)

-- The error numbers of Linux that io_cancel_error knows.
abbrev eagain : ℕ
eagain = 11

abbrev efault : ℕ
efault = 14

abbrev einval : ℕ
einval = 22

abbrev enosys : ℕ
enosys = 38

-- io_cancel_error
unfoldable pub io_cancel_error : ℕ → PyErr
io_cancel_error e =
    if e == eagain
    then system_error_text "Specified operation was not canceled [EAGAIN]"
    else if e == efault
    then runtime_error "One of the data structures points to invalid data [EFAULT]"
    else if e == einval
    then value_error "The AIO context specified by ctx_id is invalid [EINVAL]"
    else if e == enosys
    then not_implemented "io_cancel() is not implemented on this architecture [ENOSYS]"
    else system_error e

-- The callback of a cancelled operation: an exception of its own is the caller's.
abbrev pub call_canceled : Python → Option Ref → ℤ → World → Bool × World
call_canceled py none res w = (true, w)
call_canceled py (some f) res w =
    let (returned, w') = py.call f (callback_arg res) (set_refs (incref f w.refs) w) in
    (returned, release f w')

unfoldable pub canceled : Python → Ref → ℤ → World → Result Value × World
unfolding callback_arg
canceled py p res w =
    let w1 = settle p res w in
    let (returned, w2) = call_canceled py (w1.ops p).callback res w1 in
    (if returned then ok (int res) else raise propagated, release p w2)

-- AIOContext_cancel, with `none` for a NULL as the context and for arguments that do not parse.
unfoldable pub cancel : Kernel → Python → Option Ref → Option Arg → World → Result Value × World
unfolding canceled
cancel k py none args w = (raise (runtime_error "self is NULL"), w)
cancel k py (some c) args w =
    if (w.ctxs c).ctx == 0 then (raise (runtime_error "self->ctx is NULL"), w) else elim args [
      | none ↦ (raise propagated, w)
      | some other ↦ (raise (type_error "Operation required"), w)
      | some (operation p) ↦ elim (k.io_cancel p w) [
        | cancel_failed e ↦ (raise (io_cancel_error e), w)
        | cancel_done res ↦ canceled py p res w
      ]
    ]

-- ===== src/Uring/Calls.antt =====
-- The methods of Context that call the kernel: flush, cancel and poll.
pub mod Flush
pub mod Cancel
use caio.Base.{
  leb, ◌==◌, if◌then◌else◌, ℤ, pos, is_neg, u32, Ref, runtime_error, overflow_error, system_error,
  blocking_io_error, propagated, Result, ok, raise, Value, int, ℕ, zero, suc, ◌+◌, ◌-◌, ◌^◌, Bool,
  Option, none, some,
}
use caio.Uring.State.{op_async_cancel, Sqe, zero_sqe, cancel_user_data, distance, World, set_ctx}
use caio.Uring.Submit.{put_sqe, set_tail}
use caio.Uring.Drain.{Python, drain}

-- The flags that the source passes to `io_uring_enter`.
pub data Flags : Type 0 where
  plain sq_wakeup getevents : Flags

-- What a system call answers: a count, or -1 with the error number.
pub data Answer : Type 0 where
  accepted : ℕ → Answer
  failed : ℕ → Answer

-- The kernel: `io_uring_enter` on the ring of a context with so many entries to submit, and `read` of
-- the counter of its eventfd, which is `none` unless eight bytes came.
pub record Kernel : Type 0 where
  pub enter : Ref → ℕ → Flags → World → Answer × World
  pub read_counter : Ref → World → Option ℕ × World

-- `UINT32_MAX`
abbrev pub uint32_max : ℕ
uint32_max = 2 ^ 32 - 1

-- The end of flush: a negative count is returned as NULL.
abbrev pub return_count : Result ℤ × World → Result Value × World
return_count (raise e, w) = (raise e, w)
return_count (ok n, w) = (if is_neg n then raise propagated else ok (int n), w)

-- Whether the wake-up, where the kernel asks for one, failed.
abbrev pub wakeup : Kernel → Ref → World → Answer × World
wakeup k c w = if (w.ctxs c).sq_need_wakeup then k.enter c 0 sq_wakeup w else (accepted 0, w)

unfoldable pub flush_sqpoll : Kernel → Python → Bool → Ref → World → Result Value × World
flush_sqpoll k py alloc c w =
    let (a, w') = wakeup k c w in
    elim a [
      | failed e ↦ (raise (system_error e), w')
      | accepted n ↦ return_count (drain py alloc c uint32_max w')
    ]

-- The loop over `io_uring_enter`, `none` where it has not ended after so many turns.
unfoldable pub enter_all : Kernel → ℕ → Ref → ℕ → World → Option (Result ℕ × World)
enter_all k fuel c zero w = some (ok 0, w)
enter_all k zero c (suc n) w = none
enter_all k (suc fuel) c (suc n) w =
    let (a, w') = k.enter c (suc n) plain w in
    elim a [
      | failed e ↦ some (raise (system_error e), w')
      | accepted ret ↦ enter_all k fuel c (u32 (suc n + 2 ^ 32 - u32 ret)) w'
    ]

abbrev pub then_drain :
    Python → Bool → Ref → Option (Result ℕ × World) → Option (Result Value × World)
then_drain py alloc c none = none
then_drain py alloc c (some (raise e, w)) = some (raise e, w)
then_drain py alloc c (some (ok n, w)) = some (return_count (drain py alloc c uint32_max w))

unfoldable pub flush_plain :
    Kernel → Python → ℕ → Bool → Ref → World → Option (Result Value × World)
unfolding enter_all
flush_plain k py fuel alloc c w =
    let to_submit = distance (w.ctxs c).sq_tail (w.ctxs c).sq_head in
    if to_submit == 0
    then some (ok (int (pos 0)), w)
    else then_drain py alloc c (enter_all k fuel c to_submit w)

-- AIOContext_flush
unfoldable pub flush : Kernel → Python → ℕ → Bool → Ref → World → Option (Result Value × World)
unfolding flush_sqpoll flush_plain
flush k py fuel alloc c w =
    if is_neg (w.ctxs c).uring_fd
    then some (raise (runtime_error "context not initialized"), w)
    else if (w.ctxs c).sqpoll
    then some (flush_sqpoll k py alloc c w)
    else flush_plain k py fuel alloc c w

-- The entry that asks the kernel to cancel an operation.
abbrev pub cancel_sqe : Ref → Sqe
cancel_sqe p = record zero_sqe { opcode = op_async_cancel; addr = p; user_data = cancel_user_data }

-- AIOContext_cancel, whose argument is `none` where it is no Operation. The answer of the kernel is
-- not looked at.
unfoldable pub cancel : Kernel → Ref → Option Ref → World → Result Value × World
cancel k c none w = (raise propagated, w)
cancel k c (some p) w =
    let x = w.ctxs c in
    if leb x.sq_ring_entries (distance x.sq_tail x.sq_head)
    then (raise (overflow_error "io_uring SQ ring full"), w)
    else (
      ok (int (pos 0)),
      (k.enter c 1 plain
          (set_tail c (u32 (x.sq_tail + 1)) (set_ctx c (put_sqe x x.sq_tail (cancel_sqe p)) w))).1,
    )

-- AIOContext_poll
unfoldable pub poll : Kernel → Ref → World → Result Value × World
poll k c w =
    let (a, w') = k.read_counter c w in
    elim a [ none ↦ (raise blocking_io_error, w') | some n ↦ (ok (int (pos n)), w') ]

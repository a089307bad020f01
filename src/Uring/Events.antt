-- ===== src/Uring/Events.antt =====
-- AIOContext_process_events: the wait for completions and their delivery.
pub mod Wait
use caio.Base.{
  ltb, leb, ◌==◌, if◌then◌else◌, ℤ, pos, negsuc, Ref, value_error, system_error, propagated, Result,
  raise, Value, ℕ, zero, suc, ◌+◌, ◌-◌, ◌*◌, ◌/◌, ◌^◌, Bool, Option, none, some,
}
use caio.Uring.State.{Context, distance, World}
use caio.Uring.Drain.{Python, drain}
use caio.Uring.Calls.{getevents, Answer, accepted, failed, Kernel, return_count}

-- `EV_MAX_REQUESTS_DEFAULT`
abbrev pub ev_max_requests_default : ℕ
ev_max_requests_default = 512

-- `EINTR` of Linux, and `INT_MAX`.
abbrev pub eintr : ℕ
eintr = 4

abbrev pub int_max : ℕ
int_max = 2 ^ 31 - 1

-- `struct timespec`
pub record Timespec : Type 0 where
  pub tv_sec : ℕ
  pub tv_nsec : ℕ

-- What `poll` on the eventfd answers: an input to read, none, or -1 with the error number.
pub data Poll : Type 0 where
  readable timed_out : Poll
  poll_failed : ℕ → Poll

-- `clock_gettime(CLOCK_MONOTONIC)`, and `poll` on the eventfd of a context with a timeout in
-- milliseconds, `none` for -1.
pub record Waiter : Type 0 where
  pub clock : World → Timespec × World
  pub poll_fd : Ref → Option ℕ → World → Poll × World

-- How the wait ended: it is over, an error number was saved, or the fuel was used up.
pub data Waited : Type 0 where
  waited unfinished : Waited
  wait_failed : ℕ → Waited

-- How a turn of the loop ended.
pub data Turn : Type 0 where
  again : Turn
  stop : Waited → Turn

abbrev pub available : Context → ℕ
available x = distance x.cq_tail x.cq_head

-- An interrupted call counts as one that succeeded.
abbrev pub error_of : Answer → Option ℕ
error_of (accepted n) = none
error_of (failed e) = if e == eintr then none else some e

-- The milliseconds until the deadline, 0 where it has passed. C divides towards zero.
abbrev pub remaining_ms : Timespec → Timespec → ℕ
remaining_ms deadline now =
    let early = (deadline.tv_nsec - now.tv_nsec) / 1000000 in
    let late = (now.tv_nsec - deadline.tv_nsec) / 1000000 in
    (deadline.tv_sec * 1000 + early) - (now.tv_sec * 1000 + late)

abbrev pub at_most : ℕ → ℕ → ℕ
at_most bound n = if ltb bound n then bound else n

-- The call of `poll`, and the read of the counter where there is one.
unfoldable pub doze : Kernel → Waiter → Ref → Option ℕ → World → Turn × World
doze k t c timeout w =
    let (r, w') = t.poll_fd c timeout w in
    elim r [
      | poll_failed e ↦ (if e == eintr then again else stop (wait_failed e), w')
      | readable ↦ (again, (k.read_counter c w').1)
      | timed_out ↦ (again, w')
    ]

unfoldable pub sleep : Kernel → Waiter → Ref → Option Timespec → World → Turn × World
unfolding doze
sleep k t c none w = doze k t c none w
sleep k t c (some deadline) w =
    let (now, w') = t.clock w in
    let left = remaining_ms deadline now in
    if left == 0 then (stop waited, w') else doze k t c (some (at_most int_max left)) w'

-- The body of the loop.
unfoldable pub turn : Kernel → Waiter → Ref → ℕ → Option Timespec → World → Turn × World
unfolding sleep
turn k t c min deadline w =
    let (a, w') = k.enter c 0 getevents w in
    let slept = sleep k t c deadline w' in
    if leb min (available (w.ctxs c)) then (stop waited, w) else elim (error_of a) [
      | some e ↦ (stop (wait_failed e), w')
      | none ↦ if leb min (available (w'.ctxs c)) then (stop waited, w') else slept
    ]

-- The loop.
unfoldable pub wait : Kernel → Waiter → ℕ → Ref → ℕ → Option Timespec → World → Waited × World
unfolding turn
wait k t zero c min deadline w = (unfinished, w)
wait k t (suc fuel) c min deadline w =
    let (r, w') = turn k t c min deadline w in
    elim r [ stop s ↦ (s, w') | again ↦ wait k t fuel c min deadline w' ]

-- The wait for at least one completion, by the timeout in seconds.
unfoldable pub wait_for : Kernel → Waiter → ℕ → Ref → ℕ → ℤ → World → Waited × World
unfolding wait
wait_for k t fuel c min (pos zero) w =
    let (a, w') = k.enter c 0 getevents w in
    elim (error_of a) [ some e ↦ (wait_failed e, w') | none ↦ (waited, w') ]
wait_for k t fuel c min (pos (suc n)) w =
    let (now, w') = t.clock w in
    wait k t fuel c min (some (record now { tv_sec = now.tv_sec + suc n })) w'
wait_for k t fuel c min (negsuc n) w = wait k t fuel c min none w

abbrev pub deliver_after : Python → Bool → Ref → ℕ → Waited × World → Option (Result Value × World)
deliver_after py alloc c max (waited, w) = some (return_count (drain py alloc c max w))
deliver_after py alloc c max (wait_failed e, w) = some (raise (system_error e), w)
deliver_after py alloc c max (unfinished, w) = none

-- The arguments as `PyArg_ParseTupleAndKeywords` leaves them.
pub record EventArgs : Type 0 where
  pub max_requests : ℕ
  pub min_requests : ℕ
  pub tv_sec : ℤ

abbrev pub or_default : ℕ → ℕ
or_default n = if n == 0 then ev_max_requests_default else n

-- AIOContext_process_events, `none` where the loop has not ended after so many turns.
unfoldable pub process_events :
    Kernel
    → Waiter
    → Python
    → ℕ
    → Bool
    → Ref
    → Option EventArgs
    → World
    → Option (Result Value × World)
unfolding wait_for
process_events k t py fuel alloc c none w = some (raise propagated, w)
process_events k t py fuel alloc c (some args) w =
    let max = or_default args.max_requests in
    if ltb max args.min_requests
    then some (raise (value_error "min_requests must be <= max_requests"), w)
    else if args.min_requests == 0
    then some (return_count (drain py alloc c max w))
    else deliver_after py alloc c max (wait_for k t fuel c args.min_requests args.tv_sec w)

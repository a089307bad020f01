-- ===== src/Uring/Tests.antt =====
-- The theorems about caio/linux_uring.c at concrete inputs.
use caio.Base.{
  ◌==◌, if◌then◌else◌, pos, negsuc, update, system_error, ok, raise, int, operation, ℕ, ◌+◌, ◌-◌,
  ◌^◌, ◌≤◌, ◌≡◌, refl, ◌⊎◌, inr, true, false, none, some, [], ◌∷◌, ◌++◌, map, arith,
}
use caio.Uring.State.{uring_write, Operation, blank, zero_sqe, Context, distance, World, set_ctx}
use caio.Uring.Submit.{fill_sqe, submit}
use caio.Uring.Drain.{Python, drain}
use caio.Uring.Calls.{plain, accepted, Kernel, uint32_max, return_count, flush, cancel_sqe, cancel}
use caio.Uring.Submit.Accept.{IsKnown}
use caio.Uring.Submit.Queue.{pending}
use caio.Uring.Submit.Refines.{IsRing, taken, Queues, submit-Queues}
use caio.Uring.Submit.Holds.{IsTidy, Holds, submit-Holds}
use caio.Uring.Calls.Flush.{Consumes, Submits, Fails, flush-Ends, flush_stuck}
use caio.Uring.Calls.Cancel.{asked, cancel-Queues}
use native.Mathlib.Nat.{dvd-mul_left}
use caio.Uring.Events.{readable, Waiter, available, process_events}
use caio.Uring.Events.Wait.{Posts, process_events-Waits}

-- Object 1 is a read of 3 bytes into the bytes object 50; the others are writes of none.
abbrev reader : Operation
reader = record blank { fileno = 4; buf = some 50; buf_size = pos 3; py_buffer = some 50 }

abbrev writer : Operation
writer = record blank { opcode = uring_write; fileno = 4 }

-- Rings of four entries. One entry is staged, and the indices are about to wrap around.
abbrev ring4 : Context
ring4 = record {
  uring_fd = pos 7;
  eventfd_fd = pos 8;
  max_requests = 3;
  sq_head = 2 ^ 32 - 2;
  sq_tail = 2 ^ 32 - 1;
  sq_ring_mask = 3;
  sq_ring_entries = 4;
  sq_need_wakeup = false;
  sq_array = λ i. i;
  sqes = λ i. zero_sqe;
  cq_head = 2 ^ 32 - 1;
  cq_tail = 1;
  cq_ring_mask = 3;
  cqes =
      λ i. record { user_data = if i == 3 then 1 else 2; res = if i == 3 then pos 2 else negsuc 4 };
  no_sqarray = false;
  sqpoll = false;
}

-- The context is object 9, with a reference of its own.
abbrev desk : World
desk = record {
  ops = update (λ i. writer) 1 reader;
  ctxs = λ i. ring4;
  refs = λ i. 1;
  blocks = λ i. 5 ∷ 6 ∷ 7 ∷ [];
  calls = [];
}

desk-IsRing : IsRing (desk.ctxs 9)
desk-IsRing = record {
  is_open = refl;
  queue = record {
    mask = refl;
    whole = dvd-mul_left 4 (2 ^ 30);
    short = omega arith;
    small = omega arith;
    indexed = λ i lt listed. refl;
  };
  fits = omega arith;
  small = omega arith;
}

desk-IsKnown : IsKnown desk
unfolding fill_sqe
desk-IsKnown p = ground arith

desk-IsTidy : IsTidy desk
desk-IsTidy p idle = ground arith

-- Callables that return and do nothing.
abbrev quiet : Python
quiet = record { new_int = λ res. true; call = λ f res w. (true, w); unraisable = λ f w. w }

-- A kernel that takes one entry at a time.
abbrev one_by_one : Kernel
one_by_one = record { enter = λ c n flags w. (accepted 1, w); read_counter = λ c w. (some 1, w) }

abbrev refusing : Kernel
refusing = record { enter = λ c n flags w. (accepted 0, w); read_counter = λ c w. (none, w) }

one_by_one-Consumes : Consumes one_by_one 9
one_by_one-Consumes n w = inr (1, refl, omega arith, omega arith)

submit-Queues_example :
    (let (r, w') = submit 9 (some (map operation (1 ∷ 2 ∷ 1 ∷ []))) desk in
      Queues 9 (1 ∷ 2 ∷ 1 ∷ []) desk r w')
submit-Queues_example = submit-Queues 9 (1 ∷ 2 ∷ 1 ∷ []) desk desk-IsRing desk-IsKnown

submit-Holds_example :
    Holds 9
      (taken 9 (1 ∷ 2 ∷ 1 ∷ []) desk)
      desk
      ((submit 9 (some (map operation (1 ∷ 2 ∷ 1 ∷ []))) desk).1)
submit-Holds_example = submit-Holds 9 (1 ∷ 2 ∷ 1 ∷ []) desk desk-IsRing desk-IsKnown desk-IsTidy

flush-Ends_example :
    ((w' : World) × (flush one_by_one quiet 1 true 9 desk
        ≡ some (return_count (drain quiet true 9 uint32_max w')))
      × Submits one_by_one 9 (distance (desk.ctxs 9).sq_tail (desk.ctxs 9).sq_head) desk w')
    ⊎ ((e : ℕ) × (w' : World) × (flush one_by_one quiet 1 true 9 desk
          ≡ some (raise (system_error e), w'))
        × Fails one_by_one 9 e (distance (desk.ctxs 9).sq_tail (desk.ctxs 9).sq_head) desk w')
flush-Ends_example =
    flush-Ends one_by_one quiet 1 true 9 desk refl refl (omega arith) one_by_one-Consumes
      (omega arith)

flush_stuck_example : flush refusing quiet 100 true 9 desk ≡ none
flush_stuck_example = flush_stuck refusing quiet true 9 desk refl refl (omega arith) (λ m. refl) 100

cancel-Queues_example :
    (cancel one_by_one 9 (some 1) desk
      ≡ (ok (int (pos 0)), (one_by_one.enter 9 1 plain (asked 9 1 desk)).1))
    × (pending ((asked 9 1 desk).ctxs 9) ≡ pending (desk.ctxs 9) ++ cancel_sqe 1 ∷ [])
    × IsRing ((asked 9 1 desk).ctxs 9)
cancel-Queues_example = cancel-Queues one_by_one 9 1 desk desk-IsRing (omega arith)

-- A poll that waits until the kernel has posted one more completion.
abbrev posting : Waiter
posting = record {
  clock = λ w. (record { tv_sec = 0; tv_nsec = 0 }, w);
  poll_fd = λ c timeout w. (
    readable,
    set_ctx c (record (w.ctxs c) { cq_head = 0; cq_tail = available (w.ctxs c) + 1 }) w,
  );
}

posting-Posts : Posts one_by_one posting 9 3
posting-Posts = record {
  enters = λ w. ((1, refl), omega arith);
  polls = λ w few. (refl, ground (arith, few));
  reads = λ w. omega arith;
}

process_events-Waits_example :
    (w' : World) × (process_events one_by_one posting quiet 4 true 9
        (some (record { max_requests = 0; min_requests = 3; tv_sec = negsuc 0 }))
        desk
      ≡ some (return_count (drain quiet true 9 512 w')))
    × (3 ≤ available (w'.ctxs 9))
process_events-Waits_example =
    process_events-Waits one_by_one posting quiet 4 true 9 0 3 0 desk posting-Posts (omega arith)
      (omega arith) (omega arith)

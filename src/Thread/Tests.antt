-- ===== src/Thread/Tests.antt =====
-- The theorems about caio/thread_aio.c at concrete inputs.
use caio.Thread.Context
use caio.Base.{
  ◌==◌, if◌then◌else◌, length, take, count, ℤ, pos, negsuc, Ref, update, unclaimed, PyErr,
  runtime_error, ok, raise, int, Arg, operation, other, ℕ, ◌+◌, ◌-◌, ◌^◌, ◌≤◌, ◌<◌, ◌≡◌, refl, ◌≢◌,
  ◌⊎◌, true, Option, none, some, List, [], ◌∷◌, arith,
}
use caio.Thread.State.{thaio_read, thaio_fsync, Context, Operation, blank_context, blank, World}
use caio.Thread.Operation.{Alloc, read, fsync, get_value, payload}
use caio.Thread.Context.{max_threads, max_queue, init, close}
use caio.Thread.Submit.{check_types, claim, unclaim, Add, submit}
use caio.Thread.Submit.Effect.{claimed_in, IsTidy, TakesAll, Refuses}
use caio.Thread.Worker.{Outcome, Kernel, system_call, worker}
use caio.Thread.System.{
  System, pending, fsyncs, create, with_world, submits, creates, Initial, Reach, here, next,
}
use caio.Thread.System.Sound.{flight, Inv}
use caio.Thread.System.Safety.{one_holder, held_is_unreadable, KeepsResult, Step-SameResult}
use caio.Thread.Submit.Outcome.{HandsOver, submit-HandsOver, wrong_type, submit-Barred}
use caio.Thread.Context.Sizes.{init_sizes}
use caio.Thread.Context.Close.{Closes, close_once}
use caio.Thread.Worker.Results.{system_call-wraps, IsClaimed}
use caio.Thread.Worker.Balance.{dropped, worker-claim}
use caio.Thread.Operation.Release.{ReadCases, read_cases}
use caio.Thread.System.Progress.{Finishes, in_flight-Finishes}
use caio.Thread.Members.{error_member, error_member-worker}

-- Object 1 is a read of 4 bytes into block 50 under the view 51, with the callback 7; object 2 is a
-- new fsync. The context 10 has the pool 99.
abbrev reader : Operation
reader = record blank {
  fileno = 3;
  buf = some 50;
  buf_size = pos 4;
  py_buffer = some 51;
  callback = some 7;
}

abbrev open_context : Context
open_context = record { pool = some 99; max_requests = 512; pool_size = 8; pool_size_pad = 0 }

abbrev desk : World
desk = record {
  ops = update (λ _. record blank { opcode = thaio_fsync }) 1 reader;
  ctxs = update (λ _. blank_context) 10 open_context;
  refs = λ _. 1;
  blocks = λ _. 0 ∷ 0 ∷ 0 ∷ 0 ∷ [];
  tasks = [];
  destroyed = [];
  freed = [];
  calls = [];
}

abbrev outcome : ℤ → ℕ → List ℕ → Outcome
outcome r e bs = record { result = r; errno = e; stored = bs }

-- Reads give two bytes, and a sync fails with the error number 5.
abbrev disk : Kernel
disk = record {
  pread = λ fd n off. outcome (pos 2) 0 (8 ∷ 9 ∷ []);
  pwrite = λ fd bs n off. outcome (pos n) 0 [];
  fsync = λ fd. outcome (negsuc 0) 5 [];
  fdatasync = λ fd. outcome (negsuc 0) 5 [];
  have_fdatasync = true;
}

-- The pool takes object 1 and then is full.
abbrev one_slot : Add
one_slot w pool p = if p == 1 then pos 0 else negsuc 2

abbrev both : List Arg
both = operation 1 ∷ operation 1 ∷ operation 2 ∷ []

submit_full :
    (submit true one_slot (some 10) (some both) desk).0
    ≡ raise (runtime_error "Thread pool queue full")
unfolding submit claim unclaim
submit_full = refl

desk-IsTidy : IsTidy desk
desk-IsTidy p h = ground arith

submit-HandsOver_example :
    let todo = unclaimed (claimed_in desk) (1 ∷ 1 ∷ 2 ∷ []) in
    let (r, w') = submit true one_slot (some 10) (some both) desk in
    (n : ℕ) × HandsOver 10 (take n todo) desk w'
    × TakesAll one_slot 10 99 desk (take n todo)
    × (((r ≡ ok (int (pos n))) × (n ≡ length todo)) ⊎ Refuses one_slot 10 99 w' n todo r)
unfolding check_types
submit-HandsOver_example =
    submit-HandsOver one_slot 10 99 both (1 ∷ 1 ∷ 2 ∷ []) desk desk-IsTidy refl refl

submit-Barred_example :
    ((submit true one_slot (some 10) (some (operation 1 ∷ other ∷ [])) desk).1 ≡ desk)
    × ((e : PyErr) × ((submit true one_slot (some 10) (some (operation 1 ∷ other ∷ [])) desk).0
          ≡ raise e))
unfolding check_types
submit-Barred_example =
    submit-Barred true one_slot (some 10) (some (operation 1 ∷ other ∷ [])) desk
      (wrong_type 10 (operation 1 ∷ other ∷ []) refl)

close_once_example :
    let w' = (close 10 desk).1 in
    Closes 10 99 desk w'
    × ((close 10 w').1 ≡ w')
    × ((Context.dealloc 10 w').destroyed ≡ w'.destroyed)
close_once_example = close_once 10 99 desk refl

abbrev make_pool : ℕ → ℕ → Option Ref
make_pool threads requests = some 99

-- A context that was initialized before, for 16 threads.
abbrev sixteen_threads : Context
sixteen_threads =
    (init make_pool true (record { max_requests = none; pool_size = some 16 }) blank_context).1

init_sizes_example :
    let x =
      (init make_pool true
        (record { max_requests = some 100; pool_size = none })
        sixteen_threads).1 in
    (x.pool_size ≡ 16)
    × (x.max_requests ≡ 100)
    × (0 < x.pool_size)
    × (x.pool_size ≤ max_threads)
    × (0 < x.max_requests)
    × (x.max_requests < max_queue - 1)
    × (x.pool ≡ some 99)
    × (x.pool ≢ none)
unfolding init
init_sizes_example =
    init_sizes make_pool (record { max_requests = some 100; pool_size = none }) sixteen_threads refl

-- Object 1 as submit leaves it.
abbrev taken_desk : World
taken_desk = record desk {
  ops = update desk.ops 1 (record reader { in_progress = true; ctx = some 10 });
}

taken_desk-IsClaimed : IsClaimed (taken_desk.ops 1)
taken_desk-IsClaimed = record { claimed = refl; real = refl }

error_member-worker_example : error_member 0 ((worker disk 1 taken_desk).ops 1) ≡ pos 65792
unfolding system_call
error_member-worker_example = error_member-worker disk 1 taken_desk taken_desk-IsClaimed

system_call-wraps_example :
    system_call disk desk.blocks (record reader { buf_size = pos (2 ^ 32 + 1) })
    ≡ disk.pread 3 1 (pos 0)
system_call-wraps_example =
    system_call-wraps disk desk.blocks (record reader { buf_size = pos (2 ^ 32 + 1) }) (2 ^ 32 + 1)
      refl refl (omega arith) (omega arith)

worker-claim_example :
    (worker disk 1 (claim 10 1 desk)).refs 10 + dropped thaio_read (some 51) 10 ≡ 1
worker-claim_example = worker-claim disk 10 1 desk (λ b e. omega arith) 10

abbrev memory : Alloc
memory = record { object = some 1; calloc = λ n. some 50; view = none }

read_cases_example :
    ReadCases memory 1 desk
      (some (record { nbytes = 4; fileno = 3; offset = none }))
      (read memory (some (record { nbytes = 4; fileno = 3; offset = none })) desk)
read_cases_example =
    read_cases memory (some (record { nbytes = 4; fileno = 3; offset = none })) 1 desk refl

-- From a start with no operation: object 1 is made and submitted.
abbrev pub start : System
start = record { world = record desk { ops = λ _. blank }; jobs = [] }

pub start-Initial : Initial start
start-Initial = record { idle = λ p. refl; no_tasks = refl; no_jobs = refl }

abbrev made : System
made = with_world (create memory (fsyncs (some 3)) start.world).1 start

abbrev pub queued : System
queued = with_world (submit true one_slot (some 10) (some both) made.world).1 made

pub Reach-queued : Reach disk start queued
Reach-queued =
    next (next here (creates memory (fsyncs (some 3)) (λ p e. (refl, refl))))
      (submits true one_slot (some 10) (some both))

one_holder_example : count 1 queued.world.tasks + pending 1 [] ≡ flight (queued.world.ops 1)
one_holder_example = one_holder start-Initial Reach-queued 1

queued_task : queued.world.tasks ≡ 1 ∷ []
unfolding submit create claim unclaim fsync
queued_task = refl

held_is_unreadable_example :
    (get_value 1 queued.world
      ≡ raise (runtime_error "get_value() is not available while the operation is in flight"))
    × (payload 1 queued.world ≡ (
      raise (runtime_error "payload is not available while the operation is in flight"),
      queued.world,
    ))
held_is_unreadable_example =
    held_is_unreadable start-Initial Reach-queued 1 (rw queued_task (omega arith))

in_flight-Finishes_example : Finishes disk queued 1
unfolding submit create claim unclaim fsync
in_flight-Finishes_example = in_flight-Finishes start-Initial Reach-queued 1 refl

-- A world with object 1 done.
abbrev finished : System
finished = record {
  world = record desk {
    ops = λ _. record blank { opcode = thaio_fsync; in_progress = true; done = true };
  };
  jobs = [];
}

finished-Inv : Inv finished.world finished.jobs
finished-Inv p = record {
  flies = refl;
  bare = λ e. refl;
  unfinished = λ e. cc;
  holds = λ e. absurd (omega arith);
  real = refl;
}

Step-SameResult_example :
    KeepsResult 1 finished.world (submit true one_slot (some 10) (some both) finished.world).1
Step-SameResult_example =
    Step-SameResult {k = disk} {s = finished} 1 refl finished-Inv
      (submits true one_slot (some 10) (some both)) (λ h. h)

-- ===== src/Backends/Tests.antt =====
-- The theorems about the three backends at concrete inputs.
use caio.Thread.Operation as ThreadOperation
use caio.Thread.Worker as ThreadWorker
use caio.Thread.Worker.Results as ThreadResults
use caio.Uring.Operation as UringOperation
use caio.Uring.Drain as UringDrain
use caio.Aio.Operation as AioOperation
use caio.Aio.Events as AioEvents
use caio.Uring.Files as UringFiles
use caio.Uring.Setup as UringSetup
use caio.Uring.Load as UringLoad
use caio.Aio.Context as AioContext
use caio.Aio.Load as AioLoad
use caio.Thread.Load as ThreadLoad
use caio.Base.{
  ◌==◌, if◌then◌else◌, pos, negsuc, system_error, ok, raise, Maker, Registry, Types, ◌≡◌, refl,
  true, some, [], ◌∷◌, arith,
}
use caio.Backends.Reads.{
  ThreadReads, UringReads, AioReads, thread_value, uring_value, aio_value, reads_agree,
  errors_agree,
}
use caio.Backends.Collector.{GivesUp, traverse-clear}
use caio.Backends.Loading.{Loads, UringProbes, AioProbes, Closes, Gives, imports_clean}
use caio.Backends.Desks.{two_bytes, broken, thread_desk, uring_desk, aio_desk}
use caio.Backends.Modules.{Apart, Imports, modules_made}

abbrev reads_two : ThreadWorker.Kernel
reads_two = record {
  pread = λ f n o. two_bytes;
  pwrite = λ f bs n o. broken;
  fsync = λ f. broken;
  fdatasync = λ f. broken;
  have_fdatasync = true;
}

abbrev all_broken : ThreadWorker.Kernel
all_broken = record reads_two { pread = λ f n o. broken }

-- A claimed read of the thread backend.
thread_desk-IsClaimed : ThreadResults.IsClaimed (thread_desk.ops 1)
thread_desk-IsClaimed = record { claimed = refl; real = refl }

thread_desk-ThreadReads : ThreadReads reads_two 1 thread_desk (8 ∷ 9 ∷ [])
thread_desk-ThreadReads = record {
  claimed = thread_desk-IsClaimed;
  code = refl;
  size = 4;
  sized = refl;
  small = omega arith;
  block = 50;
  placed = refl;
  told = refl;
  stored = refl;
  fits = omega arith;
}

uring_desk-UringReads : UringReads 1 uring_desk (8 ∷ 9 ∷ [])
uring_desk-UringReads = record {
  code = refl;
  clean = refl;
  block = 50;
  placed = refl;
  rest = 0 ∷ 0 ∷ [];
  stored = refl;
}

aio_desk-AioReads : AioReads 1 aio_desk (8 ∷ 9 ∷ [])
aio_desk-AioReads = record {
  code = refl;
  clean = refl;
  block = 50;
  placed = refl;
  rest = 0 ∷ 0 ∷ [];
  stored = refl;
  small = omega arith;
}

reads_agree_example :
    (thread_value reads_two 1 thread_desk ≡ uring_value 1 (pos 2) uring_desk)
    × (uring_value 1 (pos 2) uring_desk ≡ aio_value 1 (pos 2) aio_desk)
reads_agree_example =
    reads_agree reads_two 1 1 1 thread_desk uring_desk aio_desk (8 ∷ 9 ∷ []) thread_desk-ThreadReads
      uring_desk-UringReads aio_desk-AioReads

errors_agree_example :
    (ThreadOperation.get_value 1 (ThreadWorker.worker all_broken 1 thread_desk)
      ≡ raise (system_error 5))
    × ((UringOperation.get_value 1 (UringDrain.settle 1 (negsuc 4) uring_desk)).0
        ≡ raise (system_error 5))
    × (AioOperation.get_value 1 (AioEvents.settle 1 (negsuc 4) aio_desk) ≡ raise (system_error 5))
unfolding ThreadWorker.system_call
errors_agree_example =
    errors_agree all_broken 1 1 1 4 thread_desk uring_desk aio_desk thread_desk-IsClaimed refl refl
      (omega arith)

traverse-clear_example :
    (let t' = ThreadOperation.clear 1 thread_desk in
      GivesUp
        (ThreadOperation.traverse (thread_desk.ops 1))
        (ThreadOperation.traverse (t'.ops 1))
        thread_desk.refs
        t'.refs)
    × (let u' = UringOperation.clear 1 uring_desk in
        GivesUp
          (UringOperation.traverse (uring_desk.ops 1))
          (UringOperation.traverse (u'.ops 1))
          uring_desk.refs
          u'.refs)
    × (let a' = AioOperation.clear 1 aio_desk in
        GivesUp
          (AioOperation.traverse (aio_desk.ops 1))
          (AioOperation.traverse (a'.ops 1))
          aio_desk.refs
          a'.refs)
traverse-clear_example = traverse-clear 1 thread_desk uring_desk aio_desk

-- A release 6.1, where SQPOLL is not allowed and io_destroy fails.
abbrev uring_host : UringLoad.Host
uring_host = record {
  uname = some (6, 1);
  setup = λ f i. if f.sqpoll then UringSetup.failed 1 else UringSetup.done 5;
}

abbrev aio_host : AioLoad.Host
aio_host = record {
  uname = some (6, 1);
  io_setup = AioContext.opened 77;
  io_destroy = λ c. some 22;
}

imports_clean_example :
    (let (r, l) = UringLoad.load uring_host (λ b. ok 3) UringFiles.empty_log in
      Loads (some (6, 1)) (5, 6) (UringProbes uring_host (λ b. ok 3)) r × Closes l)
    × (let (r, l) = AioLoad.load aio_host (ok 4) AioLoad.no_handles in
        Loads (some (6, 1)) (4, 18) (AioProbes aio_host (ok 4)) r × Gives l)
imports_clean_example = imports_clean uring_host aio_host (λ b. ok 3) (ok 4)

-- An interpreter with memory, whose calls all succeed.
abbrev all_fine : Maker
all_fine = record {
  create = some 70;
  declares = true;
  ready = λ t. true;
  adds = λ name. true;
  boolean = λ b. if b then 81 else 80;
}

abbrev two_types : Types
two_types = record { context_type = 61; operation_type = 62 }

abbrev registry : Registry
registry = record { refs = λ q. if q == 70 then 0 else 1; attrs = [] }

two_types-Apart : Apart 70 81 two_types
two_types-Apart = record {
  own_types = λ h. ground (arith, h);
  module_context = λ h. ground (arith, h);
  module_operation = λ h. ground (arith, h);
  boolean = λ h. ground (arith, h);
  boolean_context = λ h. ground (arith, h);
  boolean_operation = λ h. ground (arith, h);
}

modules_made_example :
    Imports 70 81 two_types [] registry (ThreadLoad.load all_fine two_types registry)
    × Imports 70 81 two_types [] registry (AioLoad.make_module all_fine two_types registry)
    × Imports 70 81 two_types
        (("SQPOLL_ALLOWED", 81) ∷ [])
        registry
        (UringLoad.make_module all_fine two_types true registry)
modules_made_example =
    modules_made all_fine 70 true two_types registry two_types-Apart refl refl refl refl

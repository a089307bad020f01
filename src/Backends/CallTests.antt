-- ===== src/Backends/CallTests.antt =====
-- The theorems about the calls of the class methods at concrete inputs.
use caio.Thread.Operation as ThreadOperation
use caio.Thread.Worker as ThreadWorker
use caio.Thread.Members as ThreadMembers
use caio.Uring.State as UringState
use caio.Uring.Operation as UringOperation
use caio.Uring.Submit as UringSubmit
use caio.Uring.Members as UringMembers
use caio.Aio.State as AioState
use caio.Aio.Operation as AioOperation
use caio.Aio.Members as AioMembers
use caio.Base.{length, pos, ◌≡◌, refl, some, [], ◌∷◌, arith}
use caio.Backends.Requests.{
  Call, reads, writes, Request, write_at, thread_new, uring_new, aio_new, asked_sqe, asked_iocb,
  answering, calls_agree,
}
use caio.Backends.Attributes.{Shows, calls_shown}
use caio.Backends.Desks.{two_bytes, broken, thread_desk, uring_desk, aio_desk}

-- A write of the bytes of block 60 to file 5 from offset 100 on, with memory at 1, 50 and 51.
abbrev thread_memory : ThreadOperation.Alloc
thread_memory = record { object = some 1; calloc = λ n. some 50; view = some 51 }

abbrev uring_memory : UringOperation.Alloc
uring_memory = record { object = some 1; new_bytes = λ n. some 50 }

abbrev aio_memory : AioOperation.Alloc
aio_memory = record { object = some 1; calloc = λ n. some 50; view = some 51 }

abbrev write_60 : Call
write_60 = writes 60 5 100

abbrev uring_zeros : UringState.World
uring_zeros = record uring_desk { blocks = thread_desk.blocks }

abbrev aio_zeros : AioState.World
aio_zeros = record aio_desk { blocks = thread_desk.blocks }

abbrev size_of_request : Request → ThreadWorker.Outcome
size_of_request (write_at fd offset bs) = record two_bytes { result = pos (length bs) }
size_of_request _ = broken

calls_agree_example :
    (ThreadWorker.system_call
        (answering size_of_request)
        thread_desk.blocks
        ((thread_new thread_memory write_60 thread_desk).1.ops 1)
      ≡ size_of_request (write_at (pos 5) (pos 100) (0 ∷ 0 ∷ 0 ∷ 0 ∷ [])))
    × (asked_sqe uring_zeros.blocks
          (UringSubmit.fill_sqe 1 ((uring_new uring_memory write_60 uring_zeros).1.ops 1))
        ≡ some (write_at (pos 5) (pos 100) (0 ∷ 0 ∷ 0 ∷ 0 ∷ []), 1))
    × (asked_iocb aio_zeros.blocks ((aio_new aio_memory write_60 aio_zeros).1.ops 1).iocb
        ≡ (write_at (pos 5) (pos 100) (0 ∷ 0 ∷ 0 ∷ 0 ∷ []), 1))
calls_agree_example =
    calls_agree write_60 1 50 51 thread_memory thread_desk size_of_request uring_memory uring_zeros
      aio_memory aio_zeros (record { new_object = refl; calloc = λ n. refl; view = refl })
      (record { new_object = refl; new_bytes = λ n. refl })
      (record { new_object = refl; calloc = λ n. refl; view = refl }) refl refl
      (omega arith, omega arith, omega arith)

-- A read of 4 bytes from file 5.
abbrev read_4 : Call
read_4 = reads 4 5 100

calls_shown_example :
    let ot = (thread_new thread_memory read_4 thread_desk).1.ops 1 in
    let ou = (uring_new uring_memory read_4 uring_desk).1.ops 1 in
    let oa = (aio_new aio_memory read_4 aio_desk).1.ops 1 in
    Shows thread_desk.blocks read_4
      (ThreadMembers.repr ot)
      (ThreadMembers.offset_member ot)
      (pos (ThreadMembers.nbytes_member ot))
    × Shows uring_desk.blocks read_4
        (UringMembers.repr ou)
        (UringMembers.offset_member ou)
        (UringMembers.nbytes_member ou)
    × Shows aio_desk.blocks read_4
        (AioMembers.repr oa)
        (AioMembers.offset_member oa)
        (pos (AioMembers.nbytes_member oa))
calls_shown_example =
    calls_shown read_4 1 50 51 thread_memory thread_desk uring_memory uring_desk aio_memory aio_desk
      (record { new_object = refl; calloc = λ n. refl; view = refl })
      (record { new_object = refl; new_bytes = λ n. refl })
      (record { new_object = refl; calloc = λ n. refl; view = refl })
      (omega arith, omega arith, omega arith) (omega arith, omega arith, omega arith)
      (omega arith, omega arith, omega arith)

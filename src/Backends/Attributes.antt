-- ===== src/Backends/Attributes.antt =====
-- What the attributes and the `repr` of an Operation show of the call that made it.
use caio.Thread.State as ThreadState
use caio.Thread.Operation as ThreadOperation
use caio.Thread.Members as ThreadMembers
use caio.Uring.State as UringState
use caio.Uring.Operation as UringOperation
use caio.Uring.Members as UringMembers
use caio.Aio.State as AioState
use caio.Aio.Operation as AioOperation
use caio.Aio.Members as AioMembers
use caio.Base.{length, ℤ, pos, signed64, Ref, Shown, ℕ, String, ◌≡◌, List, arith}
use caio.Backends.Requests.{
  Call, reads, writes, fsyncs, fdsyncs, Fits, thread_new, uring_new, aio_new, ThreadAllocates,
  UringAllocates, AioAllocates,
}

-- The class method's name, and its arguments: those that it does not take are shown as 0.
abbrev pub name_of : Call → String
name_of (reads n fd offset) = "read"
name_of (writes b fd offset) = "write"
name_of (fsyncs fd) = "fsync"
name_of (fdsyncs fd) = "fdsync"

abbrev pub file_of : Call → ℕ
file_of (reads n fd offset) = fd
file_of (writes b fd offset) = fd
file_of (fsyncs fd) = fd
file_of (fdsyncs fd) = fd

abbrev pub offset_of : Call → ℕ
offset_of (reads n fd offset) = offset
offset_of (writes b fd offset) = offset
offset_of _ = 0

abbrev pub size_of : (Ref → List ℕ) → Call → ℕ
size_of blocks (reads n fd offset) = n
size_of blocks (writes b fd offset) = length (blocks b)
size_of blocks _ = 0

-- The arguments as they are shown: the mode and the file by `repr`, the others as attributes.
abbrev pub Shows : (Ref → List ℕ) → Call → Shown → ℕ → ℤ → Type 0
Shows blocks call s offset nbytes =
    (s.mode ≡ name_of call)
    × (s.fileno ≡ pos (file_of call))
    × (offset ≡ offset_of call)
    × (nbytes ≡ pos (size_of blocks call))

pub thread_new-Shows :
    (a : ThreadOperation.Alloc) (p b v : Ref) (w : ThreadState.World) (call : Call)
    → ThreadAllocates a p b v
    → Fits w.blocks call
    → let o = (thread_new a call w).1.ops p in
      Shows w.blocks call
        (ThreadMembers.repr o)
        (ThreadMembers.offset_member o)
        (pos (ThreadMembers.nbytes_member o))
unfolding ThreadOperation.read ThreadOperation.write ThreadOperation.fsync ThreadOperation.fdsync
    ThreadMembers.repr ThreadMembers.offset_member ThreadMembers.nbytes_member
thread_new-Shows a p b v w (reads n fd offset) alloc fits =
    ground (arith, fits, alloc.new_object, alloc.calloc n, alloc.view)
thread_new-Shows a p b v w (writes c fd offset) alloc fits = ground (arith, fits, alloc.new_object)
thread_new-Shows a p b v w (fsyncs fd) alloc fits = ground (arith, fits, alloc.new_object)
thread_new-Shows a p b v w (fdsyncs fd) alloc fits = ground (arith, fits, alloc.new_object)

pub uring_new-Shows :
    (a : UringOperation.Alloc) (p b : Ref) (w : UringState.World) (call : Call)
    → UringAllocates a p b
    → Fits w.blocks call
    → let o = (uring_new a call w).1.ops p in
      Shows w.blocks call
        (UringMembers.repr o)
        (UringMembers.offset_member o)
        (UringMembers.nbytes_member o)
unfolding UringOperation.read UringOperation.write UringOperation.fsync UringOperation.fdsync
    UringMembers.repr UringMembers.offset_member UringMembers.nbytes_member
uring_new-Shows a p b w (reads n fd offset) alloc fits =
    ground (arith, fits, alloc.new_object, alloc.new_bytes (signed64 n))
uring_new-Shows a p b w (writes c fd offset) alloc fits = ground (arith, fits, alloc.new_object)
uring_new-Shows a p b w (fsyncs fd) alloc fits = ground (arith, fits, alloc.new_object)
uring_new-Shows a p b w (fdsyncs fd) alloc fits = ground (arith, fits, alloc.new_object)

pub aio_new-Shows :
    (a : AioOperation.Alloc) (p b v : Ref) (w : AioState.World) (call : Call)
    → AioAllocates a p b v
    → Fits w.blocks call
    → let o = (aio_new a call w).1.ops p in
      Shows w.blocks call
        (AioMembers.repr o)
        (AioMembers.offset_member o)
        (pos (AioMembers.nbytes_member o))
unfolding AioOperation.read AioOperation.write AioOperation.fsync AioOperation.fdsync
    AioMembers.repr AioMembers.offset_member AioMembers.nbytes_member
aio_new-Shows a p b v w (reads n fd offset) alloc fits =
    ground (arith, fits, alloc.new_object, alloc.calloc n, alloc.view)
aio_new-Shows a p b v w (writes c fd offset) alloc fits = ground (arith, fits, alloc.new_object)
aio_new-Shows a p b v w (fsyncs fd) alloc fits = ground (arith, fits, alloc.new_object)
aio_new-Shows a p b v w (fdsyncs fd) alloc fits = ground (arith, fits, alloc.new_object)

-- With memory for its objects, and arguments below 2^31, offsets below 2^63, an Operation made by a
-- class method of any backend shows the method's name and its arguments: the file and the mode by
-- `repr`, the offset and the number of bytes as attributes.
pub calls_shown :
    (call : Call) (p b v : Ref) (at : ThreadOperation.Alloc) (wt : ThreadState.World)
    (au : UringOperation.Alloc) (wu : UringState.World) (aa : AioOperation.Alloc)
    (wa : AioState.World)
    → ThreadAllocates at p b v
    → UringAllocates au p b
    → AioAllocates aa p b v
    → Fits wt.blocks call
    → Fits wu.blocks call
    → Fits wa.blocks call
    → let ot = (thread_new at call wt).1.ops p in
      let ou = (uring_new au call wu).1.ops p in
      let oa = (aio_new aa call wa).1.ops p in
      Shows wt.blocks call
        (ThreadMembers.repr ot)
        (ThreadMembers.offset_member ot)
        (pos (ThreadMembers.nbytes_member ot))
      × Shows wu.blocks call
          (UringMembers.repr ou)
          (UringMembers.offset_member ou)
          (UringMembers.nbytes_member ou)
      × Shows wa.blocks call
          (AioMembers.repr oa)
          (AioMembers.offset_member oa)
          (pos (AioMembers.nbytes_member oa))
calls_shown call p b v at wt au wu aa wa alloct allocu alloca fitst fitsu fitsa = (
  thread_new-Shows at p b v wt call alloct fitst,
  uring_new-Shows au p b wu call allocu fitsu,
  aio_new-Shows aa p b v wa call alloca fitsa,
)

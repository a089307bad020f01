-- ===== src/Backends/Requests.antt =====
-- What the kernel is asked to do for an operation: the system call of a worker, the entry of the
-- submission ring and the control block of linux_aio, for the same arguments.
use caio.Thread.State as ThreadState
use caio.Thread.Operation as ThreadOperation
use caio.Thread.Worker as ThreadWorker
use caio.Uring.State as UringState
use caio.Uring.Operation as UringOperation
use caio.Uring.Submit as UringSubmit
use caio.Aio.State as AioState
use caio.Aio.Operation as AioOperation
use caio.Base.{
  if◌then◌else◌, length, take, take-length_self, ℤ, pos, signed32, signed64, Ref, Result, ℕ, ◌^◌,
  ◌<◌, ◌≡◌, sym, subst, true, Option, none, some, List, [], arith,
}

-- What Python asks for: a class method of Operation with its arguments. The bytes to write are those of
-- the object at `payload`.
pub data Call : Type 0 where
  reads : (nbytes fd offset : ℕ) → Call
  writes : (payload fd offset : ℕ) → Call
  fsyncs fdsyncs : (fd : ℕ) → Call

-- What a kernel is asked for.
pub data Request : Type 0 where
  read_at : (fd : ℤ) (offset : ℤ) (size : ℕ) → Request
  write_at : (fd : ℤ) (offset : ℤ) → List ℕ → Request
  sync_all sync_data : (fd : ℤ) → Request

abbrev pub request_of : (Ref → List ℕ) → Call → Request
request_of blocks (reads n fd offset) = read_at (pos fd) (pos offset) n
request_of blocks (writes b fd offset) = write_at (pos fd) (pos offset) (blocks b)
request_of blocks (fsyncs fd) = sync_all (pos fd)
request_of blocks (fdsyncs fd) = sync_data (pos fd)

-- Arguments that every field on the way holds: files and sizes below 2^31, offsets below 2^63.
abbrev pub Fits : (Ref → List ℕ) → Call → Type 0
Fits blocks (reads n fd offset) = (n < 2 ^ 31) × (fd < 2 ^ 31) × (offset < 2 ^ 63)
Fits blocks (writes b fd offset) = (length (blocks b) < 2 ^ 31) × (fd < 2 ^ 31) × (offset < 2 ^ 63)
Fits blocks (fsyncs fd) = fd < 2 ^ 31
Fits blocks (fdsyncs fd) = fd < 2 ^ 31

-- The class method, where the interpreter has memory.
abbrev pub thread_new :
    ThreadOperation.Alloc → Call → ThreadState.World → Result Ref × ThreadState.World
thread_new a (reads n fd offset) w =
    ThreadOperation.read a (some (record { nbytes = n; fileno = fd; offset = some (pos offset) })) w
thread_new a (writes b fd offset) w =
    ThreadOperation.write a
      (some (record {
        payload = b;
        content = some (w.blocks b);
        converts = true;
        fileno = fd;
        offset = some (pos offset);
      }))
      w
thread_new a (fsyncs fd) w = ThreadOperation.fsync a (some fd) w
thread_new a (fdsyncs fd) w = ThreadOperation.fdsync a (some fd) w

abbrev pub uring_new :
    UringOperation.Alloc → Call → UringState.World → Result Ref × UringState.World
uring_new a (reads n fd offset) w =
    UringOperation.read a (some (record { nbytes = n; fileno = fd; offset = offset })) w
uring_new a (writes b fd offset) w =
    UringOperation.write a
      (some (record {
        payload = b;
        content = some (w.blocks b);
        converts = true;
        fileno = fd;
        offset = some offset;
      }))
      w
uring_new a (fsyncs fd) w = UringOperation.fsync a (some fd) w
uring_new a (fdsyncs fd) w = UringOperation.fdsync a (some fd) w

abbrev pub aio_new : AioOperation.Alloc → Call → AioState.World → Result Ref × AioState.World
aio_new a (reads n fd offset) w =
    AioOperation.read a
      (some (record { nbytes = n; fildes = fd; offset = pos offset; reqprio = pos 0 })) w
aio_new a (writes b fd offset) w =
    AioOperation.write a
      (some (record {
        payload = b;
        content = some (w.blocks b);
        converts = true;
        fildes = fd;
        offset = pos offset;
        reqprio = pos 0;
      }))
      w
aio_new a (fsyncs fd) w = AioOperation.fsync a (some (record { fildes = fd; reqprio = pos 0 })) w
aio_new a (fdsyncs fd) w = AioOperation.fdsync a (some (record { fildes = fd; reqprio = pos 0 })) w

-- How the kernel reads an entry of the submission ring, and a control block, each with the word that
-- it gives back on completion: the type of a file is `int`, and that of an offset `loff_t`.
abbrev pub asked_sqe : (Ref → List ℕ) → Option UringState.Sqe → Option (Request × Ref)
asked_sqe blocks none = none
asked_sqe blocks (some e) = elim e.opcode [
  | UringState.op_read ↦ some (read_at e.fd (signed64 e.off) e.len, e.user_data)
  | UringState.op_write ↦
      some (write_at e.fd (signed64 e.off) (take e.len (blocks e.addr)), e.user_data)
  | UringState.op_fsync ↦ some (if e.datasync then sync_data e.fd else sync_all e.fd, e.user_data)
  | _ ↦ none
]

abbrev asked_bytes : (Ref → List ℕ) → Option Ref → List ℕ
asked_bytes blocks none = []
asked_bytes blocks (some b) = blocks b

abbrev pub asked_iocb : (Ref → List ℕ) → AioState.Iocb → Request × Ref
asked_iocb blocks b = elim b.opcode [
  | AioState.cmd_pread ↦ (read_at (signed32 b.fildes) b.offset b.nbytes, b.data_ref)
  | AioState.cmd_pwrite ↦
      (write_at (signed32 b.fildes) b.offset (take b.nbytes (asked_bytes blocks b.buf)), b.data_ref)
  | AioState.cmd_fsync ↦ (sync_all (signed32 b.fildes), b.data_ref)
  | AioState.cmd_fdsync ↦ (sync_data (signed32 b.fildes), b.data_ref)
]

-- System calls that look at what is asked alone, on a build with `fdatasync`.
abbrev pub answering : (Request → ThreadWorker.Outcome) → ThreadWorker.Kernel
answering answer = record {
  pread = λ fd n offset. answer (read_at (signed32 fd) offset n);
  pwrite = λ fd bs n offset. answer (write_at (signed32 fd) offset (take n bs));
  fsync = λ fd. answer (sync_all (signed32 fd));
  fdatasync = λ fd. answer (sync_data (signed32 fd));
  have_fdatasync = true;
}

-- Memory for the new object at `p` and its buffer at `b`.
pub record ThreadAllocates (a : ThreadOperation.Alloc) (p b v : Ref) : Type 0 where
  pub new_object : a.object ≡ some p
  pub calloc : (n : ℕ) → a.calloc n ≡ some b
  pub view : a.view ≡ some v

pub record UringAllocates (a : UringOperation.Alloc) (p b : Ref) : Type 0 where
  pub new_object : a.object ≡ some p
  pub new_bytes : (n : ℤ) → a.new_bytes n ≡ some b

pub record AioAllocates (a : AioOperation.Alloc) (p b v : Ref) : Type 0 where
  pub new_object : a.object ≡ some p
  pub calloc : (n : ℕ) → a.calloc n ≡ some b
  pub view : a.view ≡ some v

-- A worker asks for what the call says.
pub thread_asks :
    (a : ThreadOperation.Alloc) (p b v : Ref) (w : ThreadState.World) (call : Call)
    (answer : Request → ThreadWorker.Outcome)
    → ThreadAllocates a p b v
    → Fits w.blocks call
    → ThreadWorker.system_call (answering answer) w.blocks ((thread_new a call w).1.ops p)
      ≡ answer (request_of w.blocks call)
unfolding ThreadOperation.read ThreadOperation.write ThreadOperation.fsync ThreadOperation.fdsync
    ThreadWorker.system_call
thread_asks a p b v w (reads n fd offset) answer alloc fits =
    rw (alloc.new_object, alloc.calloc n, alloc.view) (ground (arith, fits))
thread_asks a p b v w (writes c fd offset) answer alloc fits =
    rw alloc.new_object (ground (arith, fits, take-length_self (w.blocks c)))
thread_asks a p b v w (fsyncs fd) answer alloc fits = rw alloc.new_object (ground (arith, fits))
thread_asks a p b v w (fdsyncs fd) answer alloc fits = rw alloc.new_object (ground (arith, fits))

-- The entry of the ring reads back as the request of the call.
pub uring_asks :
    (a : UringOperation.Alloc) (p b : Ref) (w : UringState.World) (call : Call)
    → UringAllocates a p b
    → Fits w.blocks call
    → asked_sqe w.blocks (UringSubmit.fill_sqe p ((uring_new a call w).1.ops p))
      ≡ some (request_of w.blocks call, p)
unfolding UringOperation.read UringOperation.write UringOperation.fsync UringOperation.fdsync
    UringSubmit.fill_sqe
uring_asks a p b w (reads n fd offset) alloc fits =
    ground (arith, fits, alloc.new_object, alloc.new_bytes (signed64 n))
uring_asks a p b w (writes c fd offset) alloc fits =
    rw alloc.new_object (ground (arith, fits, take-length_self (w.blocks c)))
uring_asks a p b w (fsyncs fd) alloc fits = rw alloc.new_object (ground (arith, fits))
uring_asks a p b w (fdsyncs fd) alloc fits = rw alloc.new_object (ground (arith, fits))

-- So does the control block.
pub aio_asks :
    (a : AioOperation.Alloc) (p b v : Ref) (w : AioState.World) (call : Call)
    → AioAllocates a p b v
    → Fits w.blocks call
    → asked_iocb w.blocks ((aio_new a call w).1.ops p).iocb ≡ (request_of w.blocks call, p)
unfolding AioOperation.read AioOperation.write AioOperation.fsync AioOperation.fdsync
aio_asks a p b v w (reads n fd offset) alloc fits =
    rw (alloc.new_object, alloc.calloc n, alloc.view) (ground (arith, fits))
aio_asks a p b v w (writes c fd offset) alloc fits =
    rw alloc.new_object (ground (arith, fits, take-length_self (w.blocks c)))
aio_asks a p b v w (fsyncs fd) alloc fits = rw alloc.new_object (ground (arith, fits))
aio_asks a p b v w (fdsyncs fd) alloc fits = rw alloc.new_object (ground (arith, fits))

-- For the same call, whose arguments fit the fields on the way, and with memory for its objects, the
-- three backends ask the kernel for the same, and for what the call says, on a build with `fdatasync`:
-- a worker by its system call, linux_uring by the entry that submit makes and linux_aio by the control
-- block of the operation. These two bear the address of the operation.
pub calls_agree :
    (call : Call) (p b v : Ref) (at : ThreadOperation.Alloc) (wt : ThreadState.World)
    (answer : Request → ThreadWorker.Outcome) (au : UringOperation.Alloc) (wu : UringState.World)
    (aa : AioOperation.Alloc) (wa : AioState.World)
    → ThreadAllocates at p b v
    → UringAllocates au p b
    → AioAllocates aa p b v
    → wu.blocks ≡ wt.blocks
    → wa.blocks ≡ wt.blocks
    → Fits wt.blocks call
    → let asked = request_of wt.blocks call in
      (ThreadWorker.system_call (answering answer) wt.blocks ((thread_new at call wt).1.ops p)
        ≡ answer asked)
      × (asked_sqe wu.blocks (UringSubmit.fill_sqe p ((uring_new au call wu).1.ops p))
          ≡ some (asked, p))
      × (asked_iocb wa.blocks ((aio_new aa call wa).1.ops p).iocb ≡ (asked, p))
calls_agree call p b v at wt answer au wu aa wa alloct allocu alloca bu ba fits = (
  thread_asks at p b v wt call answer alloct fits,
  subst
      (λ f.
        asked_sqe wu.blocks (UringSubmit.fill_sqe p ((uring_new au call wu).1.ops p))
        ≡ some (request_of f call, p))
      bu (uring_asks au p b wu call allocu (subst (λ f. Fits f call) (sym bu) fits)),
  subst (λ f. asked_iocb wa.blocks ((aio_new aa call wa).1.ops p).iocb ≡ (request_of f call, p)) ba
      (aio_asks aa p b v wa call alloca (subst (λ f. Fits f call) (sym ba) fits)),
)

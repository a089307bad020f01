-- ===== src/Thread/Worker.antt =====
-- `worker`, which a thread of the pool runs for one accepted operation.
pub mod Results
pub mod Balance
use caio.Base.{
  if◌then◌else◌, length, drop, ℤ, is_neg, u8, bits64, int32, Ref, update, Counts, decref, xincref,
  xdecref, ℕ, Bool, true, false, Option, none, some, List, [], ◌∷◌, ◌++◌,
}
use caio.Thread.State.{
  Opcode, thaio_read, thaio_write, thaio_fsync, thaio_fdsync, thaio_noop, Operation, World, set_op,
  set_refs,
}

-- What a system call leaves: its result, `errno`, and the bytes that it has stored.
pub record Outcome : Type 0 where
  pub result : ℤ
  pub errno : ℕ
  pub stored : List ℕ

-- The system calls. A count is a `size_t`; `have_fdatasync` is the switch of the build.
pub record Kernel : Type 0 where
  pub pread : (fileno count : ℕ) → (offset : ℤ) → Outcome
  pub pwrite : (fileno : ℕ) → List ℕ → (count : ℕ) → (offset : ℤ) → Outcome
  pub fsync : (fileno : ℕ) → Outcome
  pub fdatasync : (fileno : ℕ) → Outcome
  pub have_fdatasync : Bool

-- `int buf_size = op->buf_size`, and its conversion to the `size_t` of the calls.
unfoldable pub io_count : ℤ → ℕ
io_count n = bits64 (int32 n)

abbrev content : (Ref → List ℕ) → Option Ref → List ℕ
content blocks none = []
content blocks (some b) = blocks b

unfoldable pub system_call : Kernel → (Ref → List ℕ) → Operation → Outcome
unfolding io_count
system_call k blocks o = elim o.opcode [
  | thaio_write ↦ k.pwrite o.fileno (content blocks o.buf) (io_count o.buf_size) o.offset
  | thaio_fsync ↦ k.fsync o.fileno
  | thaio_fdsync ↦ if k.have_fdatasync then k.fdatasync o.fileno else k.fsync o.fileno
  | _ ↦ k.pread o.fileno (io_count o.buf_size) o.offset
]

-- A read fills the start of its block.
abbrev fill : Opcode → Option Ref → List ℕ → (Ref → List ℕ) → Ref → List ℕ
fill thaio_read (some b) bs blocks = update blocks b (bs ++ drop (length bs) (blocks b))
fill _ _ bs blocks = blocks

-- Up to the switch: the context is taken from the operation, and the error is reset.
unfoldable pub begin : Ref → World → World
begin p w = set_op p (record (w.ops p) { ctx = none; error = 0 }) w

abbrev read_size : Opcode → ℤ → ℤ → ℤ
read_size thaio_read result size = result
read_size _ result size = size

-- From the switch to `PyGILState_Ensure`. The interpreter's lock is not held.
unfoldable pub perform : Kernel → Ref → World → World
unfolding system_call
perform k p w =
    let o = w.ops p in
    let out = system_call k w.blocks o in
    let result = int32 out.result in
    let o' = record o {
      ctx = none;
      result = result;
      error = if is_neg result then u8 out.errno else o.error;
      buf_size = read_size o.opcode result o.buf_size;
    } in
    record (set_op p o' w) { blocks = fill o.opcode o.buf out.stored w.blocks }

abbrev written : Opcode → Operation → Operation
written thaio_write o = record o { py_buffer = none }
written _ o = o

abbrev pub written_refs : Opcode → Option Ref → Counts → Counts
written_refs thaio_write b c = xdecref b c
written_refs _ b c = c

abbrev invoke : Option Ref → ℤ → World → World
invoke none result w = w
invoke (some f) result w = record w { calls = (f, result) ∷ w.calls }

-- With the lock held: `done` is published, and the callback is called with the result. Whether it
-- raises decides only what the interpreter prints.
unfoldable pub publish : Ref → World → World
publish p w =
    let o = w.ops p in
    let c = xincref o.callback (written_refs o.opcode o.py_buffer w.refs) in
    invoke o.callback o.result
      (set_refs c (set_op p (record (written o.opcode o) { done = true }) w))

-- The references that the task held are dropped, and that to the callback.
unfoldable pub retire : Option Ref → Option Ref → Ref → World → World
retire f c p w = set_refs (decref p (xdecref c (xdecref f w.refs))) w

abbrev pub is_noop : Opcode → Bool
is_noop thaio_noop = true
is_noop _ = false

-- The whole of `worker`, with no other thread in between. The callback is read when `done` is set.
unfoldable pub worker : Kernel → Ref → World → World
unfolding begin perform publish retire
worker k p w =
    let c = (w.ops p).ctx in
    if is_noop (w.ops p).opcode
    then retire none c p (begin p w)
    else let w' = perform k p (begin p w) in retire (w'.ops p).callback c p (publish p w')

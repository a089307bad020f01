-- ===== src/Thread/Operation.antt =====
-- The constructors of Operation, its release, and the methods that do not wait for a result.
pub mod Release
use caio.Base.{
  ltb, ◌==◌, if◌then◌else◌, is_none, length, take, replicate, ℤ, pos, negsuc, signed64, Ref, update,
  incref, decref, xdecref, visit, PyErr, runtime_error, value_error, system_error, memory_error,
  propagated, Result, ok, raise, Value, py_none, py_true, int, bytes, object, ℕ, Bool, not, ◌&&◌,
  Option, none, some, List, ◌++◌,
}
use caio.Thread.State.{
  Opcode, thaio_read, thaio_write, thaio_fsync, thaio_fdsync, Operation, blank, World, set_op, free,
  set_refs,
}

-- A read owns its block, which is freed; a write's buffer belongs to the bytes object.
abbrev clear_buffer : Opcode → Option Ref → World → World
clear_buffer thaio_read (some b) w = free b w
clear_buffer _ _ w = w

abbrev cleared_buf : Opcode → Option Ref → Option Ref
cleared_buf thaio_read b = none
cleared_buf _ b = b

-- AIOOperation_traverse: the objects that it shows to the collector.
unfoldable pub traverse : Operation → List Ref
traverse o = visit o.callback ++ visit o.py_buffer ++ visit o.ctx

-- AIOOperation_clear
unfoldable pub clear : Ref → World → World
clear p w =
    let o = w.ops p in
    let c = xdecref o.ctx (xdecref o.py_buffer (xdecref o.callback w.refs)) in
    let o' = record o {
      callback = none;
      py_buffer = none;
      buf = cleared_buf o.opcode o.buf;
      ctx = none;
    } in
    set_refs c (set_op p o' (clear_buffer o.opcode o.buf w))

-- AIOOperation_dealloc: the interpreter calls it when the last reference is dropped.
unfoldable pub dealloc : Ref → World → World
unfolding clear
dealloc p w = free p (clear p w)

-- What the interpreter's allocators answer: NULL is `none`.
pub record Alloc : Type 0 where
  -- `type->tp_alloc`
  pub object : Option Ref
  -- `PyMem_Calloc` of so many bytes
  pub calloc : ℕ → Option Ref
  -- `PyMemoryView_FromMemory`
  pub view : Option Ref

-- The arguments as `PyArg_ParseTupleAndKeywords` leaves them: a `uint64_t`, an `unsigned int`, and
-- a `long long` where one is given.
pub record ReadArgs : Type 0 where
  pub nbytes : ℕ
  pub fileno : ℕ
  pub offset : Option ℤ

-- `payload` is the object passed for `payload_bytes`, with its content if it is a bytes object;
-- `converts` says whether `PyBytes_AsStringAndSize` succeeds.
pub record WriteArgs : Type 0 where
  pub payload : Ref
  pub content : Option (List ℕ)
  pub converts : Bool
  pub fileno : ℕ
  pub offset : Option ℤ

abbrev pub offset_or_zero : Option ℤ → ℤ
offset_or_zero none = pos 0
offset_or_zero (some o) = o

-- A new object has one reference, so `Py_DECREF(self)` on an error path ends it.
abbrev fail : PyErr → Ref → World → Result Ref × World
fail e p w = (raise e, dealloc p (set_refs (decref p w.refs) w))

abbrev allocated : Ref → Operation → World → World
allocated p o w = set_refs (update w.refs p 1) (set_op p o w)

read_view : Ref → Operation → Option Ref → World → Result Ref × World
read_view p o none w = fail propagated p (set_op p o w)
read_view p o (some v) w =
    (ok p, set_refs (update w.refs v 1) (set_op p (record o { py_buffer = some v }) w))

abbrev zeroed : Option Ref → ℕ → World → World
zeroed none n w = w
zeroed (some b) n w = record w { blocks = update w.blocks b (replicate n 0) }

read_parsed : Alloc → Ref → Option ReadArgs → World → Result Ref × World
unfolding read_view
read_parsed a p none w = fail propagated p w
read_parsed a p (some args) w =
    let o = record blank { fileno = args.fileno; offset = offset_or_zero args.offset } in
    let b = a.calloc args.nbytes in
    if is_none b && ltb 0 args.nbytes
    then fail memory_error p (set_op p o w)
    else read_view p (record o { buf = b; buf_size = signed64 args.nbytes }) a.view
        (zeroed b args.nbytes w)

-- AIOOperation_read
unfoldable pub read : Alloc → Option ReadArgs → World → Result Ref × World
unfolding read_parsed
read a args w = elim a.object [
  | none ↦ (raise memory_error, w)
  | some p ↦ read_parsed a p args (allocated p blank w)
]

write_bytes : Ref → WriteArgs → List ℕ → Operation → World → Result Ref × World
write_bytes p args bs o w =
    let o' = record o {
      buf = some args.payload;
      buf_size = pos (length bs);
      py_buffer = some args.payload;
    } in
    if args.converts
    then (ok p, set_refs (incref args.payload w.refs) (set_op p o' w))
    else fail (runtime_error "Can not convert bytes to c string") p (set_op p o w)

write_parsed : Ref → Option WriteArgs → World → Result Ref × World
unfolding write_bytes
write_parsed p none w = fail propagated p w
write_parsed p (some args) w =
    let o = record blank { fileno = args.fileno; offset = offset_or_zero args.offset } in
    elim args.content [
      | none ↦ fail (value_error "payload_bytes argument must be bytes") p (set_op p o w)
      | some bs ↦ write_bytes p args bs (record o { opcode = thaio_write }) w
    ]

-- AIOOperation_write. `buf` is the address of the payload's bytes, which stand under its own.
unfoldable pub write : Alloc → Option WriteArgs → World → Result Ref × World
unfolding write_parsed
write a args w = elim a.object [
  | none ↦ (raise memory_error, w)
  | some p ↦ write_parsed p args (allocated p blank w)
]

abbrev sync_parsed : Opcode → Ref → Option ℕ → World → Result Ref × World
sync_parsed c p none w = fail propagated p w
sync_parsed c p (some fd) w = (ok p, set_op p (record blank { fileno = fd; opcode = c }) w)

-- AIOOperation_fsync and AIOOperation_fdsync, which differ in the opcode alone.
unfoldable pub fsync : Alloc → Option ℕ → World → Result Ref × World
fsync a args w = elim a.object [
  | none ↦ (raise memory_error, w)
  | some p ↦ sync_parsed thaio_fsync p args (allocated p blank w)
]

unfoldable pub fdsync : Alloc → Option ℕ → World → Result Ref × World
fdsync a args w = elim a.object [
  | none ↦ (raise memory_error, w)
  | some p ↦ sync_parsed thaio_fdsync p args (allocated p blank w)
]

-- AIOOperation_set_callback: the argument is `none` if it was not parsed, and the test is
-- `PyCallable_Check`.
unfoldable pub set_callback : Ref → (Ref → Bool) → Option Ref → World → Result Value × World
set_callback p callable none w = (raise propagated, w)
set_callback p callable (some f) w =
    let o = w.ops p in
    if callable f
    then (
      ok py_true,
      set_refs (xdecref o.callback (incref f w.refs)) (set_op p (record o { callback = some f }) w),
    )
    else (raise (value_error "object is not callable"), w)

-- AIOOperation_get_value
abbrev pub in_flight : Operation → Bool
in_flight o = o.in_progress && not o.done

-- `PyBytes_FromStringAndSize` refuses a negative size.
abbrev bytes_of : List ℕ → ℤ → Result Value
bytes_of bs (pos n) = ok (bytes (take n bs))
bytes_of bs (negsuc n) = raise propagated

abbrev value_of : (Ref → List ℕ) → Operation → Result Value
value_of blocks o = elim o.opcode [
  | thaio_read ↦ elim o.buf [ none ↦ ok py_none | some b ↦ bytes_of (blocks b) o.buf_size ]
  | thaio_write ↦ ok (int o.result)
  | _ ↦ ok py_none
]

unfoldable pub get_value : Ref → World → Result Value
get_value p w =
    let o = w.ops p in
    if in_flight o
    then raise (runtime_error "get_value() is not available while the operation is in flight")
    else if o.error == 0
    then value_of w.blocks o
    else raise (system_error o.error)

-- AIOOperation_payload_getter
unfoldable pub payload : Ref → World → Result Value × World
payload p w =
    let o = w.ops p in
    if in_flight o
    then (raise (runtime_error "payload is not available while the operation is in flight"), w)
    else elim o.py_buffer [
      | none ↦ (ok py_none, w)
      | some b ↦ (ok (object b), set_refs (incref b w.refs) w)
    ]

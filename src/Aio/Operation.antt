-- ===== src/Aio/Operation.antt =====
-- The methods of Operation of caio/linux_aio.c.
use caio.Base.{
  ltb, ◌==◌, if◌then◌else◌, is_none, length, take, replicate, ℤ, pos, negsuc, signed64, Ref, update,
  incref, decref, xdecref, visit, PyErr, runtime_error, value_error, system_error, memory_error,
  propagated, Result, ok, raise, Value, py_none, py_true, int, bytes, object, ℕ, Bool, not, ◌&&◌,
  Option, none, some, List, ◌++◌,
}
use caio.Aio.State.{
  Opcode, cmd_pread, cmd_pwrite, cmd_fsync, cmd_fdsync, Iocb, Operation, zero_iocb, blank, World,
  set_op, set_refs, free,
}

-- A read owns its block, which is freed; a write's buffer belongs to the bytes object.
abbrev clear_buffer : Opcode → Option Ref → World → World
clear_buffer cmd_pread (some b) w = free b w
clear_buffer _ _ w = w

abbrev cleared_buffer : Opcode → Option Ref → Option Ref
cleared_buffer cmd_pread b = none
cleared_buffer _ b = b

-- AIOOperation_traverse: the objects that it shows to the collector.
unfoldable pub traverse : Operation → List Ref
traverse o = visit o.context ++ visit o.callback ++ visit o.py_buffer

-- AIOOperation_clear
unfoldable pub clear : Ref → World → World
clear p w =
    let o = w.ops p in
    let o' = record o {
      context = none;
      callback = none;
      buffer = cleared_buffer o.iocb.opcode o.buffer;
      py_buffer = none;
    } in
    set_refs (xdecref o.py_buffer (xdecref o.callback (xdecref o.context w.refs)))
      (set_op p o' (clear_buffer o.iocb.opcode o.buffer w))

-- AIOOperation_dealloc: the interpreter calls it when the last reference is dropped.
unfoldable pub dealloc : Ref → World → World
unfolding clear
dealloc p w = free p (clear p w)

-- What the interpreter's allocators answer: NULL is `none`.
pub record Alloc : Type 0 where
  -- `type->tp_alloc`
  pub object : Option Ref
  -- `PyMem_Calloc` of so many bytes
  pub calloc : ℕ → Option Ref
  -- `PyMemoryView_FromMemory`
  pub view : Option Ref

-- The arguments as `PyArg_ParseTupleAndKeywords` leaves them: those that are left out keep the zero
-- that stands in the field.
pub record ReadArgs : Type 0 where
  pub nbytes : ℕ
  pub fildes : ℕ
  pub offset : ℤ
  pub reqprio : ℤ

-- `payload` is the object passed for `payload_bytes`, with its content if it is a bytes object;
-- `converts` says whether `PyBytes_AsStringAndSize` succeeds.
pub record WriteArgs : Type 0 where
  pub payload : Ref
  pub content : Option (List ℕ)
  pub converts : Bool
  pub fildes : ℕ
  pub offset : ℤ
  pub reqprio : ℤ

pub record SyncArgs : Type 0 where
  pub fildes : ℕ
  pub reqprio : ℤ

-- A new object has one reference, so `Py_DECREF(self)` on an error path ends it.
abbrev fail : PyErr → Ref → World → Result Ref × World
fail e p w = (raise e, dealloc p (set_refs (decref p w.refs) w))

-- An object with `aio_data` set to its own address.
abbrev fresh : Ref → Operation
fresh p = record blank { iocb = record zero_iocb { data_ref = p } }

abbrev allocated : Ref → World → World
allocated p w = set_refs (update w.refs p 1) (set_op p (fresh p) w)

abbrev zeroed : Option Ref → ℕ → World → World
zeroed none n w = w
zeroed (some b) n w = record w { blocks = update w.blocks b (replicate n 0) }

unfoldable pub read_view : Ref → Operation → Option Ref → World → Result Ref × World
read_view p o none w = fail propagated p (set_op p o w)
read_view p o (some v) w = (
  ok p,
  set_refs (update w.refs v 1)
      (set_op p (record o { py_buffer = some v; iocb = record o.iocb { opcode = cmd_pread } }) w),
)

unfoldable pub read_parsed : Alloc → Ref → Option ReadArgs → World → Result Ref × World
unfolding read_view
read_parsed a p none w = fail propagated p w
read_parsed a p (some args) w =
    let iocb = record zero_iocb {
      data_ref = p;
      fildes = args.fildes;
      offset = args.offset;
      reqprio = args.reqprio;
    } in
    let b = a.calloc args.nbytes in
    if is_none b && ltb 0 args.nbytes
    then fail memory_error p (set_op p (record blank { iocb = iocb }) w)
    else read_view p
        (record blank { buffer = b; iocb = record iocb { buf = b; nbytes = args.nbytes } }) a.view
        (zeroed b args.nbytes w)

-- AIOOperation_read
unfoldable pub read : Alloc → Option ReadArgs → World → Result Ref × World
unfolding read_parsed
read a args w = elim a.object [
  | none ↦ (raise memory_error, w)
  | some p ↦ read_parsed a p args (allocated p w)
]

unfoldable pub write_bytes : Ref → WriteArgs → List ℕ → Iocb → World → Result Ref × World
write_bytes p args bs iocb w =
    let o = record blank {
      buffer = some args.payload;
      py_buffer = some args.payload;
      iocb = record iocb { nbytes = length bs; buf = some args.payload };
    } in
    if args.converts
    then (ok p, set_refs (incref args.payload w.refs) (set_op p o w))
    else fail (runtime_error "Can not convert bytes to c string") p
        (set_op p (record blank { iocb = iocb }) w)

unfoldable pub write_parsed : Ref → Option WriteArgs → World → Result Ref × World
unfolding write_bytes
write_parsed p none w = fail propagated p w
write_parsed p (some args) w =
    let iocb = record zero_iocb {
      data_ref = p;
      fildes = args.fildes;
      offset = args.offset;
      reqprio = args.reqprio;
    } in
    elim args.content [
      | none ↦
          fail (value_error "payload_bytes argument must be bytes") p
            (set_op p (record blank { iocb = iocb }) w)
      | some bs ↦ write_bytes p args bs (record iocb { opcode = cmd_pwrite }) w
    ]

-- AIOOperation_write. `buffer` is the address of the payload's bytes, which stand under its own.
unfoldable pub write : Alloc → Option WriteArgs → World → Result Ref × World
unfolding write_parsed
write a args w = elim a.object [
  | none ↦ (raise memory_error, w)
  | some p ↦ write_parsed p args (allocated p w)
]

unfoldable pub sync_parsed : Opcode → Ref → Option SyncArgs → World → Result Ref × World
sync_parsed c p none w = fail propagated p w
sync_parsed c p (some args) w =
    let iocb = record zero_iocb {
      data_ref = p;
      fildes = args.fildes;
      reqprio = args.reqprio;
      opcode = c;
    } in
    (ok p, set_op p (record blank { iocb = iocb }) w)

-- AIOOperation_fsync and AIOOperation_fdsync, which differ in the opcode alone.
unfoldable pub fsync : Alloc → Option SyncArgs → World → Result Ref × World
unfolding sync_parsed
fsync a args w = elim a.object [
  | none ↦ (raise memory_error, w)
  | some p ↦ sync_parsed cmd_fsync p args (allocated p w)
]

unfoldable pub fdsync : Alloc → Option SyncArgs → World → Result Ref × World
unfolding sync_parsed
fdsync a args w = elim a.object [
  | none ↦ (raise memory_error, w)
  | some p ↦ sync_parsed cmd_fdsync p args (allocated p w)
]

-- AIOOperation_set_callback, with `none` for arguments that do not parse.
unfoldable pub set_callback : Ref → (Ref → Bool) → Option Ref → World → Result Value × World
set_callback p callable none w = (raise propagated, w)
set_callback p callable (some f) w =
    let o = w.ops p in
    if callable f
    then (
      ok py_true,
      set_refs (xdecref o.callback (incref f w.refs)) (set_op p (record o { callback = some f }) w),
    )
    else (raise (value_error "object is not callable"), w)

abbrev pub in_flight : Operation → Bool
in_flight o = o.in_progress && not o.done

-- `PyBytes_FromStringAndSize`, which refuses a negative size.
abbrev bytes_of : List ℕ → ℤ → Result Value
bytes_of bs (pos n) = ok (bytes (take n bs))
bytes_of bs (negsuc n) = raise propagated

-- The switch on the opcode.
unfoldable pub value_of : (Ref → List ℕ) → Operation → Result Value
value_of blocks o = elim o.iocb.opcode [
  | cmd_pread ↦ elim o.buffer [
    | none ↦ ok py_none
    | some b ↦ bytes_of (blocks b) (signed64 o.iocb.nbytes)
  ]
  | cmd_pwrite ↦ ok (int (signed64 o.iocb.nbytes))
  | _ ↦ ok py_none
]

-- AIOOperation_get_value
unfoldable pub get_value : Ref → World → Result Value
unfolding value_of
get_value p w =
    let o = w.ops p in
    if in_flight o
    then raise (runtime_error "get_value() is not available while the operation is in flight")
    else if o.error == 0
    then value_of w.blocks o
    else raise (system_error o.error)

-- AIOOperation_payload_getter
unfoldable pub payload : Ref → World → Result Value × World
payload p w =
    let o = w.ops p in
    if in_flight o
    then (raise (runtime_error "payload is not available while the operation is in flight"), w)
    else elim o.py_buffer [
      | none ↦ (ok py_none, w)
      | some b ↦ (ok (object b), set_refs (incref b w.refs) w)
    ]

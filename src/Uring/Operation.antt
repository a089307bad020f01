-- ===== src/Uring/Operation.antt =====
-- The methods of Operation that need no ring.
use caio.Base.{
  ◌==◌, if◌then◌else◌, length, take, replicate, ℤ, pos, negsuc, pos_part, signed64, Ref, update,
  incref, decref, xdecref, visit, PyErr, runtime_error, value_error, system_error, memory_error,
  propagated, Result, ok, raise, Value, py_none, py_true, int, bytes, object, ℕ, zero, Bool, true,
  false, not, ◌&&◌, Option, none, some, List, ◌++◌,
}
use caio.Uring.State.{
  Opcode, uring_read, uring_write, uring_fsync, uring_fdsync, Operation, blank, World, set_op,
  set_refs,
}

-- AIOOperation_traverse: the objects that it shows to the collector.
unfoldable pub traverse : Operation → List Ref
traverse o = visit o.py_buffer ++ visit o.callback ++ visit o.context

-- AIOOperation_clear. The block of a read belongs to its bytes object.
unfoldable pub clear : Ref → World → World
clear p w =
    let o = w.ops p in
    set_refs (xdecref o.py_buffer (xdecref o.context (xdecref o.callback w.refs)))
      (set_op p (record o { callback = none; context = none; py_buffer = none }) w)

-- AIOOperation_dealloc, less the return of the object's memory to the interpreter.
unfoldable pub dealloc : Ref → World → World
unfolding clear
dealloc p w = clear p w

-- What the interpreter's allocators answer: NULL is `none`.
pub record Alloc : Type 0 where
  -- `type->tp_alloc`
  pub object : Option Ref
  -- `PyBytes_FromStringAndSize` of so many bytes, which are not initialised
  pub new_bytes : ℤ → Option Ref

-- The arguments as `PyArg_ParseTupleAndKeywords` leaves them.
pub record ReadArgs : Type 0 where
  pub nbytes : ℕ
  pub fileno : ℕ
  pub offset : ℕ

-- `payload` is the object passed for `payload_bytes`, with its content if it is a bytes object;
-- `converts` says whether `PyBytes_AsStringAndSize` succeeds.
pub record WriteArgs : Type 0 where
  pub payload : Ref
  pub content : Option (List ℕ)
  pub converts : Bool
  pub fileno : ℕ
  pub offset : Option ℕ

-- A new object has one reference, so `Py_DECREF(self)` on an error path ends it.
abbrev fail : PyErr → Ref → World → Result Ref × World
fail e p w = (raise e, dealloc p (set_refs (decref p w.refs) w))

abbrev allocated : Ref → World → World
allocated p w = set_refs (update w.refs p 1) (set_op p blank w)

abbrev offset_or_zero : Option ℕ → ℕ
offset_or_zero none = 0
offset_or_zero (some n) = n

-- The bytes object is zeroed to its end.
read_parsed : Alloc → Ref → Option ReadArgs → World → Result Ref × World
read_parsed a p none w = fail propagated p w
read_parsed a p (some args) w =
    let o = record blank { fileno = args.fileno; offset = args.offset } in
    elim (a.new_bytes (signed64 args.nbytes)) [
      | none ↦ fail propagated p (set_op p o w)
      | some b ↦
          let o' = record o {
            py_buffer = some b;
            buf = some b;
            buf_size = signed64 args.nbytes;
            opcode = uring_read;
          } in
          let w' = record w { blocks = update w.blocks b (replicate args.nbytes 0) } in
          (ok p, set_refs (update w.refs b 1) (set_op p o' w'))
    ]

-- AIOOperation_read
unfoldable pub read : Alloc → Option ReadArgs → World → Result Ref × World
unfolding read_parsed
read a args w = elim a.object [
  | none ↦ (raise memory_error, w)
  | some p ↦ read_parsed a p args (allocated p w)
]

write_bytes : Ref → WriteArgs → List ℕ → Operation → World → Result Ref × World
write_bytes p args bs o w =
    let o' = record o {
      buf = some args.payload;
      buf_size = pos (length bs);
      py_buffer = some args.payload;
      opcode = uring_write;
    } in
    if args.converts
    then (ok p, set_refs (incref args.payload w.refs) (set_op p o' w))
    else fail propagated p (set_op p o w)

write_parsed : Ref → Option WriteArgs → World → Result Ref × World
unfolding write_bytes
write_parsed p none w = fail propagated p w
write_parsed p (some args) w =
    let o = record blank { fileno = args.fileno; offset = offset_or_zero args.offset } in
    elim args.content [
      | none ↦ fail (value_error "payload_bytes must be bytes") p (set_op p o w)
      | some bs ↦ write_bytes p args bs o w
    ]

-- AIOOperation_write
unfoldable pub write : Alloc → Option WriteArgs → World → Result Ref × World
unfolding write_parsed
write a args w = elim a.object [
  | none ↦ (raise memory_error, w)
  | some p ↦ write_parsed p args (allocated p w)
]

abbrev sync_parsed : Opcode → Ref → Option ℕ → World → Result Ref × World
sync_parsed c p none w = fail propagated p w
sync_parsed c p (some fd) w = (ok p, set_op p (record blank { fileno = fd; opcode = c }) w)

-- AIOOperation_fsync and AIOOperation_fdsync, which differ in the opcode alone.
unfoldable pub fsync : Alloc → Option ℕ → World → Result Ref × World
fsync a args w = elim a.object [
  | none ↦ (raise memory_error, w)
  | some p ↦ sync_parsed uring_fsync p args (allocated p w)
]

unfoldable pub fdsync : Alloc → Option ℕ → World → Result Ref × World
fdsync a args w = elim a.object [
  | none ↦ (raise memory_error, w)
  | some p ↦ sync_parsed uring_fdsync p args (allocated p w)
]

-- AIOOperation_set_callback, which takes its one argument as it is.
unfoldable pub set_callback : Ref → (Ref → Bool) → Ref → World → Result Value × World
set_callback p callable f w =
    let o = w.ops p in
    if callable f
    then (
      ok py_true,
      set_refs (xdecref o.callback (incref f w.refs)) (set_op p (record o { callback = some f }) w),
    )
    else (raise (value_error "object is not callable"), w)

-- AIOOperation_get_value
abbrev pub in_flight : Operation → Bool
in_flight o = o.in_progress && not o.done

-- `PyBytes_FromStringAndSize` refuses a negative size.
abbrev bytes_of : List ℕ → ℤ → Result Value
bytes_of bs (pos n) = ok (bytes (take n bs))
bytes_of bs (negsuc n) = raise propagated

-- The whole object where the read filled it, and a copy of its start otherwise.
unfoldable pub read_value : ℤ → Ref → List ℕ → World → Result Value × World
read_value (pos n) b bs w =
    if n == length bs
    then (ok (object b), set_refs (incref b w.refs) w)
    else (bytes_of bs (pos n), w)
read_value (negsuc n) b bs w = (bytes_of bs (negsuc n), w)

unfoldable pub value_of : Operation → World → Result Value × World
unfolding read_value
value_of o w = elim o.opcode [
  | uring_read ↦ elim o.py_buffer [
    | none ↦ (ok py_none, w)
    | some b ↦ read_value o.buf_size b (w.blocks b) w
  ]
  | uring_write ↦ (ok (int o.result), w)
  | _ ↦ (ok py_none, w)
]

abbrev pub is_zero : ℤ → Bool
is_zero (pos zero) = true
is_zero _ = false

unfoldable pub get_value : Ref → World → Result Value × World
unfolding value_of
get_value p w =
    let o = w.ops p in
    if in_flight o
    then (raise (runtime_error "get_value() is not available while the operation is in flight"), w)
    else if is_zero o.error
    then value_of o w
    else (raise (system_error (pos_part o.error)), w)

-- AIOOperation_payload_getter
unfoldable pub payload : Ref → World → Result Value × World
payload p w =
    let o = w.ops p in
    if in_flight o
    then (raise (runtime_error "payload is not available while the operation is in flight"), w)
    else elim o.py_buffer [
      | none ↦ (ok py_none, w)
      | some b ↦ (ok (object b), set_refs (incref b w.refs) w)
    ]

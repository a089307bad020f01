-- ===== src/Thread/State.antt =====
-- The structures of caio/thread_aio.c and the memory that they live in.
use caio.Base.{ℤ, pos, Ref, update, Counts, ℕ, Bool, false, Option, none, List, ◌∷◌}

-- `enum THAIO_OP_CODE`
pub data Opcode : Type 0 where
  thaio_read thaio_write thaio_fsync thaio_fdsync thaio_noop : Opcode

-- `AIOContext`. `PyArg_ParseTupleAndKeywords` stores an `H` argument in two bytes, and `pool_size`
-- has one: `pool_size_pad` is the padding byte that follows it. The weak references and the object
-- header belong to the interpreter, here and in `Operation`.
pub record Context : Type 0 where
  pub pool : Option Ref
  pub max_requests : ℕ
  pub pool_size : ℕ
  pub pool_size_pad : ℕ

-- `AIOOperation`
pub record Operation : Type 0 where
  pub py_buffer : Option Ref
  pub callback : Option Ref
  pub opcode : Opcode
  pub fileno : ℕ
  pub offset : ℤ
  pub result : ℤ
  pub error : ℕ
  pub in_progress : Bool
  pub done : Bool
  pub buf_size : ℤ
  pub buf : Option Ref
  pub ctx : Option Ref

-- What `tp_alloc` gives: every field is zero, and THAIO_READ is 0.
abbrev pub blank_context : Context
blank_context = record { pool = none; max_requests = 0; pool_size = 0; pool_size_pad = 0 }

abbrev pub blank : Operation
blank = record {
  py_buffer = none;
  callback = none;
  opcode = thaio_read;
  fileno = 0;
  offset = pos 0;
  result = pos 0;
  error = 0;
  in_progress = false;
  done = false;
  buf_size = pos 0;
  buf = none;
  ctx = none;
}

-- The objects by their addresses, the counts of the references to them, and the blocks of bytes.
-- The rest records calls: `tasks` the operations that a pool has accepted and no worker has begun,
-- `destroyed` the pools torn down, `freed` the addresses given back, and `calls` the callbacks that
-- were invoked, with their argument, the latest first.
pub record World : Type 0 where
  pub ops : Ref → Operation
  pub ctxs : Ref → Context
  pub refs : Counts
  pub blocks : Ref → List ℕ
  pub tasks : List Ref
  pub destroyed : List Ref
  pub freed : List Ref
  pub calls : List (Ref × ℤ)

abbrev pub set_op : Ref → Operation → World → World
set_op p o w = record w { ops = update w.ops p o }

abbrev pub set_ctx : Ref → Context → World → World
set_ctx c x w = record w { ctxs = update w.ctxs c x }

abbrev pub free : Ref → World → World
free p w = record w { freed = p ∷ w.freed }

abbrev pub set_refs : Counts → World → World
set_refs c w = record w { refs = c }

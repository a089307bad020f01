-- ===== src/Aio/State.antt =====
-- The structures of caio/linux_aio.c and the memory that they live in.
use caio.Base.{ℤ, pos, Ref, update, Counts, ℕ, Bool, false, Option, none, List, ◌∷◌, ◌++◌}

-- `IOCB_CMD_*` of the kernel, as far as the source uses them. IOCB_CMD_PREAD is 0.
pub data Opcode : Type 0 where
  cmd_pread cmd_pwrite cmd_fsync cmd_fdsync : Opcode

-- `struct iocb`, as far as the source sets it.
pub record Iocb : Type 0 where
  pub data_ref : Ref
  pub opcode : Opcode
  pub reqprio : ℤ
  pub fildes : ℕ
  pub buf : Option Ref
  pub nbytes : ℕ
  pub offset : ℤ
  pub resfd_flag : Bool
  pub resfd : ℤ

-- `AIOOperation`
pub record Operation : Type 0 where
  pub context : Option Ref
  pub py_buffer : Option Ref
  pub callback : Option Ref
  pub buffer : Option Ref
  -- an `int`, by its pattern of 32 bits
  pub error : ℕ
  pub in_progress : Bool
  pub done : Bool
  pub iocb : Iocb

-- After `memset` of the block, and of an object that `tp_alloc` gives.
abbrev pub zero_iocb : Iocb
zero_iocb = record {
  data_ref = 0;
  opcode = cmd_pread;
  reqprio = pos 0;
  fildes = 0;
  buf = none;
  nbytes = 0;
  offset = pos 0;
  resfd_flag = false;
  resfd = pos 0;
}

abbrev pub blank : Operation
blank = record {
  context = none;
  py_buffer = none;
  callback = none;
  buffer = none;
  error = 0;
  in_progress = false;
  done = false;
  iocb = zero_iocb;
}

-- `AIOContext`. The handle of the kernel is 0 where there is none.
pub record Context : Type 0 where
  pub ctx : ℕ
  pub fileno : ℤ
  pub max_requests : ℕ

-- The objects, the counts of the references to them, and the blocks of bytes. The rest records calls:
-- `queued` the operations that the kernel has taken, `freed` the addresses given back, `destroyed` the
-- handles given to io_destroy, and `closed` the files closed, the latest first.
pub record World : Type 0 where
  pub ops : Ref → Operation
  pub ctxs : Ref → Context
  pub refs : Counts
  pub blocks : Ref → List ℕ
  pub queued : List Ref
  pub freed : List Ref
  pub destroyed : List ℕ
  pub closed : List ℤ

abbrev pub set_op : Ref → Operation → World → World
set_op p o w = record w { ops = update w.ops p o }

abbrev pub set_ctx : Ref → Context → World → World
set_ctx c x w = record w { ctxs = update w.ctxs c x }

abbrev pub set_refs : Counts → World → World
set_refs r w = record w { refs = r }

abbrev pub free : Ref → World → World
free p w = record w { freed = p ∷ w.freed }

abbrev pub queue : List Ref → World → World
queue xs w = record w { queued = w.queued ++ xs }

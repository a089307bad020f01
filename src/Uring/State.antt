-- ===== src/Uring/State.antt =====
-- The structures of caio/linux_uring.c and the memory that they live in.
use caio.Base.{
  ℤ, pos, u32, Ref, update, Counts, ℕ, ◌+◌, ◌-◌, ◌%◌, ◌^◌, Bool, false, Option, none, List,
}

-- `enum URING_OP`, in a field of 8 bits.
pub data Opcode : Type 0 where
  uring_read uring_write uring_fsync uring_fdsync : Opcode
  unrecognized : ℕ → Opcode

-- `AIOOperation`
pub record Operation : Type 0 where
  pub py_buffer : Option Ref
  pub callback : Option Ref
  pub context : Option Ref
  pub opcode : Opcode
  pub fileno : ℕ
  pub offset : ℕ
  pub result : ℤ
  pub error : ℤ
  pub buf_size : ℤ
  pub buf : Option Ref
  pub in_progress : Bool
  pub done : Bool

abbrev pub blank : Operation
blank = record {
  py_buffer = none;
  callback = none;
  context = none;
  opcode = uring_read;
  fileno = 0;
  offset = 0;
  result = pos 0;
  error = pos 0;
  buf_size = pos 0;
  buf = none;
  in_progress = false;
  done = false;
}

-- The kernel's opcodes that the source uses.
pub data SqeOpcode : Type 0 where
  op_nop op_read op_write op_fsync op_async_cancel : SqeOpcode

-- `struct io_uring_sqe`, as far as the source sets it.
pub record Sqe : Type 0 where
  pub opcode : SqeOpcode
  pub fd : ℤ
  pub off : ℕ
  pub addr : ℕ
  pub len : ℕ
  pub datasync : Bool
  pub user_data : ℕ

-- After `memset`.
abbrev pub zero_sqe : Sqe
zero_sqe = record {
  opcode = op_nop;
  fd = pos 0;
  off = 0;
  addr = 0;
  len = 0;
  datasync = false;
  user_data = 0;
}

-- `struct io_uring_cqe`
pub record Cqe : Type 0 where
  pub user_data : ℕ
  pub res : ℤ

-- `CANCEL_USER_DATA`, which is UINT64_MAX and no address of an object.
abbrev pub cancel_user_data : ℕ
cancel_user_data = 2 ^ 64 - 1

-- `AIOContext`, with what its pointers into the rings point to: indices of 32 bits that wrap around,
-- the array of submission entries and that of completions.
pub record Context : Type 0 where
  pub uring_fd : ℤ
  pub eventfd_fd : ℤ
  pub max_requests : ℕ
  pub sq_head : ℕ
  pub sq_tail : ℕ
  pub sq_ring_mask : ℕ
  pub sq_ring_entries : ℕ
  pub sq_need_wakeup : Bool
  pub sq_array : ℕ → ℕ
  pub sqes : ℕ → Sqe
  pub cq_head : ℕ
  pub cq_tail : ℕ
  pub cq_ring_mask : ℕ
  pub cqes : ℕ → Cqe
  pub no_sqarray : Bool
  pub sqpoll : Bool

-- `index & mask`. The kernel's masks are one less than a power of two, where this is the remainder.
abbrev pub slot : ℕ → ℕ → ℕ
slot index mask = index % (mask + 1)

-- The difference of two indices of 32 bits.
abbrev pub distance : ℕ → ℕ → ℕ
distance tail head = u32 (tail + 2 ^ 32 - head)

-- The objects by their addresses, the counts of the references to them, the contents of the bytes
-- objects, and a record of the callbacks that were called, the latest first.
pub record World : Type 0 where
  pub ops : Ref → Operation
  pub ctxs : Ref → Context
  pub refs : Counts
  pub blocks : Ref → List ℕ
  pub calls : List (Ref × ℤ)

abbrev pub set_op : Ref → Operation → World → World
set_op p o w = record w { ops = update w.ops p o }

abbrev pub set_ctx : Ref → Context → World → World
set_ctx c x w = record w { ctxs = update w.ctxs c x }

abbrev pub set_refs : Counts → World → World
set_refs r w = record w { refs = r }

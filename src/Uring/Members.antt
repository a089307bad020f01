-- ===== src/Uring/Members.antt =====
-- The attributes of Operation of caio/linux_uring.c, and what `repr` prints.
use caio.Base.{ℤ, pos, Shown, ℕ, String, some}
use caio.Uring.State.{
  Opcode, uring_read, uring_write, uring_fsync, uring_fdsync, unrecognized, Operation,
}

-- AIOOperation_members
unfoldable pub fileno_member : Operation → ℕ
fileno_member o = o.fileno

unfoldable pub offset_member : Operation → ℕ
offset_member o = o.offset

unfoldable pub nbytes_member : Operation → ℤ
nbytes_member o = o.buf_size

unfoldable pub error_member : Operation → ℤ
error_member o = o.error

-- The switch on the opcode.
unfoldable pub mode : Opcode → String
mode uring_read = "read"
mode uring_write = "write"
mode uring_fsync = "fsync"
mode uring_fdsync = "fdsync"
mode (unrecognized n) = "noop"

-- AIOOperation_repr: what it gives to PyUnicode_FromFormat.
unfoldable pub repr : Operation → Shown
unfolding mode
repr o = record {
  mode = mode o.opcode;
  fileno = pos o.fileno;
  offset = pos o.offset;
  result = some o.result;
  buffer = o.buf;
}

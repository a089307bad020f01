-- ===== src/Aio/Members.antt =====
-- The attributes of Operation and Context of caio/linux_aio.c, and what `repr` prints.
use caio.Base.{
  ◌==◌, if◌then◌else◌, u16, u64, signed32, bits64, int32, runtime_error, Result, ok, raise, Shown,
  ℕ, String, none,
}
use caio.Aio.State.{Opcode, cmd_pread, cmd_pwrite, cmd_fsync, cmd_fdsync, Operation, Context}

-- AIOOperation_members: signed fields of the control block are read without a sign.
unfoldable pub offset_member : Operation → ℕ
offset_member o = bits64 o.iocb.offset

unfoldable pub nbytes_member : Operation → ℕ
nbytes_member o = u64 o.iocb.nbytes

unfoldable pub priority_member : Operation → ℕ
priority_member o = u16 (bits64 o.iocb.reqprio)

-- AIOContext_members: the low two bytes of a number of four.
unfoldable pub max_requests_member : Context → ℕ
max_requests_member x = u16 x.max_requests

-- The switch on the opcode.
unfoldable pub mode : Opcode → String
mode cmd_pread = "read"
mode cmd_pwrite = "write"
mode cmd_fsync = "fsync"
mode cmd_fdsync = "fdsync"

-- AIOOperation_repr: what it gives to PyUnicode_FromFormat, which reads a `%i` as an `int`.
unfoldable pub repr : Operation → Shown
unfolding mode
repr o = record {
  mode = mode o.iocb.opcode;
  fileno = signed32 o.iocb.fildes;
  offset = int32 o.iocb.offset;
  result = none;
  buffer = o.iocb.buf;
}

-- AIOContext_repr, with the numbers that it prints: a Context without a handle has none.
unfoldable pub repr_context : Context → Result (ℕ × ℕ)
repr_context x = if x.ctx == 0 then raise (runtime_error "") else ok (x.max_requests, x.ctx)

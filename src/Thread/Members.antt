-- ===== src/Thread/Members.antt =====
-- The attributes of Operation and Context of caio/thread_aio.c, and what `repr` prints.
use caio.Base.{
  if◌then◌else◌, ℤ, pos, is_neg, u8, signed32, bits64, int32, Ref, runtime_error, Result, ok, raise,
  Shown, ℕ, ◌+◌, ◌*◌, ◌^◌, String, ◌≡◌, Bool, none, some, arith,
}
use caio.Thread.State.{
  Opcode, thaio_read, thaio_write, thaio_fsync, thaio_fdsync, thaio_noop, Context, Operation, World,
}
use caio.Thread.Worker.{Kernel, system_call, worker}
use caio.Thread.Worker.Results.{IsClaimed}

-- AIOOperation_members: an `off_t` and a `Py_ssize_t` are read as 64 bits without a sign.
unfoldable pub offset_member : Operation → ℕ
offset_member o = bits64 o.offset

unfoldable pub nbytes_member : Operation → ℕ
nbytes_member o = bits64 o.buf_size

abbrev byte : Bool → ℕ
byte b = if b then 1 else 0

-- `error` has one byte and is read as an `int`, with the three bytes after it: `in_progress`, `done`
-- and one of padding.
unfoldable pub error_member : ℕ → Operation → ℤ
error_member pad o =
    signed32 (u8 o.error + 2 ^ 8 * byte o.in_progress + 2 ^ 16 * byte o.done + 2 ^ 24 * u8 pad)

-- The switch on the opcode.
unfoldable pub mode : Opcode → String
mode thaio_read = "read"
mode thaio_write = "write"
mode thaio_fsync = "fsync"
mode thaio_fdsync = "fdsync"
mode thaio_noop = "noop"

-- AIOOperation_repr: what it gives to PyUnicode_FromFormat, which reads a `%i` as an `int`.
unfoldable pub repr : Operation → Shown
unfolding mode
repr o = record {
  mode = mode o.opcode;
  fileno = signed32 o.fileno;
  offset = int32 o.offset;
  result = some o.result;
  buffer = o.buf;
}

-- AIOContext_repr, with the numbers that it prints.
unfoldable pub repr_context : Context → Result (ℕ × ℕ × Ref)
repr_context x = elim x.pool [
  | none ↦ raise (runtime_error "Pool not initialized")
  | some pool ↦ ok (x.max_requests, x.pool_size, pool)
]

-- After `worker` the attribute `error` is the error number, in 8 bits, and 257 times 256: with padding
-- of zero the two flags show in it, and it is 65792 where the call did not fail.
pub error_member-worker :
    (k : Kernel) (p : Ref) (w : World)
    → IsClaimed (w.ops p)
    → let out = system_call k w.blocks (w.ops p) in
      error_member 0 ((worker k p w).ops p)
      ≡ pos ((if is_neg (int32 out.result) then u8 out.errno else 0) + 257 * 2 ^ 8)
unfolding error_member worker
error_member-worker k p w o = ground arith

-- ===== src/Uring/Submit.antt =====
-- AIOContext_submit: stages an entry of the submission ring for each operation.
pub mod Accept
pub mod Queue
pub mod Append
pub mod Refines
pub mod Holds
use caio.Base.{
  leb, if◌then◌else◌, pos, is_neg, u32, signed32, bits64, Ref, update, incref, xdecref,
  runtime_error, value_error, type_error, overflow_error, Result, ok, raise, Value, int, Arg,
  operation, other, ℕ, suc, ◌+◌, true, Option, none, some, List, [], ◌∷◌,
}
use caio.Uring.State.{
  uring_read, uring_write, uring_fsync, uring_fdsync, unrecognized, Operation, op_read, op_write,
  op_fsync, Sqe, zero_sqe, Context, slot, distance, World, set_op, set_ctx, set_refs,
}

-- The first loop: the operations among the arguments, or the failure at the first other object.
unfoldable pub check_types : List Arg → Result (List Ref)
check_types [] = ok []
check_types (other ∷ args) = raise (type_error "argument is not an Operation")
check_types (operation p ∷ args) = elim (check_types args) [
  | ok ps ↦ ok (p ∷ ps)
  | raise e ↦ raise e
]

abbrev address : Option Ref → ℕ
address none = 0
address (some b) = b

-- The fields that the entry of any operation has.
abbrev pub common_sqe : Ref → Operation → Sqe
common_sqe p o = record zero_sqe { fd = signed32 o.fileno; off = o.offset; user_data = p }

-- The switch on the opcode: the entry for the kernel, or `none` for an opcode that it does not know.
unfoldable pub fill_sqe : Ref → Operation → Option Sqe
fill_sqe p o =
    let sqe = common_sqe p o in
    let len = u32 (bits64 o.buf_size) in
    elim o.opcode [
      | uring_read ↦ some (record sqe { opcode = op_read; addr = address o.buf; len = len })
      | uring_write ↦ some (record sqe { opcode = op_write; addr = address o.buf; len = len })
      | uring_fsync ↦ some (record sqe { opcode = op_fsync })
      | uring_fdsync ↦ some (record sqe { opcode = op_fsync; datasync = true })
      | unrecognized n ↦ none
    ]

-- `sqes[tail & mask] = sqe`
unfoldable pub write_sqe : Context → ℕ → Sqe → Context
write_sqe x tail sqe = record x { sqes = update x.sqes (slot tail x.sq_ring_mask) sqe }

-- The same, with the index of the entry in the array where the ring has one.
unfoldable pub put_sqe : Context → ℕ → Sqe → Context
put_sqe x tail sqe =
    let index = slot tail x.sq_ring_mask in
    record x {
      sqes = update x.sqes index sqe;
      sq_array = if x.no_sqarray then x.sq_array else update x.sq_array index index;
    }

-- The operation is claimed, and holds the context while it is in flight.
unfoldable pub hold : Ref → Ref → World → World
hold c p w =
    let o = w.ops p in
    set_refs (incref c (xdecref o.context (incref p w.refs)))
      (set_op p (record o { in_progress = true; context = some c }) w)

abbrev pub set_tail : Ref → ℕ → World → World
set_tail c tail w = set_ctx c (record (w.ctxs c) { sq_tail = tail }) w

-- The second loop. `head` is the kernel's index at the start of the call, `tail` the local one.
unfoldable pub stage : Ref → ℕ → List Ref → ℕ → ℕ → World → Result Value × World
unfolding hold
stage c head [] tail submitted w = (ok (int (pos submitted)), set_tail c tail w)
stage c head (p ∷ ps) tail submitted w =
    let x = w.ctxs c in
    let skip = stage c head ps tail submitted w in
    let cleared =
      stage c head ps tail submitted (set_ctx c (write_sqe x tail (common_sqe p (w.ops p))) w) in
    let next = λ (sqe : Sqe).
      stage c head ps (u32 (tail + 1)) (suc submitted)
        (hold c p (set_ctx c (put_sqe x tail sqe) w)) in
    if (w.ops p).in_progress
    then skip
    else if leb x.sq_ring_entries (distance tail head)
    then (raise (overflow_error "io_uring SQ ring full"), set_tail c tail w)
    else elim (fill_sqe p (w.ops p)) [ none ↦ cleared | some sqe ↦ next sqe ]

unfoldable pub submit_checked : Result (List Ref) → Ref → World → Result Value × World
unfolding stage
submit_checked (raise e) c w = (raise e, w)
submit_checked (ok ps) c w = let x = w.ctxs c in stage c x.sq_head ps x.sq_tail 0 w

unfoldable pub submit_args : Option (List Arg) → Ref → World → Result Value × World
unfolding submit_checked check_types
submit_args none c w = (raise (value_error ""), w)
submit_args (some []) c w = (ok (int (pos 0)), w)
submit_args (some (arg ∷ args)) c w = submit_checked (check_types (arg ∷ args)) c w

-- AIOContext_submit. The arguments are `none` for what is no tuple.
unfoldable pub submit : Ref → Option (List Arg) → World → Result Value × World
unfolding submit_args
submit c args w =
    if is_neg (w.ctxs c).uring_fd
    then (raise (runtime_error "context not initialized"), w)
    else submit_args args c w

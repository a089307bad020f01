-- ===== src/Thread/Worker/Results.antt =====
-- From `worker` to get_value.
use caio.Base.{
  if◌then◌else◌, length, drop, take-length-append, pos, negsuc, is_neg, u8, int32, Ref,
  system_error, ok, raise, bytes, ℕ, ◌+◌, ◌-◌, ◌^◌, ◌≤◌, ◌<◌, ◌≡◌, refl, true, false, none, some,
  List, ◌∷◌, arith,
}
use caio.Thread.State.{thaio_read, Operation, World}
use caio.Thread.Worker.{Kernel, io_count, system_call, is_noop, worker}
use caio.Thread.Operation.{get_value}

-- Below 2^31 the system call gets the size of the buffer.
pub io_count-small : (n : ℕ) → n < 2 ^ 31 → io_count (pos n) ≡ n
unfolding io_count
io_count-small n h = ground arith

-- The size passes through an `int`: from 2^32 up to 2^32 + 2^31 the call asks for 2^32 bytes fewer
-- than the buffer holds, so that a read of 2^32 bytes asks for none.
pub system_call-wraps :
    (k : Kernel) (blocks : Ref → List ℕ) (o : Operation) (n : ℕ)
    → o.opcode ≡ thaio_read
    → o.buf_size ≡ pos n
    → 2 ^ 32 ≤ n
    → n < 2 ^ 32 + 2 ^ 31
    → system_call k blocks o ≡ k.pread o.fileno (n - 2 ^ 32) o.offset
unfolding system_call io_count
system_call-wraps k blocks o n is_read size lo hi = ground arith

-- An operation that was claimed, as `worker` finds it.
pub record IsClaimed (o : Operation) : Type 0 where
  pub claimed : o.in_progress ≡ true
  pub real : is_noop o.opcode ≡ false

-- After `worker` the operation is done and holds no context: its result is that of its system call,
-- as an `int`, its error the number of a call that failed, in 8 bits, and 0 for one that did not. The
-- callback was called once, with the result.
pub worker_publishes :
    (k : Kernel) (p : Ref) (w : World)
    → IsClaimed (w.ops p)
    → let out = system_call k w.blocks (w.ops p) in
      let w' = worker k p w in
      ((w'.ops p).done ≡ true)
      × ((w'.ops p).ctx ≡ none)
      × ((w'.ops p).result ≡ int32 out.result)
      × ((w'.ops p).error ≡ (if is_neg (int32 out.result) then u8 out.errno else 0))
      × (w'.calls
          ≡ (elim (w.ops p).callback [ none ↦ w.calls | some f ↦ (f, int32 out.result) ∷ w.calls ]))
unfolding worker
worker_publishes k p w o = (ground arith, ground arith, ground arith, ground arith, ground arith)

int32-small : (n : ℕ) → n < 2 ^ 31 → int32 (pos n) ≡ pos n
int32-small n h = ground arith

-- A read of a buffer below 2^31 bytes, for which the kernel stores as many bytes as it says and no
-- more than asked: get_value gives those bytes.
pub get_value-read :
    (k : Kernel) (p b n : ℕ) (w : World)
    → IsClaimed (w.ops p)
    → (w.ops p).opcode ≡ thaio_read
    → (w.ops p).buf ≡ some b
    → (w.ops p).buf_size ≡ pos n
    → n < 2 ^ 31
    → let out = k.pread (w.ops p).fileno n (w.ops p).offset in
      out.result ≡ pos (length out.stored)
      → length out.stored ≤ n
      → get_value p (worker k p w) ≡ ok (bytes out.stored)
unfolding worker get_value
get_value-read k p b n w o is_read block size small told fits =
    let bs = (k.pread (w.ops p).fileno n (w.ops p).offset).stored in
    ground (
      arith,
      io_count-small n small,
      int32-small (length bs) (omega arith),
      take-length-append bs (drop (length bs) (w.blocks b)),
    )

-- A system call that returns -1 with an error number: get_value raises that number.
pub get_value-error :
    (k : Kernel) (p n : ℕ) (w : World)
    → IsClaimed (w.ops p)
    → let out = system_call k w.blocks (w.ops p) in
      out.result ≡ negsuc 0
      → out.errno ≡ n
      → 0 < n
      → n < 256
      → get_value p (worker k p w) ≡ raise (system_error n)
unfolding worker get_value
get_value-error k p n w o failed number lo hi =
    let negative : int32 (negsuc 0) ≡ negsuc 0 = refl in ground (arith, negative)

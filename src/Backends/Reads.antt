-- ===== src/Backends/Reads.antt =====
-- A read and a failure in the three backends, side by side: worker, uring_drain_cq or process_events,
-- and then get_value.
use caio.Thread.State as ThreadState
use caio.Thread.Operation as ThreadOperation
use caio.Thread.Worker as ThreadWorker
use caio.Uring.State as UringState
use caio.Uring.Operation as UringOperation
use caio.Uring.Drain as UringDrain
use caio.Aio.State as AioState
use caio.Aio.Operation as AioOperation
use caio.Aio.Events as AioEvents
use caio.Base.{
  ◌==◌, if◌then◌else◌, Bool-cases, length, take, take-length_self, take-length-append, ℤ, pos,
  negsuc, Ref, system_error, Result, ok, raise, Value, bytes, object, ℕ, suc, ◌^◌, ◌≤◌, ◌<◌, ◌≡◌,
  sym, ap, ◌∙◌, inl, inr, Option, none, some, List, ◌++◌, arith,
}
use caio.Thread.Worker.Results.{IsClaimed, get_value-read, get_value-error}
use caio.Aio.Events.Values.{settle-value_read, settle-value_error}
use caio.Uring.Drain.Delivery.{settle-get_value, settle-get_error}

-- The bytes that a value stands for, where it is a bytes object.
abbrev pub content : (Ref → List ℕ) → Result Value → Option (List ℕ)
content blocks (ok (bytes bs)) = some bs
content blocks (ok (object b)) = some (blocks b)
content blocks _ = none

-- A read of thread_aio of a buffer of `n` bytes in the hands of a worker, for which the system call
-- stores `bs`.
pub record ThreadReads (k : ThreadWorker.Kernel) (p : Ref) (w : ThreadState.World) (bs : List ℕ)
    : Type 0 where
  pub claimed : IsClaimed (w.ops p)
  pub code : (w.ops p).opcode ≡ ThreadState.thaio_read
  pub size : ℕ
  pub sized : (w.ops p).buf_size ≡ pos size
  pub small : size < 2 ^ 31
  pub block : Ref
  pub placed : (w.ops p).buf ≡ some block
  pub told : (k.pread (w.ops p).fileno size (w.ops p).offset).result ≡ pos (length bs)
  pub stored : (k.pread (w.ops p).fileno size (w.ops p).offset).stored ≡ bs
  pub fits : length bs ≤ size

-- A read of linux_uring into a bytes object that the kernel filled from the start with `bs`.
pub record UringReads (p : Ref) (w : UringState.World) (bs : List ℕ) : Type 0 where
  pub code : (w.ops p).opcode ≡ UringState.uring_read
  pub clean : (w.ops p).error ≡ pos 0
  pub block : Ref
  pub placed : (w.ops p).py_buffer ≡ some block
  pub rest : List ℕ
  pub stored : w.blocks block ≡ bs ++ rest

-- A read of linux_aio into a block that the kernel filled from the start with `bs`.
pub record AioReads (p : Ref) (w : AioState.World) (bs : List ℕ) : Type 0 where
  pub code : (w.ops p).iocb.opcode ≡ AioState.cmd_pread
  pub clean : (w.ops p).error ≡ 0
  pub block : Ref
  pub placed : (w.ops p).buffer ≡ some block
  pub rest : List ℕ
  pub stored : w.blocks block ≡ bs ++ rest
  pub small : length bs < 2 ^ 63

-- What get_value of each backend gives once the operation is done, as bytes.
abbrev pub thread_value : ThreadWorker.Kernel → Ref → ThreadState.World → Option (List ℕ)
thread_value k p w = content w.blocks (ThreadOperation.get_value p (ThreadWorker.worker k p w))

abbrev pub uring_value : Ref → ℤ → UringState.World → Option (List ℕ)
uring_value p res w = content w.blocks (UringOperation.get_value p (UringDrain.settle p res w)).0

abbrev pub aio_value : Ref → ℤ → AioState.World → Option (List ℕ)
aio_value p res w = content w.blocks (AioOperation.get_value p (AioEvents.settle p res w))

thread_shows :
    (k : ThreadWorker.Kernel) (p : Ref) (w : ThreadState.World) (bs : List ℕ)
    → ThreadReads k p w bs
    → thread_value k p w ≡ some bs
thread_shows k p w bs r =
    let out = k.pread (w.ops p).fileno r.size (w.ops p).offset in
    let told : out.result ≡ pos (length out.stored) =
      r.told ∙ ap (λ l. pos (length l)) (sym r.stored) in
    let fits : length out.stored ≤ r.size = rw r.stored r.fits in
    ap (content w.blocks)
      (get_value-read k p r.block r.size w r.claimed r.code r.placed r.sized r.small told fits)
    ∙ ap some r.stored

-- A whole object and a copy of its start have the same bytes.
whole_or_copy :
    (blocks : Ref → List ℕ) (b : Ref) (bs rest : List ℕ)
    → blocks b ≡ bs ++ rest
    → content blocks (
        if length bs == length (blocks b)
        then ok (object b)
        else ok (bytes (take (length bs) (blocks b))))
      ≡ some bs
whole_or_copy blocks b bs rest stored =
    let start : take (length bs) (blocks b) ≡ bs =
      ap (take (length bs)) stored ∙ take-length-append bs rest in
    elim (Bool-cases (length bs == length (blocks b))) [
      | inl full ↦
          let same : length (blocks b) ≡ length bs = ground (arith, full) in
          rw full
            (ap some (sym (take-length_self (blocks b)) ∙ ap (λ n. take n (blocks b)) same ∙ start))
      | inr partial ↦ rw partial (ap some start)
    ]

uring_shows :
    (p : Ref) (w : UringState.World) (bs : List ℕ)
    → UringReads p w bs
    → uring_value p (pos (length bs)) w ≡ some bs
uring_shows p w bs r =
    ap (content w.blocks) (settle-get_value p r.block (length bs) w r.code r.placed r.clean)
    ∙ whole_or_copy w.blocks r.block bs r.rest r.stored

aio_shows :
    (p : Ref) (w : AioState.World) (bs : List ℕ)
    → AioReads p w bs
    → aio_value p (pos (length bs)) w ≡ some bs
aio_shows p w bs r =
    ap (content w.blocks)
      (settle-value_read p r.block (length bs) w r.code r.placed r.clean r.small)
    ∙ ap (λ l. some (take (length bs) l)) r.stored
    ∙ ap some (take-length-append bs r.rest)

-- For the same bytes from the kernel the three backends show the same value: whole or short reads,
-- copied or not.
pub reads_agree :
    (k : ThreadWorker.Kernel) (p q r : Ref) (t : ThreadState.World) (u : UringState.World)
    (a : AioState.World) (bs : List ℕ)
    → ThreadReads k p t bs
    → UringReads q u bs
    → AioReads r a bs
    → (thread_value k p t ≡ uring_value q (pos (length bs)) u)
      × (uring_value q (pos (length bs)) u ≡ aio_value r (pos (length bs)) a)
reads_agree k p q r t u a bs x y z =
    let shown = uring_shows q u bs y in
    (thread_shows k p t bs x ∙ sym shown, shown ∙ sym (aio_shows r a bs z))

-- A read, write or sync of each backend that failed with the error number `e` raises that number.
pub errors_agree :
    (k : ThreadWorker.Kernel) (p q r e : ℕ) (t : ThreadState.World) (u : UringState.World)
    (a : AioState.World)
    → IsClaimed (t.ops p)
    → (ThreadWorker.system_call k t.blocks (t.ops p)).result ≡ negsuc 0
    → (ThreadWorker.system_call k t.blocks (t.ops p)).errno ≡ suc e
    → suc e < 256
    → (ThreadOperation.get_value p (ThreadWorker.worker k p t) ≡ raise (system_error (suc e)))
      × ((UringOperation.get_value q (UringDrain.settle q (negsuc e) u)).0
          ≡ raise (system_error (suc e)))
      × (AioOperation.get_value r (AioEvents.settle r (negsuc e) a) ≡ raise (system_error (suc e)))
errors_agree k p q r e t u a claimed failed number small = (
  get_value-error k p (suc e) t claimed failed number (omega arith) small,
  ap (λ v. v.0) (settle-get_error q e u),
  settle-value_error r e a (omega arith),
)

-- ===== src/Backends/Desks.antt =====
-- Small worlds for the tests of the three backends.
use caio.Thread.State as ThreadState
use caio.Thread.Worker as ThreadWorker
use caio.Uring.State as UringState
use caio.Aio.State as AioState
use caio.Base.{pos, negsuc, true, false, some, [], ◌∷◌}

-- Every operation is a claimed read of 4 bytes into block 50, and the kernel has two bytes for it.
abbrev pub two_bytes : ThreadWorker.Outcome
two_bytes = record { result = pos 2; errno = 0; stored = 8 ∷ 9 ∷ [] }

abbrev pub broken : ThreadWorker.Outcome
broken = record { result = negsuc 0; errno = 5; stored = [] }

abbrev pub thread_desk : ThreadState.World
thread_desk = record {
  ops = λ i. record ThreadState.blank { buf = some 50; buf_size = pos 4; in_progress = true };
  ctxs = λ i. ThreadState.blank_context;
  refs = λ i. 1;
  blocks = λ i. 0 ∷ 0 ∷ 0 ∷ 0 ∷ [];
  tasks = [];
  destroyed = [];
  freed = [];
  calls = [];
}

abbrev pub no_ring : UringState.Context
no_ring = record {
  uring_fd = negsuc 0;
  eventfd_fd = negsuc 0;
  max_requests = 0;
  sq_head = 0;
  sq_tail = 0;
  sq_ring_mask = 0;
  sq_ring_entries = 0;
  sq_need_wakeup = false;
  sq_array = λ i. 0;
  sqes = λ i. UringState.zero_sqe;
  cq_head = 0;
  cq_tail = 0;
  cq_ring_mask = 0;
  cqes = λ i. record { user_data = 0; res = pos 0 };
  no_sqarray = false;
  sqpoll = false;
}

abbrev pub uring_desk : UringState.World
uring_desk = record {
  ops = λ i. record UringState.blank { py_buffer = some 50; in_progress = true };
  ctxs = λ i. no_ring;
  refs = λ i. 1;
  blocks = λ i. 8 ∷ 9 ∷ 0 ∷ 0 ∷ [];
  calls = [];
}

abbrev pub aio_desk : AioState.World
aio_desk = record {
  ops = λ i. record AioState.blank { buffer = some 50; in_progress = true };
  ctxs = λ i. record { ctx = 0; fileno = pos 0; max_requests = 0 };
  refs = λ i. 1;
  blocks = λ i. 8 ∷ 9 ∷ 0 ∷ 0 ∷ [];
  queued = [];
  freed = [];
  destroyed = [];
  closed = [];
}

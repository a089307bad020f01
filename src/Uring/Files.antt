-- ===== src/Uring/Files.antt =====
-- The files and mappings that a Context owns: AIOContext_new and AIOContext_dealloc.
use caio.Base.{
  ◌==◌, if◌then◌else◌, ℤ, pos, negsuc, is_neg, ℕ, ◌+◌, ◌-◌, ◌*◌, ◌%◌, ◌^◌, Bool, false, not, ◌&&◌,
  List, [], ◌∷◌, ◌++◌,
}
use caio.Uring.State.{Sqe, Cqe, Context}

-- An address. `mmap` gives MAP_FAILED where it fails.
abbrev pub map_failed : ℕ
map_failed = 2 ^ 64 - 1

-- `AIOContext`, with its pointers as addresses.
pub record RawContext : Type 0 where
  pub uring_fd : ℤ
  pub eventfd_fd : ℤ
  pub max_requests : ℕ
  pub sq_ring_ptr : ℕ
  pub sq_ring_size : ℕ
  pub sq_head : ℕ
  pub sq_tail : ℕ
  pub sq_ring_mask : ℕ
  pub sq_ring_entries : ℕ
  pub sq_flags : ℕ
  pub sq_array : ℕ
  pub sqes : ℕ
  pub sqes_size : ℕ
  pub cq_ring_ptr : ℕ
  pub cq_ring_size : ℕ
  pub cq_head : ℕ
  pub cq_tail : ℕ
  pub cq_ring_mask : ℕ
  pub cq_ring_entries : ℕ
  pub cqes : ℕ
  pub no_sqarray : Bool
  pub sqpoll : Bool

-- What `tp_alloc` gives.
abbrev zero_context : RawContext
zero_context = record {
  uring_fd = pos 0;
  eventfd_fd = pos 0;
  max_requests = 0;
  sq_ring_ptr = 0;
  sq_ring_size = 0;
  sq_head = 0;
  sq_tail = 0;
  sq_ring_mask = 0;
  sq_ring_entries = 0;
  sq_flags = 0;
  sq_array = 0;
  sqes = 0;
  sqes_size = 0;
  cq_ring_ptr = 0;
  cq_ring_size = 0;
  cq_head = 0;
  cq_tail = 0;
  cq_ring_mask = 0;
  cq_ring_entries = 0;
  cqes = 0;
  no_sqarray = false;
  sqpoll = false;
}

-- AIOContext_new
abbrev pub new : RawContext
new = record zero_context {
  uring_fd = negsuc 0;
  eventfd_fd = negsuc 0;
  sq_ring_ptr = map_failed;
  cq_ring_ptr = map_failed;
  sqes = map_failed;
  no_sqarray = false;
  sqpoll = false;
}

-- The calls that acquire and release: the files opened and closed, the mappings made and undone, with
-- their sizes, each the oldest first.
pub record Log : Type 0 where
  pub opened : List ℤ
  pub closed : List ℤ
  pub mapped : List (ℕ × ℕ)
  pub unmapped : List (ℕ × ℕ)

abbrev pub empty_log : Log
empty_log = record { opened = []; closed = []; mapped = []; unmapped = [] }

abbrev pub log_open : ℕ → Log → Log
log_open fd l = record l { opened = l.opened ++ pos fd ∷ [] }

abbrev pub log_map : ℕ → ℕ → Log → Log
log_map a n l = record l { mapped = l.mapped ++ (a, n) ∷ [] }

-- `munmap` and `close`, with their guards.
abbrev pub is_mapped : ℕ → Bool
is_mapped a = not (a == map_failed) && not (a == 0)

abbrev munmap : Bool → ℕ → ℕ → Log → Log
munmap due a n l = if due then record l { unmapped = l.unmapped ++ (a, n) ∷ [] } else l

abbrev close : ℤ → Log → Log
close fd l = if is_neg fd then l else record l { closed = l.closed ++ fd ∷ [] }

-- AIOContext_dealloc
unfoldable pub dealloc : RawContext → Log → Log
dealloc x l = close x.eventfd_fd (
    close x.uring_fd (
      munmap (is_mapped x.cq_ring_ptr && not (x.cq_ring_ptr == x.sq_ring_ptr)) x.cq_ring_ptr
        x.cq_ring_size
        (munmap (is_mapped x.sqes) x.sqes x.sqes_size
          (munmap (is_mapped x.sq_ring_ptr) x.sq_ring_ptr x.sq_ring_size l))))

-- The memory that the pointers lead to: the words of 32 bits and the entries at each address.
pub record Memory : Type 0 where
  pub word : ℕ → ℕ
  pub sqe : ℕ → Sqe
  pub cqe : ℕ → Cqe

-- The Context that the other methods work on: what the pointers lead to, IORING_SQ_NEED_WAKEUP being
-- the lowest bit.
abbrev pub view : RawContext → Memory → Context
view x m = record {
  uring_fd = x.uring_fd;
  eventfd_fd = x.eventfd_fd;
  max_requests = x.max_requests;
  sq_head = m.word x.sq_head;
  sq_tail = m.word x.sq_tail;
  sq_ring_mask = m.word x.sq_ring_mask;
  sq_ring_entries = m.word x.sq_ring_entries;
  sq_need_wakeup = m.word x.sq_flags % 2 == 1;
  sq_array = λ i. m.word (x.sq_array + i * 4);
  sqes = λ i. m.sqe (x.sqes + i * 64);
  cq_head = m.word x.cq_head;
  cq_tail = m.word x.cq_tail;
  cq_ring_mask = m.word x.cq_ring_mask;
  cqes = λ i. m.cqe (x.cqes + i * 16);
  no_sqarray = x.no_sqarray;
  sqpoll = x.sqpoll;
}

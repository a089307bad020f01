-- ===== src/Uring/Setup.antt =====
-- AIOContext_init: the ring of the kernel and its mappings.
pub mod Release
pub mod Success
pub mod Ready
pub mod Tests
use caio.Base.{
  ltb, ◌==◌, if◌then◌else◌, pos, negsuc, u32, system_error, propagated, Result, ok, raise, register,
  ℕ, ◌+◌, ◌*◌, Bool, true, false, ◌||◌, Option, none, some, List, [], ◌∷◌,
}
use caio.Uring.Files.{map_failed, RawContext, Log, log_open, log_map}

-- `CTX_MAX_REQUESTS_DEFAULT`
abbrev pub ctx_max_requests_default : ℕ
ctx_max_requests_default = 32

-- The flags of `io_uring_setup` that the source uses.
pub record SetupFlags : Type 0 where
  pub sqpoll : Bool
  pub no_sqarray : Bool

-- `struct io_sqring_offsets`, as far as the source reads it.
pub record SqOffsets : Type 0 where
  pub head : ℕ
  pub tail : ℕ
  pub ring_mask : ℕ
  pub ring_entries : ℕ
  pub flags : ℕ
  pub array : ℕ

-- `struct io_cqring_offsets`, as far as the source reads it.
pub record CqOffsets : Type 0 where
  pub head : ℕ
  pub tail : ℕ
  pub ring_mask : ℕ
  pub ring_entries : ℕ
  pub cqes : ℕ

-- `struct io_uring_params` as the kernel fills it. `single_mmap` is the bit of `features`.
pub record Params : Type 0 where
  pub flags : SetupFlags
  pub single_mmap : Bool
  pub sq_entries : ℕ
  pub cq_entries : ℕ
  pub sq_off : SqOffsets
  pub cq_off : CqOffsets

-- What the system calls answer: a value, or -1 with the error number.
pub data Answer {ℓ} (A : Type ℓ) : Type ℓ where
  done : A → Answer A
  failed : ℕ → Answer A

-- The three regions of a ring that `mmap` maps.
pub data Region : Type 0 where
  off_sq_ring off_cq_ring off_sqes : Region

-- The kernel: `eventfd`; `io_uring_setup` of so many entries with flags and an idle time; `mmap` of a
-- region of a file at a size; and the registration of an eventfd, `none` where it succeeds.
pub record Kernel : Type 0 where
  pub eventfd : Answer ℕ
  pub setup : ℕ → SetupFlags → ℕ → Answer (ℕ × Params)
  pub mmap : Region → ℕ → ℕ → Answer ℕ
  pub register : (uring_fd eventfd_fd : ℕ) → Option ℕ

-- Where a step of init stands: what it ended in, the object and the log.
abbrev pub Outcome : Type 0
Outcome = Result (Unit {0}) × RawContext × Log

-- EINVAL and EPERM: the kernel does not know a flag, or does not allow it.
abbrev pub try_next : ℕ → Bool
try_next e = e == 22 || e == 1

abbrev pub flag_table : Bool → List SetupFlags
flag_table false =
    record { sqpoll = false; no_sqarray = true }
    ∷ record { sqpoll = false; no_sqarray = false }
    ∷ []
flag_table true =
    record { sqpoll = true; no_sqarray = true }
    ∷ record { sqpoll = true; no_sqarray = false }
    ∷ record { sqpoll = false; no_sqarray = false }
    ∷ []

-- `sq_thread_idle`
abbrev pub idle : SetupFlags → ℕ
idle f = if f.sqpoll then 100 else 0

-- The loop over the table, with the error number of the last call.
unfoldable pub probe : Kernel → ℕ → ℕ → List SetupFlags → Answer (ℕ × Params)
probe k entries e [] = failed e
probe k entries e (f ∷ fs) = elim (k.setup entries f (idle f)) [
  | done answer ↦ done answer
  | failed e' ↦ let rest = probe k entries e' fs in if try_next e' then rest else failed e'
]

-- The sizes of the rings.
abbrev pub sq_size : Bool → Params → ℕ
sq_size no_sqarray p = if no_sqarray then p.sq_off.flags + 4 else p.sq_off.array + p.sq_entries * 4

abbrev pub cq_size : Params → ℕ
cq_size p = p.cq_off.cqes + p.cq_entries * 16

-- The size of the mapping of the submission ring, which may hold both.
abbrev pub ring_size : Bool → Params → ℕ
ring_size no_sqarray p =
    let sq = sq_size no_sqarray p in
    if p.single_mmap then (if ltb (cq_size p) sq then sq else cq_size p) else sq

-- The pointers into the two rings.
abbrev pub sq_pointers : Params → RawContext → RawContext
sq_pointers p x = record x {
  sq_head = x.sq_ring_ptr + p.sq_off.head;
  sq_tail = x.sq_ring_ptr + p.sq_off.tail;
  sq_ring_mask = x.sq_ring_ptr + p.sq_off.ring_mask;
  sq_ring_entries = x.sq_ring_ptr + p.sq_off.ring_entries;
  sq_flags = x.sq_ring_ptr + p.sq_off.flags;
  sq_array = x.sq_ring_ptr + p.sq_off.array;
}

abbrev pub cq_pointers : Params → RawContext → RawContext
cq_pointers p x = record x {
  cq_head = x.cq_ring_ptr + p.cq_off.head;
  cq_tail = x.cq_ring_ptr + p.cq_off.tail;
  cq_ring_mask = x.cq_ring_ptr + p.cq_off.ring_mask;
  cq_ring_entries = x.cq_ring_ptr + p.cq_off.ring_entries;
  cqes = x.cq_ring_ptr + p.cq_off.cqes;
}

-- The end of init, after the registration of the eventfd.
abbrev pub registered : Option ℕ → RawContext → Log → Outcome
registered none x l = (ok tt, x, l)
registered (some e) x l = (raise (system_error e), x, l)

-- From the mapped rings on.
unfoldable pub map_sqes : Kernel → ℕ → ℕ → Params → RawContext → Log → Outcome
map_sqes k fd efd p x l =
    let n = p.sq_entries * 64 in
    let y = record (sq_pointers p x) { sqes_size = n } in
    elim (k.mmap off_sqes fd n) [
      | failed e ↦ (raise (system_error e), record y { sqes = map_failed }, l)
      | done a ↦
          registered (k.register fd efd) (cq_pointers p (record y { sqes = a })) (log_map a n l)
    ]

-- The mapping of the completion ring, where it has one of its own.
unfoldable pub map_cq : Kernel → ℕ → ℕ → Params → RawContext → Log → Outcome
unfolding map_sqes
map_cq k fd efd p x l =
    let n = cq_size p in
    elim (k.mmap off_cq_ring fd n) [
      | failed e ↦
          (raise (system_error e), record x { cq_ring_size = n; cq_ring_ptr = map_failed }, l)
      | done a ↦
          map_sqes k fd efd p (record x { cq_ring_size = n; cq_ring_ptr = a }) (log_map a n l)
    ]

-- The completion ring, by the bit IORING_FEAT_SINGLE_MMAP of the features.
unfoldable pub share_or_map : Bool → Kernel → ℕ → ℕ → Params → RawContext → Log → Outcome
unfolding map_cq map_sqes
share_or_map true k fd efd p x l =
    map_sqes k fd efd p (record x { cq_ring_ptr = x.sq_ring_ptr; cq_ring_size = 0 }) l
share_or_map false k fd efd p x l = map_cq k fd efd p x l

-- The mappings of the rings, from `io_uring_setup` on.
unfoldable pub map_rings : Kernel → ℕ → ℕ → Params → RawContext → Log → Outcome
unfolding share_or_map
map_rings k fd efd p x l =
    let n = ring_size x.no_sqarray p in
    elim (k.mmap off_sq_ring fd n) [
      | failed e ↦
          (raise (system_error e), record x { sq_ring_size = n; sq_ring_ptr = map_failed }, l)
      | done a ↦
          share_or_map p.single_mmap k fd efd p (record x { sq_ring_size = n; sq_ring_ptr = a })
            (log_map a n l)
    ]

-- The arguments as `PyArg_ParseTupleAndKeywords` leaves them.
pub record InitArgs : Type 0 where
  pub max_requests : ℕ
  pub want_sqpoll : Bool

-- Where the parse fails, what it had stored as `max_requests` before, or the 0 of init.
pub data Parsed : Type 0 where
  parsed : InitArgs → Parsed
  unparsed : ℕ → Parsed

abbrev pub or_default : ℕ → ℕ
or_default n = if n == 0 then ctx_max_requests_default else n

-- From the eventfd on.
unfoldable pub set_up : Kernel → ℕ → Bool → RawContext → Log → Outcome
unfolding probe map_rings
set_up k efd want_sqpoll x l =
    elim (probe k (u32 (x.max_requests + 1)) 0 (flag_table want_sqpoll)) [
      | failed e ↦ (raise (system_error e), record x { uring_fd = negsuc 0 }, l)
      | done (fd, p) ↦
          let y = record x {
            uring_fd = pos fd;
            no_sqarray = p.flags.no_sqarray;
            sqpoll = p.flags.sqpoll;
          } in
          map_rings k fd efd p y (log_open fd l)
    ]

-- AIOContext_init
unfoldable pub init : Kernel → Parsed → RawContext → Log → Outcome
unfolding set_up
init k (unparsed n) x l = (raise propagated, record x { max_requests = n }, l)
init k (parsed args) x l =
    let y = record x { max_requests = or_default args.max_requests } in
    elim k.eventfd [
      | failed e ↦ (raise (system_error e), record y { eventfd_fd = negsuc 0 }, l)
      | done efd ↦
          set_up k efd args.want_sqpoll (record y { eventfd_fd = pos efd }) (log_open efd l)
    ]

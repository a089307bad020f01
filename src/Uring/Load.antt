-- ===== src/Uring/Load.antt =====
-- PyInit_linux_uring.
use caio.Base.{
  ltb, leb, ◌==◌, if◌then◌else◌, pos, Ref, PyErr, import_error, propagated, Result, raise, Maker,
  Registry, added, hold_type, discard, add_type, new_module, Types, then_operation, ℕ, Bool, true,
  false, ◌&&◌, ◌||◌, Option, none, some, [], ◌∷◌, ◌++◌,
}
use caio.Uring.Files.{Log, log_open}
use caio.Uring.Setup.{SetupFlags, Answer, done, failed}

-- The system: the two numbers that `sscanf` reads of the release, 0 where it reads none, or a failure
-- of `uname`; and `io_uring_setup` of one entry with flags and an idle time.
pub record Host : Type 0 where
  pub uname : Option (ℕ × ℕ)
  pub setup : SetupFlags → ℕ → Answer ℕ

-- 5.6 or later
abbrev pub supported : ℕ × ℕ → Bool
supported (major, minor) = ltb 5 major || (major == 5 && leb 6 minor)

abbrev pub log_close : ℕ → Log → Log
log_close fd l = record l { closed = l.closed ++ pos fd ∷ [] }

-- The probe for SQPOLL. `make` is the rest, which creates the module with its answer.
unfoldable pub probe_sqpoll : Host → (Bool → Result Ref) → Log → Result Ref × Log
probe_sqpoll h make l = elim (h.setup (record { sqpoll = true; no_sqarray = false }) 100) [
  | failed e ↦ (make false, l)
  | done fd ↦ (make true, log_close fd (log_open fd l))
]

-- ENOSYS
abbrev pub probe_error : ℕ → PyErr
probe_error e =
    if e == 38
    then import_error "io_uring_setup failed: syscall not available (ENOSYS)."
    else import_error "io_uring_setup probe failed"

unfoldable pub probe_ring : Host → (Bool → Result Ref) → Log → Result Ref × Log
unfolding probe_sqpoll
probe_ring h make l = elim (h.setup (record { sqpoll = false; no_sqarray = false }) 0) [
  | failed e ↦ (raise (probe_error e), l)
  | done fd ↦ probe_sqpoll h make (log_close fd (log_open fd l))
]

-- PyInit_linux_uring
unfoldable pub load : Host → (Bool → Result Ref) → Log → Result Ref × Log
unfolding probe_ring
load h make l = elim h.uname [
  | none ↦ (raise (import_error "uname() failed"), l)
  | some release ↦
      let probed = probe_ring h make l in
      if supported release
      then probed
      else (raise (import_error "linux_uring requires Linux 5.6+ (IORING_OP_READ/WRITE)"), l)
]

-- The types are made ready before either is added.
unfoldable pub register_ready : Maker → Types → Ref → Registry → Result Ref × Registry
unfolding add_type
register_ready mk types m s =
    if mk.ready types.context_type && mk.ready types.operation_type
    then then_operation (add_type mk m "Operation" types.operation_type) m
        (add_type mk m "Context" types.context_type s)
    else (raise propagated, s)

-- The answer of the probe becomes an attribute. Where that fails, its reference is not dropped.
unfoldable pub publish_probe : Maker → Types → Bool → Ref → Registry → Result Ref × Registry
unfolding register_ready
publish_probe mk types sqpoll m s =
    let b = mk.boolean sqpoll in
    let held = hold_type b s in
    if mk.adds "SQPOLL_ALLOWED"
    then register_ready mk types m (added "SQPOLL_ALLOWED" b held)
    else (raise propagated, discard m held)

-- The creation of the module.
unfoldable pub make_module : Maker → Types → Bool → Registry → Result Ref × Registry
unfolding new_module publish_probe
make_module mk types sqpoll s = new_module mk (publish_probe mk types sqpoll) s

-- ===== src/Aio/Context.antt =====
-- The life of a Context of caio/linux_aio.c, and AIOContext_poll.
pub mod Handles
use caio.Base.{
  ◌==◌, if◌then◌else◌, ℤ, pos, negsuc, is_neg, Ref, runtime_error, system_error, blocking_io_error,
  propagated, Result, ok, raise, Value, int, ℕ, Bool, true, false, ◌||◌, Option, none, some, ◌∷◌,
}
use caio.Aio.State.{Context, World, set_ctx, free}

-- `CTX_MAX_REQUESTS_DEFAULT`
abbrev pub ctx_max_requests_default : ℕ
ctx_max_requests_default = 32

-- What `tp_alloc` gives.
abbrev pub blank_context : Context
blank_context = record { ctx = 0; fileno = pos 0; max_requests = 0 }

-- AIOContext_new
unfoldable pub new : Ref → World → World
new c w = set_ctx c blank_context w

-- What a system call gives: a file or a handle, or -1 with the error number.
pub data Opened : Type 0 where
  opened : ℕ → Opened
  refused : ℕ → Opened

abbrev with_handle : Ref → Context → Opened → World → Result (Unit {0}) × World
with_handle c x (refused e) w = (raise (system_error e), set_ctx c x w)
with_handle c x (opened h) w = (ok tt, set_ctx c (record x { ctx = h }) w)

abbrev or_default : ℕ → ℕ
or_default n = if n == 0 then ctx_max_requests_default else n

-- From the parse of the arguments on. Where it fails, `n` is what it had stored before, or the 0 of
-- init.
unfoldable pub init_parsed :
    (ℕ → Opened) → Ref → Context → (parsed : Bool) → ℕ → World → Result (Unit {0}) × World
init_parsed io_setup c x false n w = (raise propagated, set_ctx c (record x { max_requests = n }) w)
init_parsed io_setup c x true n w =
    with_handle c (record x { max_requests = or_default n }) (io_setup (or_default n)) w

-- AIOContext_init
unfoldable pub init :
    Opened → (ℕ → Opened) → Ref → (parsed : Bool) → ℕ → World → Result (Unit {0}) × World
unfolding init_parsed
init (refused e) io_setup c parsed n w =
    (raise (system_error e), set_ctx c (record { ctx = 0; fileno = negsuc 0; max_requests = 0 }) w)
init (opened fd) io_setup c parsed n w =
    init_parsed io_setup c (record { ctx = 0; fileno = pos fd; max_requests = 0 }) parsed n w

abbrev destroy : ℕ → World → World
destroy h w = if h == 0 then w else record w { destroyed = h ∷ w.destroyed }

abbrev close : ℤ → World → World
close (pos fd) w = record w { closed = pos fd ∷ w.closed }
close (negsuc n) w = w

-- AIOContext_dealloc
unfoldable pub dealloc : Ref → World → World
dealloc c w =
    let x = w.ctxs c in
    let fileno = if is_neg x.fileno then x.fileno else negsuc 0 in
    free c (set_ctx c (record x { ctx = 0; fileno = fileno }) (close x.fileno (destroy x.ctx w)))

-- AIOContext_poll. `read_counter` is `read` on the eventfd, `none` unless eight bytes came.
unfoldable pub poll : (ℤ → World → Option ℕ × World) → Ref → World → Result Value × World
poll read_counter c w =
    let x = w.ctxs c in
    let (a, w') = read_counter x.fileno w in
    if x.ctx == 0 || is_neg x.fileno
    then (raise (runtime_error ""), w)
    else elim a [ none ↦ (raise blocking_io_error, w') | some n ↦ (ok (int (pos n)), w') ]

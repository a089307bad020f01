-- ===== src/Thread/Context.antt =====
-- AIOContext: creation, close and release.
pub mod Sizes
pub mod Close
use caio.Base.{
  ltb, leb, ◌==◌, if◌then◌else◌, pos, u8, u16, Ref, runtime_error, value_error, propagated, Result,
  ok, raise, Value, py_none, int, Arg, ℕ, ◌+◌, ◌-◌, ◌*◌, ◌/◌, ◌^◌, Bool, Option, none, some, List,
  ◌∷◌,
}
use caio.Thread.State.{Context, World, set_ctx, free}

-- CTX_POOL_SIZE_DEFAULT, CTX_MAX_REQUESTS_DEFAULT, and MAX_THREADS and MAX_QUEUE of the pool.
abbrev pub ctx_pool_size_default : ℕ
ctx_pool_size_default = 8

abbrev pub ctx_max_requests_default : ℕ
ctx_max_requests_default = 512

abbrev pub max_threads : ℕ
max_threads = 128

abbrev pub max_queue : ℕ
max_queue = 65536

-- The keyword arguments as integers, where given; `H` takes their low 16 bits.
pub record InitArgs : Type 0 where
  pub max_requests : Option ℕ
  pub pool_size : Option ℕ

abbrev store_max_requests : Option ℕ → Context → Context
store_max_requests none x = x
store_max_requests (some n) x = record x { max_requests = u16 n }

-- Two bytes are stored at the one byte of `pool_size`, the low one first.
abbrev store_pool_size : Option ℕ → Context → Context
store_pool_size none x = x
store_pool_size (some n) x = record x { pool_size = u8 n; pool_size_pad = u16 n / 2 ^ 8 }

default_sizes : Context → Context
default_sizes x = record x {
  max_requests = if x.max_requests == 0 then ctx_max_requests_default else x.max_requests;
  pool_size = if x.pool_size == 0 then ctx_pool_size_default else x.pool_size;
}

create_pool : (ℕ → ℕ → Option Ref) → Context → Result (Unit {0}) × Context
create_pool create x =
    if ltb max_threads x.pool_size
    then (raise (value_error "pool_size too large. Allowed lower then 128"), x)
    else if leb (max_queue - 1) x.max_requests
    then (raise (value_error "max_requests too large. Allowed lower then 65535"), x)
    else elim (create x.pool_size x.max_requests) [
      | none ↦ (raise (runtime_error "Pool initialization failed"), x)
      | some pool ↦ (ok tt, record x { pool = some pool })
    ]

-- AIOContext_init. `create` stands for `threadpool_create`, and `parsed` for the success of the parse:
-- where that fails, `args` has the values that it stored before.
unfoldable pub init :
    (ℕ → ℕ → Option Ref) → (parsed : Bool) → InitArgs → Context → Result (Unit {0}) × Context
unfolding default_sizes create_pool
init create parsed args x =
    let y =
      store_pool_size args.pool_size
        (store_max_requests args.max_requests (record x { pool = none; max_requests = 0 })) in
    if parsed then create_pool create (default_sizes y) else (raise propagated, y)

-- The member `pool_size` of a Context, which is read as an `int` from the address of the byte.
unfoldable pub pool_size_member : Context → ℕ
pool_size_member x = x.pool_size + 2 ^ 8 * x.pool_size_pad

abbrev destroy : Option Ref → World → World
destroy none w = w
destroy (some pool) w = record w { destroyed = pool ∷ w.destroyed }

-- AIOContext_close_pool, which AIOContext_close calls
unfoldable pub close_pool : Ref → World → World
close_pool c w = let x = w.ctxs c in destroy x.pool (set_ctx c (record x { pool = none }) w)

unfoldable pub close : Ref → World → Result Value × World
unfolding close_pool
close c w = (ok py_none, close_pool c w)

-- AIOContext_dealloc
unfoldable pub dealloc : Ref → World → World
unfolding close_pool
dealloc c w = free c (close_pool c w)

-- AIOContext_cancel
unfoldable pub cancel : Ref → List Arg → Result Value
cancel c args = ok (int (pos 0))

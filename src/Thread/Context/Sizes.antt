-- ===== src/Thread/Context/Sizes.antt =====
-- The sizes that AIOContext_init accepts and passes to the pool.
use caio.Base.{
  ◌==◌, if◌then◌else◌, u8, u16, Ref, ok, ℕ, ◌-◌, ◌/◌, ◌^◌, ◌≤◌, ◌<◌, ◌≡◌, ◌≢◌, true, Option, none,
  some, arith,
}
use caio.Thread.State.{Context, blank_context}
use caio.Thread.Context.{
  ctx_pool_size_default, ctx_max_requests_default, max_threads, max_queue, InitArgs, init,
  pool_size_member,
}

-- A requested size of so many bits, or the one that stands where none is given.
abbrev given : Option ℕ → (ℕ → ℕ) → ℕ → ℕ
given none low old = old
given (some n) low old = low n

-- What the code makes of a requested size: the low bits, or the default where these are zero.
abbrev effective : ℕ → ℕ → ℕ
effective n default = if n == 0 then default else n

-- A context that init accepts, whether it is new or was initialized before, has a pool of 1 to 128
-- threads and 1 to 65534 requests, which is the pool that was created at those sizes. The sizes are
-- the requested ones modulo 2^8 and 2^16, with the defaults for zero; where no number of threads is
-- given the one from before stands, but not for the number of requests.
pub init_sizes :
    (create : ℕ → ℕ → Option Ref) (args : InitArgs) (old : Context)
    → (init create true args old).0 ≡ ok tt
    → let x = (init create true args old).1 in
      (x.pool_size ≡ effective (given args.pool_size u8 old.pool_size) ctx_pool_size_default)
      × (x.max_requests ≡ effective (given args.max_requests u16 0) ctx_max_requests_default)
      × (0 < x.pool_size)
      × (x.pool_size ≤ max_threads)
      × (0 < x.max_requests)
      × (x.max_requests < max_queue - 1)
      × (x.pool ≡ create x.pool_size x.max_requests)
      × (x.pool ≢ none)
unfolding init
init_sizes create args old h = ground arith

-- A request for 257 to 384 threads is accepted like one for 256 fewer, whatever the limit says, and
-- the member `pool_size` shows the number that was asked for.
pub init_pool_size_wraps :
    (create : ℕ → ℕ → Option Ref) (n : ℕ) (pool : Ref)
    → 256 < n
    → n ≤ 384
    → create (n - 256) ctx_max_requests_default ≡ some pool
    → let args : InitArgs = record { max_requests = none; pool_size = some n } in
      let (r, x) = init create true args blank_context in
      (r ≡ ok tt) × (x.pool ≡ some pool) × (x.pool_size ≡ n - 256) × (pool_size_member x ≡ n)
unfolding init pool_size_member
init_pool_size_wraps create n pool lo hi e =
    let low : u8 n ≡ n - 256 = omega arith in
    let high : u16 n / 2 ^ 8 ≡ 1 = omega arith in ground (arith, low, high)

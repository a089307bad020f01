-- ===== src/Uring/Setup/Tests.antt =====
-- The theorems about AIOContext_init at a concrete kernel.
use caio.Base.{
  leb, ◌==◌, if◌then◌else◌, Bool-cases, pos, ok, ℕ, ◌^◌, ◌≤◌, ◌≡◌, refl, ap, subst, inl, inr, true,
  none, arith,
}
use caio.Uring.State.{zero_sqe}
use caio.Uring.Files.{new, empty_log, is_mapped, dealloc, Memory, view}
use caio.Uring.Setup.{
  SetupFlags, Params, Answer, done, failed, Region, off_sq_ring, off_cq_ring, off_sqes, Kernel,
  Parsed, parsed, init,
}
use caio.Uring.Setup.Release.{Maps, Balanced, init-dealloc-Balanced}
use caio.Uring.Setup.Ready.{
  Sound, NewSq, NewCq, Serves, IsInBounds, HasMapped, IsNew, init-IsNew, init-IsInBounds,
}
use native.Mathlib.Nat.{dvd-mul_left}

-- Rings of 64 and 128 entries in one mapping at 4096, and the entries at 8192.
abbrev params : SetupFlags → Params
params f = record {
  flags = f;
  single_mmap = true;
  sq_entries = 64;
  cq_entries = 128;
  sq_off = record {
    head = 0;
    tail = 4;
    ring_mask = 16;
    ring_entries = 24;
    flags = 36;
    array = 2432;
  };
  cq_off = record { head = 8; tail = 12; ring_mask = 20; ring_entries = 28; cqes = 64 };
}

abbrev map_at : Region → Answer ℕ
map_at off_sq_ring = done 4096
map_at off_cq_ring = failed 12
map_at off_sqes = done 8192

-- A kernel that serves at most 64 entries.
abbrev pub kernel : Kernel
kernel = record {
  eventfd = done 6;
  setup = λ n f i. if leb n 64 then done (5, params f) else failed 22;
  mmap = λ r fd n. map_at r;
  register = λ fd efd. none;
}

abbrev word_at : ℕ → ℕ
word_at a = if a == 4112 then 63 else if a == 4120 then 64 else if a == 4116 then 127 else 0

abbrev pub memory : Memory
memory = record {
  word = word_at;
  sqe = λ a. zero_sqe;
  cqe = λ a. record { user_data = 0; res = pos 0 };
}

abbrev pub args : Parsed
args = parsed (record { max_requests = 0; want_sqpoll = true })

abbrev value_or {ℓ} : {A : Type ℓ} → A → Answer A → A
value_or d (done x) = x
value_or d (failed e) = d

answered-params :
    (n : ℕ) (f : SetupFlags) (i fd : ℕ) (p : Params)
    → kernel.setup n f i ≡ done (fd, p)
    → (n ≤ 64) × (params f ≡ p)
answered-params n f i fd p = elim (Bool-cases (leb n 64)) [
  | inl small ↦ rw small (λ e.
      (ground (arith, small), ap (λ (r : Answer (ℕ × Params)). (value_or (0, params f) r).1) e))
  | inr large ↦ rw large (λ e. cc)
]

params-Sound : (f : SetupFlags) → Sound (params f)
params-Sound f = record {
  sq_head = omega arith;
  sq_tail = omega arith;
  sq_mask = omega arith;
  sq_entries = omega arith;
  sq_flags = λ has. omega arith;
  cq_head = omega arith;
  cq_tail = omega arith;
  cq_mask = omega arith;
  cq_entries = omega arith;
  whole = dvd-mul_left 64 (2 ^ 26);
  cq_whole = dvd-mul_left 128 (2 ^ 25);
  cq_short = omega arith;
  short = omega arith;
}

mmap-at : (size a : ℕ) → kernel.mmap off_sq_ring 5 size ≡ done a → 4096 ≡ a
mmap-at size a e = ap (value_or 0) e

pub kernel-Serves : Serves kernel memory
kernel-Serves = record {
  sound = λ n f i fd p e. subst Sound (answered-params n f i fd p e).1 (params-Sound f);
  room = λ n f i fd p e.
      subst (λ (q : Params). n ≤ q.sq_entries) (answered-params n f i fd p e).1
        (answered-params n f i fd p e).0;
  sq = λ n f i fd p size a e at.
      subst (λ q. NewSq q memory a) (answered-params n f i fd p e).1
        (subst (NewSq (params f) memory) (mmap-at size a at)
          (record { head = refl; tail = refl; mask = refl; entries = refl }));
  cq_shared = λ n f i fd p size a e one at.
      subst (λ q. NewCq q memory a) (answered-params n f i fd p e).1
        (subst (NewCq (params f) memory) (mmap-at size a at)
          (record { head = refl; tail = refl; mask = refl }));
  cq_own = λ n f i fd p size b e at. cc;
}

map_at-real : (r : Region) (a : ℕ) → map_at r ≡ done a → is_mapped a ≡ true
map_at-real off_sq_ring a e = subst (λ b. is_mapped b ≡ true) (ap (value_or 0) e) refl
map_at-real off_cq_ring a e = cc
map_at-real off_sqes a e = subst (λ b. is_mapped b ≡ true) (ap (value_or 0) e) refl

kernel-Maps : Maps kernel
kernel-Maps = record { real = λ r fd n a e. map_at-real r a e; apart = λ fd n m a b e e'. cc }

pub succeeds : (init kernel args new empty_log).0 ≡ ok tt
unfolding init
succeeds = refl

init-dealloc-Balanced_example :
    (let (r, x, l) = init kernel args new empty_log in Balanced (dealloc x l))
init-dealloc-Balanced_example = init-dealloc-Balanced kernel args kernel-Maps

init-IsNew_example : IsNew (view (init kernel args new empty_log).1 memory)
init-IsNew_example = init-IsNew kernel memory args new empty_log kernel-Serves succeeds

init-IsInBounds_example :
    let (r, x, l) = init kernel args new empty_log in
    HasMapped kernel x empty_log l × IsInBounds x memory
init-IsInBounds_example = init-IsInBounds kernel memory args new empty_log kernel-Serves succeeds

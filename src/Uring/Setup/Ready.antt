-- ===== src/Uring/Setup/Ready.antt =====
-- The rings that AIOContext_init leaves, by what the kernel promises.
use Prim.Native.Nat.{ℕ, ◌+◌, ◌*◌, ◌^◌, ◌≤◌, ◌<◌, ◌∣◌}
use caio.Base.{
  ◌==◌, if◌then◌else◌, pos, u32, ok, ◌≡◌, refl, sym, ap, ◌∙◌, subst, ◌⊎◌, inl, inr, Bool, true,
  false, List, [], ◌∷◌, ◌++◌, arith,
}
use caio.Uring.State.{Context, slot, distance}
use caio.Uring.Files.{RawContext, Log, log_open, log_map, Memory, view}
use caio.Uring.Setup.{
  SetupFlags, Params, done, off_sq_ring, off_cq_ring, off_sqes, Kernel, idle, cq_size, ring_size,
  Parsed, init,
}
use caio.Uring.Setup.Success.{CqAt, with_entries, with_rings, with_file, log_cq, log_rings, init-ok}
use caio.Uring.Submit.Refines.{free, IsRing}
use native.Mathlib.Nat.{mod-lt}
use mathlib.Core.List.{append_assoc}
use caio.Uring.Submit.Queue.{entry, pending}
use caio.Uring.Ring.{window}
use caio.Uring.Drain.Reader.{cqe_at, ready}
use caio.Uring.System.Moves.{IsCq}

-- The headers of the two rings end before what the size of a mapping is computed from.
pub record Sound (p : Params) : Type 0 where
  pub sq_head : p.sq_off.head ≤ p.sq_off.flags
  pub sq_tail : p.sq_off.tail ≤ p.sq_off.flags
  pub sq_mask : p.sq_off.ring_mask ≤ p.sq_off.flags
  pub sq_entries : p.sq_off.ring_entries ≤ p.sq_off.flags
  pub sq_flags : p.flags.no_sqarray ≡ false → p.sq_off.flags + 4 ≤ p.sq_off.array
  pub cq_head : p.cq_off.head + 4 ≤ p.cq_off.cqes
  pub cq_tail : p.cq_off.tail + 4 ≤ p.cq_off.cqes
  pub cq_mask : p.cq_off.ring_mask + 4 ≤ p.cq_off.cqes
  pub cq_entries : p.cq_off.ring_entries + 4 ≤ p.cq_off.cqes
  pub whole : p.sq_entries ∣ 2 ^ 32
  pub short : p.sq_entries < 2 ^ 32
  pub cq_whole : p.cq_entries ∣ 2 ^ 32
  pub cq_short : p.cq_entries < 2 ^ 32

-- What the kernel writes at the start of a new submission ring and of a new completion ring.
pub record NewSq (p : Params) (m : Memory) (a : ℕ) : Type 0 where
  pub head : m.word (a + p.sq_off.head) ≡ 0
  pub tail : m.word (a + p.sq_off.tail) ≡ 0
  pub mask : m.word (a + p.sq_off.ring_mask) + 1 ≡ p.sq_entries
  pub entries : m.word (a + p.sq_off.ring_entries) ≡ p.sq_entries

pub record NewCq (p : Params) (m : Memory) (a : ℕ) : Type 0 where
  pub head : m.word (a + p.cq_off.head) ≡ 0
  pub tail : m.word (a + p.cq_off.tail) ≡ 0
  pub mask : m.word (a + p.cq_off.ring_mask) + 1 ≡ p.cq_entries

-- What io_uring_setup and mmap promise: a ring of at least as many entries as were asked for, whose
-- memory is that of a new ring.
pub record Serves (k : Kernel) (m : Memory) : Type 0 where
  pub sound :
      (n : ℕ) (f : SetupFlags) (i fd : ℕ) (p : Params) → k.setup n f i ≡ done (fd, p) → Sound p
  pub room :
      (n : ℕ) (f : SetupFlags) (i fd : ℕ) (p : Params)
      → k.setup n f i ≡ done (fd, p)
      → n ≤ p.sq_entries
  pub sq :
      (n : ℕ) (f : SetupFlags) (i fd : ℕ) (p : Params) (size a : ℕ)
      → k.setup n f i ≡ done (fd, p)
      → k.mmap off_sq_ring fd size ≡ done a
      → NewSq p m a
  pub cq_shared :
      (n : ℕ) (f : SetupFlags) (i fd : ℕ) (p : Params) (size a : ℕ)
      → k.setup n f i ≡ done (fd, p)
      → p.single_mmap ≡ true
      → k.mmap off_sq_ring fd size ≡ done a
      → NewCq p m a
  pub cq_own :
      (n : ℕ) (f : SetupFlags) (i fd : ℕ) (p : Params) (size b : ℕ)
      → k.setup n f i ≡ done (fd, p)
      → k.mmap off_cq_ring fd size ≡ done b
      → NewCq p m b

-- The `n` bytes at `q` lie in the mapping of `size` bytes at `a`.
abbrev Within : ℕ → ℕ → ℕ → ℕ → Type 0
Within a size q n = (a ≤ q) × (q + n ≤ a + size)

-- The size of the mapping that holds the completion ring: init sets 0 where the other mapping does.
abbrev cq_room : RawContext → ℕ
cq_room x = if x.cq_ring_size == 0 then x.sq_ring_size else x.cq_ring_size

-- Every word and entry that the methods reach, at any index, lies in a mapping.
pub record IsInBounds (x : RawContext) (m : Memory) : Type 0 where
  pub sq_head : Within x.sq_ring_ptr x.sq_ring_size x.sq_head 4
  pub sq_tail : Within x.sq_ring_ptr x.sq_ring_size x.sq_tail 4
  pub sq_mask : Within x.sq_ring_ptr x.sq_ring_size x.sq_ring_mask 4
  pub sq_entries : Within x.sq_ring_ptr x.sq_ring_size x.sq_ring_entries 4
  pub sq_flags : Within x.sq_ring_ptr x.sq_ring_size x.sq_flags 4
  pub sq_array :
      (i : ℕ)
      → x.no_sqarray ≡ false
      → Within x.sq_ring_ptr x.sq_ring_size (x.sq_array + slot i (m.word x.sq_ring_mask) * 4) 4
  pub sqes : (i : ℕ) → Within x.sqes x.sqes_size (x.sqes + slot i (m.word x.sq_ring_mask) * 64) 64
  pub cq_head : Within x.cq_ring_ptr (cq_room x) x.cq_head 4
  pub cq_tail : Within x.cq_ring_ptr (cq_room x) x.cq_tail 4
  pub cq_mask : Within x.cq_ring_ptr (cq_room x) x.cq_ring_mask 4
  pub cq_entries : Within x.cq_ring_ptr (cq_room x) x.cq_ring_entries 4
  pub cqes :
      (i : ℕ) → Within x.cq_ring_ptr (cq_room x) (x.cqes + slot i (m.word x.cq_ring_mask) * 16) 16

-- The mappings that an object records, the oldest first.
abbrev pub held_maps : RawContext → List (ℕ × ℕ)
held_maps x =
    if x.cq_ring_size == 0
    then (x.sq_ring_ptr, x.sq_ring_size) ∷ (x.sqes, x.sqes_size) ∷ []
    else (x.sq_ring_ptr, x.sq_ring_size)
      ∷ (x.cq_ring_ptr, x.cq_ring_size)
      ∷ (x.sqes, x.sqes_size)
      ∷ []

-- From the log `l` to `l'` exactly the mappings that the object records were made: `mmap` was given the
-- file of the ring, the region and the size that the object has for each, and answered its address. A
-- completion ring without a mapping of its own is in that of the submission ring.
pub record HasMapped (k : Kernel) (x : RawContext) (l l' : Log) : Type 0 where
  pub fd : ℕ
  pub file : x.uring_fd ≡ pos fd
  pub mappings : l'.mapped ≡ l.mapped ++ held_maps x
  pub sq : k.mmap off_sq_ring fd x.sq_ring_size ≡ done x.sq_ring_ptr
  pub sqes : k.mmap off_sqes fd x.sqes_size ≡ done x.sqes
  pub cq :
      ((x.cq_ring_size ≡ 0) × (x.cq_ring_ptr ≡ x.sq_ring_ptr))
      ⊎ ((0 < x.cq_ring_size) × (k.mmap off_cq_ring fd x.cq_ring_size ≡ done x.cq_ring_ptr))

-- What the log of the mappings of init comes to, with one mapping for both rings or with two.
maps_logged :
    (c : Bool) (a size b n s m : ℕ) (l : Log)
    → (log_map s m (log_cq c b n (log_map a size l))).mapped
      ≡ l.mapped ++ (if c then (a, size) ∷ (s, m) ∷ [] else (a, size) ∷ (b, n) ∷ (s, m) ∷ [])
maps_logged true a size b n s m l = append_assoc l.mapped ((a, size) ∷ []) ((s, m) ∷ [])
maps_logged false a size b n s m l =
    append_assoc (l.mapped ++ (a, size) ∷ []) ((b, n) ∷ []) ((s, m) ∷ [])
    ∙ append_assoc l.mapped ((a, size) ∷ []) ((b, n) ∷ (s, m) ∷ [])

slot-lt : (i mask entries : ℕ) → mask + 1 ≡ entries → slot i mask < entries
slot-lt i mask entries e = omega (arith, e, mod-lt i {m = mask + 1} (omega arith))

-- The object at the end of a call that succeeded.
module _ (k : Kernel) (m : Memory) (serves : Serves k m) (y : RawContext) (f : SetupFlags) (fd : ℕ)
    (p : Params) (a b n s : ℕ)
    (answered : k.setup (u32 (y.max_requests + 1)) f (idle f) ≡ done (fd, p))
    (sq : k.mmap off_sq_ring fd (ring_size p.flags.no_sqarray p) ≡ done a)
    (cq : CqAt k fd p a b n) where
  abbrev wants : ℕ
  wants = u32 (y.max_requests + 1)

  abbrev x : RawContext
  x = with_entries p s (with_rings p.flags.no_sqarray p a b n (with_file fd p y))

  abbrev sound : Sound p
  sound = serves.sound wants f (idle f) fd p answered

  abbrev new_sq : NewSq p m a
  new_sq = serves.sq wants f (idle f) fd p (ring_size p.flags.no_sqarray p) a answered sq

  new_cq : NewCq p m b
  new_cq = elim cq [
    | inl (one, at, size_zero) ↦
        rw at (
          serves.cq_shared wants f (idle f) fd p (ring_size p.flags.no_sqarray p) a answered one sq)
    | inr (two, got, size) ↦ serves.cq_own wants f (idle f) fd p (cq_size p) b answered got
  ]

  -- A header that ends where the flags do is in the mapping.
  sq_word : (off : ℕ) → off ≤ p.sq_off.flags → Within a (ring_size p.flags.no_sqarray p) (a + off) 4
  sq_word off small = ground (arith, small, sound.sq_flags)

  cq_fits : (size : ℕ) → size ≤ cq_size p → size ≤ cq_room x
  cq_fits size small = elim cq [
    | inl (one, at, size_zero) ↦ ground (arith, one, size_zero, small)
    | inr (two, got, whole) ↦ ground (arith, two, whole, small)
  ]

  cq_word : (off : ℕ) → off + 4 ≤ p.cq_off.cqes → Within b (cq_room x) (b + off) 4
  cq_word off small = omega (arith, cq_fits (off + 4) (omega (arith, small)))

  ready-IsInBounds : IsInBounds x m
  ready-IsInBounds = record {
    sq_head = sq_word p.sq_off.head sound.sq_head;
    sq_tail = sq_word p.sq_off.tail sound.sq_tail;
    sq_mask = sq_word p.sq_off.ring_mask sound.sq_mask;
    sq_entries = sq_word p.sq_off.ring_entries sound.sq_entries;
    sq_flags = sq_word p.sq_off.flags (omega arith);
    sq_array = λ i has.
        ground (arith, has, slot-lt i (m.word (a + p.sq_off.ring_mask)) p.sq_entries new_sq.mask);
    sqes = λ i. omega (arith, slot-lt i (m.word (a + p.sq_off.ring_mask)) p.sq_entries new_sq.mask);
    cq_head = cq_word p.cq_off.head sound.cq_head;
    cq_tail = cq_word p.cq_off.tail sound.cq_tail;
    cq_mask = cq_word p.cq_off.ring_mask sound.cq_mask;
    cq_entries = cq_word p.cq_off.ring_entries sound.cq_entries;
    cqes = λ i. omega (
      arith,
      slot-lt i (m.word (b + p.cq_off.ring_mask)) p.cq_entries new_cq.mask,
      cq_fits (p.cq_off.cqes + slot i (m.word (b + p.cq_off.ring_mask)) * 16 + 16)
          (omega (arith, slot-lt i (m.word (b + p.cq_off.ring_mask)) p.cq_entries new_cq.mask)),
    );
  }

  ready-HasMapped :
      (l l0 : Log)
      → l0.mapped ≡ l.mapped
      → k.mmap off_sqes fd (p.sq_entries * 64) ≡ done s
      → HasMapped k x l (log_rings p.flags.no_sqarray p a b n s l0)
  ready-HasMapped l l0 same held = elim cq [
    | inl (one, at, size_zero) ↦ record {
      fd = fd;
      file = refl;
      mappings = from true one ∙ ap (λ q. l.mapped ++ maps (q == 0) q) (sym size_zero);
      sq = sq;
      sqes = held;
      cq = inl (size_zero, at);
    }
    | inr (two, got, whole) ↦
        let some_bytes : 0 < n = omega (arith, whole, sound.cq_head) in
        let test : (n == 0) ≡ false = ground (arith, some_bytes) in
        record {
          fd = fd;
          file = refl;
          mappings = from false two ∙ ap (λ c. l.mapped ++ maps c n) (sym test);
          sq = sq;
          sqes = held;
          cq = inr (some_bytes, subst (λ q. k.mmap off_cq_ring fd q ≡ done b) (sym whole) got);
        }
  ]
    where
      size : ℕ
      size = ring_size p.flags.no_sqarray p

      maps : Bool → ℕ → List (ℕ × ℕ)
      maps c q =
          if c
          then (a, size) ∷ (s, p.sq_entries * 64) ∷ []
          else (a, size) ∷ (b, q) ∷ (s, p.sq_entries * 64) ∷ []

      from :
          (c : Bool)
          → p.single_mmap ≡ c
          → (log_rings p.flags.no_sqarray p a b n s l0).mapped ≡ l.mapped ++ maps c n
      from c e =
          maps_logged p.single_mmap a (ring_size p.flags.no_sqarray p) b n s (p.sq_entries * 64) l0
          ∙ ap (λ d. l0.mapped ++ maps d n) e
          ∙ ap (λ q. q ++ maps c n) same

  ready-IsRing : IsRing (view x m)
  ready-IsRing = record {
    is_open = refl;
    queue = record {
      mask = new_sq.mask ∙ sym new_sq.entries;
      whole = rw new_sq.mask sound.whole;
      short = rw new_sq.entries sound.short;
      small = omega (arith, new_sq.head);
      indexed = λ i lt has. absurd (omega (arith, lt, new_sq.head, new_sq.tail));
    };
    fits = omega (arith, new_sq.head, new_sq.tail);
    small = omega (arith, new_sq.tail);
  }

  ready-room : wants ≤ free (view x m)
  ready-room =
      omega (
        arith,
        new_sq.head,
        new_sq.tail,
        new_sq.entries,
        serves.room wants f (idle f) fd p answered,
      )

  ready-IsCq : IsCq (view x m)
  ready-IsCq = record {
    whole = rw new_cq.mask sound.cq_whole;
    small = omega (arith, new_cq.mask, sound.cq_short);
    head = omega (arith, new_cq.head);
    tail = omega (arith, new_cq.tail);
    fits = omega (arith, new_cq.head, new_cq.tail);
  }

  ready-pending : pending (view x m) ≡ []
  ready-pending =
      let none_staged : distance (view x m).sq_tail (view x m).sq_head ≡ 0 =
        omega (arith, new_sq.head, new_sq.tail) in
      ap (window (entry (view x m)) (view x m).sq_head) none_staged

  ready-none : ready (view x m) ≡ []
  ready-none =
      let none_posted : distance (view x m).cq_tail (view x m).cq_head ≡ 0 =
        omega (arith, new_cq.head, new_cq.tail) in
      ap (window (cqe_at (view x m)) (view x m).cq_head) none_posted

-- Rings in order and empty, with room for one operation more than `max_requests`.
pub record IsNew (x : Context) : Type 0 where
  pub ring : IsRing x
  pub cq : IsCq x
  pub no_entries : pending x ≡ []
  pub no_completions : ready x ≡ []
  pub room : u32 (x.max_requests + 1) ≤ free x

-- On a kernel that serves new rings, init leaves, where it succeeds, rings in order and empty, with
-- room for one operation more than `max_requests`, modulo 2^32.
pub init-IsNew :
    (k : Kernel) (m : Memory) (args : Parsed) (x : RawContext) (l : Log)
    → Serves k m
    → (init k args x l).0 ≡ ok tt
    → IsNew (view (init k args x l).1 m)
init-IsNew k m args x l serves =
    init-ok (λ y l'. IsNew (view y m)) k args x l
      (λ y f efd fd p a b n s answered sq cq held. record {
        ring = ready-IsRing k m serves y f fd p a b n s answered sq cq;
        cq = ready-IsCq k m serves y f fd p a b n s answered sq cq;
        no_entries = ready-pending k m serves y f fd p a b n s answered sq cq;
        no_completions = ready-none k m serves y f fd p a b n s answered sq cq;
        room = ready-room k m serves y f fd p a b n s answered sq cq;
      })

-- On a kernel that serves new rings, where init succeeds: it made exactly the mappings that the object
-- records, each by a call of mmap on the file of the ring with the size that the object has, and every
-- word and entry that the methods reach through the object, at any index, lies in one of them.
pub init-IsInBounds :
    (k : Kernel) (m : Memory) (args : Parsed) (x : RawContext) (l : Log)
    → Serves k m
    → (init k args x l).0 ≡ ok tt
    → let (r, x', l') = init k args x l in HasMapped k x' l l' × IsInBounds x' m
init-IsInBounds k m args x l serves =
    init-ok (λ y l'. HasMapped k y l l' × IsInBounds y m) k args x l
      (λ y f efd fd p a b n s answered sq cq held. (
        ready-HasMapped k m serves y f fd p a b n s answered sq cq l (log_open fd (log_open efd l))
            refl held,
        ready-IsInBounds k m serves y f fd p a b n s answered sq cq,
      ))

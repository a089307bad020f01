-- ===== src/Uring/Setup/Release.antt =====
-- What dealloc gives back of what init acquired.
use caio.Base.{
  ◌==◌, if◌then◌else◌, ℤ, pos, negsuc, is_neg, u32, ℕ, ◌+◌, ◌*◌, ◌≡◌, refl, ◌⊎◌, inl, inr, Bool,
  true, false, not, ◌&&◌, Option, none, some, List, [], ◌∷◌, ◌++◌, arith,
}
use caio.Uring.Setup.{
  Params, Answer, done, failed, Region, off_sq_ring, off_cq_ring, off_sqes, Kernel, Outcome,
  flag_table, probe, cq_size, ring_size, sq_pointers, cq_pointers, registered, map_sqes, map_cq,
  share_or_map, map_rings, Parsed, parsed, unparsed, or_default, set_up, init,
}
use mathlib.Core.List.{append_assoc, Perm, perm_append_comm}
use mathlib.Core.List.Perm as Permutation
use caio.Uring.Files.{
  map_failed, RawContext, new, Log, empty_log, log_open, log_map, is_mapped, dealloc,
}

-- An answer is a value or a failure.
pub Answer-cases {ℓ} :
    {A : Type ℓ} (a : Answer A) → ((x : A) × (a ≡ done x)) ⊎ ((e : ℕ) × (a ≡ failed e))
Answer-cases (done x) = inl (x, refl)
Answer-cases (failed e) = inr (e, refl)

-- The files and the mappings that a Context owns.
abbrev file : ℤ → List ℤ
file fd = if is_neg fd then [] else fd ∷ []

abbrev mapping : Bool → ℕ → ℕ → List (ℕ × ℕ)
mapping due a n = if due then (a, n) ∷ [] else []

abbrev sq_of : RawContext → List (ℕ × ℕ)
sq_of x = mapping (is_mapped x.sq_ring_ptr) x.sq_ring_ptr x.sq_ring_size

abbrev cq_of : RawContext → List (ℕ × ℕ)
cq_of x =
    mapping (is_mapped x.cq_ring_ptr && not (x.cq_ring_ptr == x.sq_ring_ptr)) x.cq_ring_ptr
      x.cq_ring_size

abbrev sqes_of : RawContext → List (ℕ × ℕ)
sqes_of x = mapping (is_mapped x.sqes) x.sqes x.sqes_size

-- The log has the acquisition of just these, and no release.
record Owns (x : RawContext) (l : Log) : Type 0 where
  opened : l.opened ≡ file x.eventfd_fd ++ file x.uring_fd
  mapped : l.mapped ≡ sq_of x ++ cq_of x ++ sqes_of x
  closed : l.closed ≡ []
  unmapped : l.unmapped ≡ []

-- What mmap without a hint promises: no address that stands for a failure, and no two mappings of the
-- rings at one address.
pub record Maps (k : Kernel) : Type 0 where
  pub real : (r : Region) (fd n a : ℕ) → k.mmap r fd n ≡ done a → is_mapped a ≡ true
  pub apart :
      (fd n m a b : ℕ)
      → k.mmap off_sq_ring fd n ≡ done a
      → k.mmap off_cq_ring fd m ≡ done b
      → (b == a) ≡ false

-- Every file and mapping that the log acquired is released once, and nothing else is.
pub record Balanced (l : Log) : Type 0 where
  pub files : Perm l.closed l.opened
  pub mappings : Perm l.unmapped l.mapped

-- The three mappings go in another order than they came.
shuffle : (xs ys zs : List (ℕ × ℕ)) → Perm (xs ++ zs ++ ys) (xs ++ ys ++ zs)
shuffle xs ys zs =
    rw (append_assoc xs zs ys, append_assoc xs ys zs)
      (Permutation.append_left xs (perm_append_comm zs ys))

dealloc-closed :
    (x : RawContext) (l : Log)
    → l.closed ≡ []
    → (dealloc x l).closed ≡ file x.uring_fd ++ file x.eventfd_fd
unfolding dealloc
dealloc-closed x l none_yet = ground (arith, none_yet)

dealloc-unmapped :
    (x : RawContext) (l : Log)
    → l.unmapped ≡ []
    → (dealloc x l).unmapped ≡ sq_of x ++ sqes_of x ++ cq_of x
unfolding dealloc
dealloc-unmapped x l none_yet = ground (arith, none_yet)

dealloc-acquired :
    (x : RawContext) (l : Log)
    → ((dealloc x l).opened ≡ l.opened) × ((dealloc x l).mapped ≡ l.mapped)
unfolding dealloc
dealloc-acquired x l = ground arith

Owns-dealloc : (x : RawContext) (l : Log) → Owns x l → Balanced (dealloc x l)
Owns-dealloc x l o =
    let acquired = dealloc-acquired x l in
    record {
      files =
          rw (dealloc-closed x l o.closed, acquired.0, o.opened)
            (perm_append_comm (file x.uring_fd) (file x.eventfd_fd));
      mappings =
          rw (dealloc-unmapped x l o.unmapped, acquired.1, o.mapped)
            (shuffle (sq_of x) (cq_of x) (sqes_of x));
    }

-- What a step of init leaves.
abbrev OwnsAfter : Outcome → Type 0
OwnsAfter (r, x, l) = Owns x l

registered-Owns :
    (answer : Option ℕ) (x : RawContext) (l : Log) → Owns x l → OwnsAfter (registered answer x l)
registered-Owns none x l o = o
registered-Owns (some e) x l o = o

map_sqes-Owns :
    (k : Kernel) (fd efd : ℕ) (p : Params) (x : RawContext) (l : Log)
    → Maps k
    → x.sqes ≡ map_failed
    → Owns x l
    → OwnsAfter (map_sqes k fd efd p x l)
unfolding map_sqes
map_sqes-Owns k fd efd p x l maps unset o =
    let n = p.sq_entries * 64 in
    elim (Answer-cases (k.mmap off_sqes fd n)) [
      | inl (a, got) ↦
          rw (got, map_sqes)
            (registered-Owns (k.register fd efd)
              (cq_pointers p (record (sq_pointers p x) { sqes_size = n; sqes = a })) (log_map a n l)
              record {
                opened = o.opened;
                mapped = ground (arith, o.mapped, unset, maps.real off_sqes fd n a got);
                closed = o.closed;
                unmapped = o.unmapped;
              })
      | inr (e, lost) ↦
          rw (lost, map_sqes)
            record {
              opened = o.opened;
              mapped = ground (arith, o.mapped, unset);
              closed = o.closed;
              unmapped = o.unmapped;
            }
    ]

-- A new object, with nothing mapped.
record Blank (x : RawContext) : Type 0 where
  sq : x.sq_ring_ptr ≡ map_failed
  cq : x.cq_ring_ptr ≡ map_failed
  sqes : x.sqes ≡ map_failed

map_cq-Owns :
    (k : Kernel) (fd efd m : ℕ) (p : Params) (x : RawContext) (l : Log)
    → Maps k
    → k.mmap off_sq_ring fd m ≡ done x.sq_ring_ptr
    → x.cq_ring_ptr ≡ map_failed
    → x.sqes ≡ map_failed
    → Owns x l
    → OwnsAfter (map_cq k fd efd p x l)
unfolding map_cq
map_cq-Owns k fd efd m p x l maps sq cq sqes o =
    let n = cq_size p in
    elim (Answer-cases (k.mmap off_cq_ring fd n)) [
      | inl (a, got) ↦
          rw (got, map_cq)
            (map_sqes-Owns k fd efd p (record x { cq_ring_size = n; cq_ring_ptr = a })
              (log_map a n l) maps sqes
              record {
                opened = o.opened;
                mapped = ground (
                  arith,
                  o.mapped,
                  cq,
                  sqes,
                  maps.real off_cq_ring fd n a got,
                  maps.apart fd m n x.sq_ring_ptr a sq got,
                );
                closed = o.closed;
                unmapped = o.unmapped;
              })
      | inr (e, lost) ↦
          rw (lost, map_cq)
            record {
              opened = o.opened;
              mapped = ground (arith, o.mapped, cq);
              closed = o.closed;
              unmapped = o.unmapped;
            }
    ]

share_or_map-Owns :
    (one : Bool) (k : Kernel) (fd efd m : ℕ) (p : Params) (x : RawContext) (l : Log)
    → Maps k
    → k.mmap off_sq_ring fd m ≡ done x.sq_ring_ptr
    → x.cq_ring_ptr ≡ map_failed
    → x.sqes ≡ map_failed
    → Owns x l
    → OwnsAfter (share_or_map one k fd efd p x l)
unfolding share_or_map
share_or_map-Owns true k fd efd m p x l maps sq cq sqes o =
    map_sqes-Owns k fd efd p (record x { cq_ring_ptr = x.sq_ring_ptr; cq_ring_size = 0 }) l maps
      sqes
      record {
        opened = o.opened;
        mapped = ground (arith, o.mapped, cq);
        closed = o.closed;
        unmapped = o.unmapped;
      }
share_or_map-Owns false k fd efd m p x l maps sq cq sqes o =
    map_cq-Owns k fd efd m p x l maps sq cq sqes o

map_rings-Owns :
    (k : Kernel) (fd efd : ℕ) (p : Params) (x : RawContext) (l : Log)
    → Maps k
    → Blank x
    → Owns x l
    → OwnsAfter (map_rings k fd efd p x l)
unfolding map_rings
map_rings-Owns k fd efd p x l maps blank o =
    let n = ring_size x.no_sqarray p in
    elim (Answer-cases (k.mmap off_sq_ring fd n)) [
      | inr (e, lost) ↦
          rw (lost, map_rings)
            record {
              opened = o.opened;
              mapped = ground (arith, o.mapped, blank.sq, blank.cq);
              closed = o.closed;
              unmapped = o.unmapped;
            }
      | inl (a, got) ↦
          rw (got, map_rings)
            (share_or_map-Owns p.single_mmap k fd efd n p
              (record x { sq_ring_size = n; sq_ring_ptr = a }) (log_map a n l) maps got blank.cq
              blank.sqes
              record {
                opened = o.opened;
                mapped = ground (
                  arith,
                  o.mapped,
                  blank.sq,
                  blank.cq,
                  blank.sqes,
                  maps.real off_sq_ring fd n a got,
                );
                closed = o.closed;
                unmapped = o.unmapped;
              })
    ]

set_up-Owns :
    (k : Kernel) (efd : ℕ) (sqpoll : Bool) (x : RawContext) (l : Log)
    → Maps k
    → Blank x
    → x.uring_fd ≡ negsuc 0
    → Owns x l
    → OwnsAfter (set_up k efd sqpoll x l)
unfolding set_up
set_up-Owns k efd sqpoll x l maps blank unset o =
    elim (Answer-cases (probe k (u32 (x.max_requests + 1)) 0 (flag_table sqpoll))) [
      | inr (e, lost) ↦
          rw (lost, set_up)
            record {
              opened = ground (arith, o.opened, unset);
              mapped = o.mapped;
              closed = o.closed;
              unmapped = o.unmapped;
            }
      | inl ((fd, p), got) ↦
          rw (got, set_up)
            (map_rings-Owns k fd efd p
              (record x {
                uring_fd = pos fd;
                no_sqarray = p.flags.no_sqarray;
                sqpoll = p.flags.sqpoll;
              })
              (log_open fd l) maps (record { sq = blank.sq; cq = blank.cq; sqes = blank.sqes })
              record {
                opened = ground (arith, o.opened, unset);
                mapped = o.mapped;
                closed = o.closed;
                unmapped = o.unmapped;
              })
    ]

init-Owns : (k : Kernel) (args : Parsed) → Maps k → OwnsAfter (init k args new empty_log)
unfolding init
init-Owns k (unparsed n) maps = record {
  opened = refl;
  mapped = refl;
  closed = refl;
  unmapped = refl;
}
init-Owns k (parsed args) maps = elim (Answer-cases k.eventfd) [
  | inr (e, lost) ↦
      rw (lost, init) record { opened = refl; mapped = refl; closed = refl; unmapped = refl }
  | inl (efd, got) ↦
      rw (got, init)
        (set_up-Owns k efd args.want_sqpoll
          (record new { max_requests = or_default args.max_requests; eventfd_fd = pos efd })
          (log_open efd empty_log) maps (record { sq = refl; cq = refl; sqes = refl }) refl
          record { opened = refl; mapped = refl; closed = refl; unmapped = refl })
]

-- Whatever init of a new Context ended in, dealloc closes the files and undoes the mappings that init
-- acquired, each once and at the size that it was mapped with, and nothing else.
pub init-dealloc-Balanced :
    (k : Kernel) (args : Parsed)
    → Maps k
    → (let (r, x, l) = init k args new empty_log in Balanced (dealloc x l))
init-dealloc-Balanced k args maps =
    let (r, x, l) = init k args new empty_log in Owns-dealloc x l (init-Owns k args maps)

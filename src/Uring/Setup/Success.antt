-- ===== src/Uring/Setup/Success.antt =====
-- What init leaves and has logged where it succeeds, by the answers of the kernel.
use caio.Base.{
  Bool-cases, pos, u32, ok, ℕ, ◌+◌, ◌*◌, ◌≡◌, refl, ◌∙◌, subst, ◌⊎◌, inl, inr, Bool, true, false,
  Option, none, some, List, [], ◌∷◌,
}
use caio.Uring.Files.{RawContext, Log, log_open, log_map}
use caio.Uring.Setup.{
  SetupFlags, Params, done, off_sq_ring, off_cq_ring, off_sqes, Kernel, Outcome, try_next,
  flag_table, idle, probe, cq_size, ring_size, sq_pointers, cq_pointers, registered, map_sqes,
  map_cq, share_or_map, map_rings, Parsed, parsed, unparsed, or_default, set_up, init,
}
use caio.Uring.Setup.Release.{Answer-cases}

-- The completion ring of a file is at `b`, in the mapping at `a` or in its own of `n` bytes.
abbrev pub CqAt : Kernel → ℕ → Params → ℕ → ℕ → ℕ → Type 0
CqAt k fd p a b n =
    ((p.single_mmap ≡ true) × (b ≡ a) × (n ≡ 0))
    ⊎ ((p.single_mmap ≡ false) × (k.mmap off_cq_ring fd (cq_size p) ≡ done b) × (n ≡ cq_size p))

-- The object at the end, from the answers of mmap.
abbrev pub with_entries : Params → ℕ → RawContext → RawContext
with_entries p s x =
    cq_pointers p (record (sq_pointers p x) { sqes_size = p.sq_entries * 64; sqes = s })

abbrev pub with_rings : Bool → Params → ℕ → ℕ → ℕ → RawContext → RawContext
with_rings no_sqarray p a b n x = record x {
  sq_ring_size = ring_size no_sqarray p;
  sq_ring_ptr = a;
  cq_ring_ptr = b;
  cq_ring_size = n;
}

abbrev pub with_file : ℕ → Params → RawContext → RawContext
with_file fd p x = record x {
  uring_fd = pos fd;
  no_sqarray = p.flags.no_sqarray;
  sqpoll = p.flags.sqpoll;
}

-- The log at the end: the mapping of the submission ring, that of the completion ring where it has its
-- own, and that of the entries.
abbrev pub log_cq : Bool → ℕ → ℕ → Log → Log
log_cq true b n l = l
log_cq false b n l = log_map b n l

abbrev pub log_rings : Bool → Params → ℕ → ℕ → ℕ → ℕ → Log → Log
log_rings no_sqarray p a b n s l =
    log_map s (p.sq_entries * 64) (log_cq p.single_mmap b n (log_map a (ring_size no_sqarray p) l))

-- What holds of the object and the log where a step of init succeeds.
abbrev pub IfOk : (RawContext → Log → Type 0) → Outcome → Type 0
IfOk P (r, x, l) = r ≡ ok tt → P x l

registered-ok :
    (P : RawContext → Log → Type 0) (answer : Option ℕ) (x : RawContext) (l : Log)
    → P x l
    → IfOk P (registered answer x l)
registered-ok P none x l h fine = h
registered-ok P (some e) x l h fine = cc

map_sqes-ok :
    (P : RawContext → Log → Type 0) (k : Kernel) (fd efd : ℕ) (p : Params) (x : RawContext)
    (l : Log)
    → ((s : ℕ)
        → k.mmap off_sqes fd (p.sq_entries * 64) ≡ done s
        → P (with_entries p s x) (log_map s (p.sq_entries * 64) l))
    → IfOk P (map_sqes k fd efd p x l)
unfolding map_sqes
map_sqes-ok P k fd efd p x l h = elim (Answer-cases (k.mmap off_sqes fd (p.sq_entries * 64))) [
  | inr (e, lost) ↦ rw (lost, map_sqes) (λ fine. cc)
  | inl (s, got) ↦
      rw (got, map_sqes)
        (registered-ok P (k.register fd efd) (with_entries p s x) (log_map s (p.sq_entries * 64) l)
          (h s got))
]

share_or_map-ok :
    (P : RawContext → Log → Type 0) (k : Kernel) (fd efd : ℕ) (p : Params) (x : RawContext)
    (l : Log)
    → ((b n s : ℕ)
        → CqAt k fd p x.sq_ring_ptr b n
        → k.mmap off_sqes fd (p.sq_entries * 64) ≡ done s
        → P
            (with_entries p s (record x { cq_ring_ptr = b; cq_ring_size = n }))
            (log_map s (p.sq_entries * 64) (log_cq p.single_mmap b n l)))
    → (one : Bool) → p.single_mmap ≡ one
    → IfOk P (share_or_map one k fd efd p x l)
unfolding share_or_map map_cq
share_or_map-ok P k fd efd p x l h true one =
    map_sqes-ok P k fd efd p (record x { cq_ring_ptr = x.sq_ring_ptr; cq_ring_size = 0 }) l
      (λ s held.
        subst
          (λ c.
            P (with_entries p s (record x { cq_ring_ptr = x.sq_ring_ptr; cq_ring_size = 0 }))
              (log_map s (p.sq_entries * 64) (log_cq c x.sq_ring_ptr 0 l)))
          one (h x.sq_ring_ptr 0 s (inl (one, refl, refl)) held))
share_or_map-ok P k fd efd p x l h false two =
    elim (Answer-cases (k.mmap off_cq_ring fd (cq_size p))) [
      | inr (e, lost) ↦ rw (lost, map_cq) (λ fine. cc)
      | inl (b, got) ↦
          rw (got, map_cq)
            (map_sqes-ok P k fd efd p (record x { cq_ring_size = cq_size p; cq_ring_ptr = b })
              (log_map b (cq_size p) l)
              (λ s held.
                subst
                  (λ c.
                    P (with_entries p s (record x { cq_ring_ptr = b; cq_ring_size = cq_size p }))
                      (log_map s (p.sq_entries * 64) (log_cq c b (cq_size p) l)))
                  two (h b (cq_size p) s (inr (two, got, refl)) held)))
    ]

map_rings-ok :
    (P : RawContext → Log → Type 0) (k : Kernel) (fd efd : ℕ) (p : Params) (x : RawContext)
    (l : Log)
    → ((a b n s : ℕ)
        → k.mmap off_sq_ring fd (ring_size x.no_sqarray p) ≡ done a
        → CqAt k fd p a b n
        → k.mmap off_sqes fd (p.sq_entries * 64) ≡ done s
        → P
            (with_entries p s (with_rings x.no_sqarray p a b n x))
            (log_rings x.no_sqarray p a b n s l))
    → IfOk P (map_rings k fd efd p x l)
unfolding map_rings
map_rings-ok P k fd efd p x l h =
    let size = ring_size x.no_sqarray p in
    elim (Answer-cases (k.mmap off_sq_ring fd size)) [
      | inr (e, lost) ↦ rw (lost, map_rings) (λ fine. cc)
      | inl (a, got) ↦
          rw (got, map_rings)
            (share_or_map-ok P k fd efd p (record x { sq_ring_size = size; sq_ring_ptr = a })
              (log_map a size l) (λ b n s at held. h a b n s got at held) p.single_mmap refl)
    ]

probe-answered :
    (k : Kernel) (n e : ℕ) (fs : List SetupFlags) (fd : ℕ) (p : Params)
    → probe k n e fs ≡ done (fd, p)
    → (f : SetupFlags) × (k.setup n f (idle f) ≡ done (fd, p))
unfolding probe
probe-answered k n e [] fd p = λ got. cc
probe-answered k n e (f ∷ fs) fd p = elim (Answer-cases (k.setup n f (idle f))) [
  | inl (r, now) ↦ rw (now, probe) (λ got. (f, now ∙ got))
  | inr (e', later) ↦ elim (Bool-cases (try_next e')) [
    | inl again ↦ rw (later, probe, again) (probe-answered k n e' fs fd p)
    | inr lost ↦ rw (later, probe, lost) (λ got. cc)
  ]
]

set_up-ok :
    (P : RawContext → Log → Type 0) (k : Kernel) (efd : ℕ) (sqpoll : Bool) (x : RawContext)
    (l : Log)
    → ((f : SetupFlags) (fd : ℕ) (p : Params) (a b n s : ℕ)
        → k.setup (u32 (x.max_requests + 1)) f (idle f) ≡ done (fd, p)
        → k.mmap off_sq_ring fd (ring_size p.flags.no_sqarray p) ≡ done a
        → CqAt k fd p a b n
        → k.mmap off_sqes fd (p.sq_entries * 64) ≡ done s
        → P
            (with_entries p s (with_rings p.flags.no_sqarray p a b n (with_file fd p x)))
            (log_rings p.flags.no_sqarray p a b n s (log_open fd l)))
    → IfOk P (set_up k efd sqpoll x l)
unfolding set_up
set_up-ok P k efd sqpoll x l h =
    let n = u32 (x.max_requests + 1) in
    elim (Answer-cases (probe k n 0 (flag_table sqpoll))) [
      | inr (e, lost) ↦ rw (lost, set_up) (λ fine. cc)
      | inl ((fd, p), got) ↦
          let (f, answered) = probe-answered k n 0 (flag_table sqpoll) fd p got in
          rw (got, set_up)
            (map_rings-ok P k fd efd p (with_file fd p x) (log_open fd l)
              (λ a b n s sq cq held. h f fd p a b n s answered sq cq held))
    ]

pub init-ok :
    (P : RawContext → Log → Type 0) (k : Kernel) (args : Parsed) (x : RawContext) (l : Log)
    → ((y : RawContext) (f : SetupFlags) (efd fd : ℕ) (p : Params) (a b n s : ℕ)
        → k.setup (u32 (y.max_requests + 1)) f (idle f) ≡ done (fd, p)
        → k.mmap off_sq_ring fd (ring_size p.flags.no_sqarray p) ≡ done a
        → CqAt k fd p a b n
        → k.mmap off_sqes fd (p.sq_entries * 64) ≡ done s
        → P
            (with_entries p s (with_rings p.flags.no_sqarray p a b n (with_file fd p y)))
            (log_rings p.flags.no_sqarray p a b n s (log_open fd (log_open efd l))))
    → IfOk P (init k args x l)
unfolding init
init-ok P k (unparsed n) x l h = λ fine. cc
init-ok P k (parsed args) x l h = elim (Answer-cases k.eventfd) [
  | inr (e, lost) ↦ rw (lost, init) (λ fine. cc)
  | inl (efd, got) ↦
      let y = record x { max_requests = or_default args.max_requests; eventfd_fd = pos efd } in
      rw (got, init) (set_up-ok P k efd args.want_sqpoll y (log_open efd l) (λ f. h y f efd))
]

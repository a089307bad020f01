-- ===== src/Backends/Loading.antt =====
-- PyInit_linux_uring and PyInit_linux_aio.
use caio.Uring.Files as UringFiles
use caio.Uring.Setup as UringSetup
use caio.Uring.Setup.Release as UringRelease
use caio.Uring.Load as UringLoad
use caio.Aio.Load as AioLoad
use caio.Base.{
  ltb, ◌==◌, Bool-cases, Option-cases, pos, Ref, import_error, Result, raise, made, ℕ, ◌≤◌, ◌<◌,
  String, ◌≡◌, refl, ap, ◌⊎◌, inl, inr, Bool, true, false, Option, none, some, [], ◌∷◌, ◌++◌, arith,
}
use caio.Aio.Context.{Opened, opened, refused}

abbrev pub IsImportError : Result Ref → Type 0
IsImportError r = (text : String) × (r ≡ raise (import_error text))

-- A release is before another, or at or after it.
abbrev pub Before : ℕ × ℕ → ℕ × ℕ → Type 0
Before (major, minor) (m, n) = (major < m) ⊎ ((major ≡ m) × (minor < n))

abbrev pub AtLeast : ℕ × ℕ → ℕ × ℕ → Type 0
AtLeast (major, minor) (m, n) = (m < major) ⊎ ((major ≡ m) × (n ≤ minor))

-- The import fails where the release is not known or before the first one that is supported, and the
-- probes decide otherwise.
abbrev pub Loads : Option (ℕ × ℕ) → ℕ × ℕ → (Result Ref → Type 0) → Result Ref → Type 0
Loads uname first Probes r =
    ((uname ≡ none) × IsImportError r)
    ⊎ ((release : ℕ × ℕ) × (uname ≡ some release) × Before release first × IsImportError r)
    ⊎ ((release : ℕ × ℕ) × (uname ≡ some release) × AtLeast release first × Probes r)

-- The flags of the two probes.
abbrev plain_ring : UringSetup.SetupFlags
plain_ring = record { sqpoll = false; no_sqarray = false }

abbrev polled_ring : UringSetup.SetupFlags
polled_ring = record { sqpoll = true; no_sqarray = false }

-- The module is made, with the answer whether a ring can have a polling thread, where a plain ring can
-- be opened, and else the import fails.
abbrev pub UringProbes : UringLoad.Host → (Bool → Result Ref) → Result Ref → Type 0
UringProbes h make r =
    ((e : ℕ) × (h.setup plain_ring 0 ≡ UringSetup.failed e) × IsImportError r)
    ⊎ ((fd : ℕ) × (h.setup plain_ring 0 ≡ UringSetup.done fd)
        × (((fd' : ℕ) × (h.setup polled_ring 100 ≡ UringSetup.done fd') × (r ≡ make true))
            ⊎ ((e : ℕ) × (h.setup polled_ring 100 ≡ UringSetup.failed e) × (r ≡ make false))))

-- The module is made where a handle can be got and given back, and else the import fails.
abbrev pub AioProbes : AioLoad.Host → Result Ref → Result Ref → Type 0
AioProbes h make r =
    ((e : ℕ) × (h.io_setup ≡ refused e) × IsImportError r)
    ⊎ ((c : ℕ) × (h.io_setup ≡ opened c)
        × (((h.io_destroy c ≡ none) × (r ≡ make))
            ⊎ ((e : ℕ) × (h.io_destroy c ≡ some e) × IsImportError r)))

-- What the tests on the release decide.
uring_supported-cases :
    (v : ℕ × ℕ)
    → ((UringLoad.supported v ≡ true) × AtLeast v (5, 6))
      ⊎ ((UringLoad.supported v ≡ false) × Before v (5, 6))
uring_supported-cases (major, minor) = elim (Bool-cases (UringLoad.supported (major, minor))) [
  | inl e ↦ inl (
    e,
    elim (Bool-cases (ltb 5 major)) [
      | inl after ↦ inl (ground (arith, after))
      | inr not_after ↦ inr (ground (arith, e, not_after), ground (arith, e, not_after))
    ],
  )
  | inr e ↦ inr (
    e,
    elim (Bool-cases (major == 5)) [
      | inl same ↦ inr (ground (arith, same), ground (arith, e, same))
      | inr differ ↦ inl (ground (arith, e, differ))
    ],
  )
]

aio_supported-cases :
    (v : ℕ × ℕ)
    → ((AioLoad.supported v ≡ true) × AtLeast v (4, 18))
      ⊎ ((AioLoad.supported v ≡ false) × Before v (4, 18))
aio_supported-cases (major, minor) = elim (Bool-cases (AioLoad.supported (major, minor))) [
  | inl e ↦ inl (
    e,
    elim (Bool-cases (ltb 4 major)) [
      | inl after ↦ inl (ground (arith, after))
      | inr not_after ↦ inr (ground (arith, e, not_after), ground (arith, e, not_after))
    ],
  )
  | inr e ↦ inr (
    e,
    elim (Bool-cases (major == 4)) [
      | inl same ↦ inr (ground (arith, same), ground (arith, e, same))
      | inr differ ↦ inl (ground (arith, e, differ))
    ],
  )
]

-- Every ring that was opened to probe is closed, once.
abbrev pub Closes : UringFiles.Log → Type 0
Closes l = l.closed ≡ l.opened

probe_sqpoll-cases :
    (h : UringLoad.Host) (make : Bool → Result Ref) (l : UringFiles.Log)
    → Closes l
    → (let (r, l') = UringLoad.probe_sqpoll h make l in
        (((fd : ℕ) × (h.setup polled_ring 100 ≡ UringSetup.done fd) × (r ≡ make true))
          ⊎ ((e : ℕ) × (h.setup polled_ring 100 ≡ UringSetup.failed e) × (r ≡ make false)))
        × Closes l')
unfolding UringLoad.probe_sqpoll
probe_sqpoll-cases h make l even = elim (UringRelease.Answer-cases (h.setup polled_ring 100)) [
  | inl (fd, got) ↦
      rw (got, UringLoad.probe_sqpoll) (inl (fd, refl, refl), ap (λ k. k ++ pos fd ∷ []) even)
  | inr (e, lost) ↦ rw (lost, UringLoad.probe_sqpoll) (inr (e, refl, refl), even)
]

probe_error-import : (e : ℕ) → (text : String) × (UringLoad.probe_error e ≡ import_error text)
probe_error-import e = elim (Bool-cases (e == 38)) [
  | inl missing ↦ rw missing (_, refl)
  | inr known ↦ rw known (_, refl)
]

probe_ring-cases :
    (h : UringLoad.Host) (make : Bool → Result Ref) (l : UringFiles.Log)
    → Closes l
    → (let (r, l') = UringLoad.probe_ring h make l in UringProbes h make r × Closes l')
unfolding UringLoad.probe_ring
probe_ring-cases h make l even = elim (UringRelease.Answer-cases (h.setup plain_ring 0)) [
  | inl (fd, got) ↦
      let (made, closed) =
        probe_sqpoll-cases h make (UringLoad.log_close fd (UringFiles.log_open fd l))
          (ap (λ k. k ++ pos fd ∷ []) even) in
      rw (got, UringLoad.probe_ring) (inr (fd, refl, made), closed)
  | inr (e, lost) ↦
      let (text, said) = probe_error-import e in
      rw (lost, UringLoad.probe_ring) (inl (e, refl, (text, ap raise said)), even)
]

uring_imports :
    (h : UringLoad.Host) (make : Bool → Result Ref)
    → (let (r, l) = UringLoad.load h make UringFiles.empty_log in
        Loads h.uname (5, 6) (UringProbes h make) r × Closes l)
unfolding UringLoad.load
uring_imports h make = elim (Option-cases h.uname) [
  | inl unknown ↦ rw (unknown, UringLoad.load) (inl (refl, (_, refl)), refl)
  | inr (release, found) ↦ elim (uring_supported-cases release) [
    | inr (old, before) ↦
        rw (found, UringLoad.load, old) (inr (inl (release, refl, before, (_, refl))), refl)
    | inl (modern, since) ↦
        let (probed, closed) = probe_ring-cases h make UringFiles.empty_log refl in
        rw (found, UringLoad.load, modern) (inr (inr (release, refl, since, probed)), closed)
  ]
]

-- Every handle that was got to probe is given to io_destroy, once.
abbrev pub Gives : AioLoad.Handles → Type 0
Gives l = l.given ≡ l.got

aio_probes :
    (h : AioLoad.Host) (make : Result Ref) (answer : Opened)
    → h.io_setup ≡ answer
    → (let (r, l) = AioLoad.probe h make answer AioLoad.no_handles in AioProbes h make r × Gives l)
aio_probes h make (refused e) said = (inl (e, said, (_, refl)), refl)
aio_probes h make (opened c) said = elim (Option-cases (h.io_destroy c)) [
  | inl given ↦ rw given (inr (c, said, inl (given, refl)), refl)
  | inr (e, kept) ↦ rw kept (inr (c, said, inr (e, kept, (_, refl))), refl)
]

aio_imports :
    (h : AioLoad.Host) (make : Result Ref)
    → (let (r, l) = AioLoad.load h make AioLoad.no_handles in
        Loads h.uname (4, 18) (AioProbes h make) r × Gives l)
unfolding AioLoad.load
aio_imports h make = elim (Option-cases h.uname) [
  | inl unknown ↦ rw (unknown, AioLoad.load) (inl (refl, (_, refl)), refl)
  | inr (release, found) ↦ elim (aio_supported-cases release) [
    | inr (old, before) ↦
        rw (found, AioLoad.load, old) (inr (inl (release, refl, before, (_, refl))), refl)
    | inl (modern, since) ↦
        let (probed, given) = aio_probes h make h.io_setup refl in
        rw (found, AioLoad.load, modern) (inr (inr (release, refl, since, probed)), given)
  ]
]

-- Importing linux_uring raises ImportError where the release is not known, is before 5.6, or a plain
-- ring cannot be opened, and otherwise makes the module, told whether a ring with a polling thread can
-- be opened; importing linux_aio raises ImportError where the release is not known, is before 4.18, or
-- a handle cannot be got or not be given back, and otherwise makes the module. In each case
-- linux_uring closes each ring that it opened to probe and linux_aio gives the handle that it got to
-- io_destroy, once. What making the module answers is the answer of the import.
pub imports_clean :
    (u : UringLoad.Host) (a : AioLoad.Host) (make_uring : Bool → Result Ref) (make_aio : Result Ref)
    → (let (r, l) = UringLoad.load u make_uring UringFiles.empty_log in
        Loads u.uname (5, 6) (UringProbes u make_uring) r × Closes l)
      × (let (r, l) = AioLoad.load a make_aio AioLoad.no_handles in
          Loads a.uname (4, 18) (AioProbes a make_aio) r × Gives l)
imports_clean u a make_uring make_aio = (uring_imports u make_uring, aio_imports a make_aio)

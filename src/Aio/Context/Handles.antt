-- ===== src/Aio/Context/Handles.antt =====
-- What a Context opens and what AIOContext_dealloc gives back.
use caio.Base.{
  ◌==◌, if◌then◌else◌, ℤ, pos, Ref, ℕ, ◌≡◌, ◌≢◌, Bool, true, false, List, [], ◌∷◌, ◌++◌, arith,
}
use caio.Aio.State.{World}
use caio.Aio.Context.{ctx_max_requests_default, new, Opened, opened, refused, init, dealloc}

-- The file that the call of eventfd opened, if any, and the handle that io_setup gave.
abbrev pub files : Opened → List ℤ
files (refused e) = []
files (opened fd) = pos fd ∷ []

abbrev handle : Opened → List ℕ
handle (refused e) = []
handle (opened h) = h ∷ []

abbrev pub handles : Opened → (ℕ → Opened) → (parsed : Bool) → ℕ → List ℕ
handles (refused e) io_setup parsed n = []
handles (opened fd) io_setup false n = []
handles (opened fd) io_setup true n =
    handle (io_setup (if n == 0 then ctx_max_requests_default else n))

-- Whatever init ended in, dealloc closes the file that it opened and destroys the handle that it got,
-- each once, and nothing else, where the kernel gives no handle 0.
pub init-dealloc :
    (eventfd : Opened) (io_setup : ℕ → Opened) (c : Ref) (parsed : Bool) (n : ℕ) (w : World)
    → ((m : ℕ) → io_setup m ≢ opened 0)
    → let w' = dealloc c (init eventfd io_setup c parsed n (new c w)).1 in
      (w'.closed ≡ files eventfd ++ w.closed)
      × (w'.destroyed ≡ handles eventfd io_setup parsed n ++ w.destroyed)
      × (w'.freed ≡ c ∷ w.freed)
unfolding dealloc init new
init-dealloc (refused e) io_setup c parsed n w real = ground arith
init-dealloc (opened fd) io_setup c false n w real = ground arith
init-dealloc (opened fd) io_setup c true n w real =
    ground (arith, real (if n == 0 then ctx_max_requests_default else n))

-- A context that init never set up closes file 0 in dealloc: new leaves the zero of the allocator as
-- its file.
pub new-dealloc_closes : (c : Ref) (w : World) → (dealloc c (new c w)).closed ≡ pos 0 ∷ w.closed
unfolding dealloc new
new-dealloc_closes c w = ground arith

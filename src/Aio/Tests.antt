-- ===== src/Aio/Tests.antt =====
-- The theorems about caio/linux_aio.c at concrete inputs.
use caio.Base.{
  take, ℤ, pos, negsuc, Ref, unclaimed, propagated, ok, raise, int, Arg, operation, ℕ, ◌≡◌, refl,
  ◌⊎◌, true, false, some, List, [], ◌∷◌, ◌++◌, arith,
}
use caio.Aio.State.{blank, World}
use caio.Aio.Submit.{Answer, accepted, check_types, claim, unclaim, unclaim_all, submit}
use caio.Aio.Submit.Claims.{claimed_in}
use caio.Aio.Submit.Outcome.{Takes, expected, submit-Takes}
use caio.Aio.Context.{new, Opened, opened, init, dealloc}
use caio.Aio.Context.Handles.{files, handles, init-dealloc}
use caio.Aio.Events.{
  Event, Python, events, cancel_done, cancel_failed, Kernel, EventArgs, io_cancel_error, cancel,
}
use caio.Aio.Events.Delivery.{Keeps, Gives}
use caio.Aio.Events.Cancel.{Releases, cancel_cases}

-- The context is object 9, with a handle and an eventfd.
abbrev desk : World
desk = record {
  ops = λ i. blank;
  ctxs = λ i. record { ctx = 77; fileno = pos 6; max_requests = 32 };
  refs = λ i. 1;
  blocks = λ i. 5 ∷ 6 ∷ 7 ∷ [];
  queued = [];
  freed = [];
  destroyed = [];
  closed = [];
}

-- A kernel with room for one operation.
abbrev room_for_one : Ref → List Ref → Answer
room_for_one c ps = accepted 1

abbrev args : List Arg
args = operation 1 ∷ operation 2 ∷ operation 1 ∷ []

typed : check_types args ≡ ok (1 ∷ 2 ∷ 1 ∷ [])
unfolding check_types
typed = refl

submit-Takes_example :
    (let todo = unclaimed (claimed_in desk) (1 ∷ 2 ∷ 1 ∷ []) in
      let (r, w') = submit room_for_one true (some 9) (some args) desk in
      (r ≡ (expected room_for_one 9 todo).0)
      × Takes 9 (take (expected room_for_one 9 todo).1 todo) desk w')
submit-Takes_example =
    submit-Takes room_for_one 9 args (1 ∷ 2 ∷ 1 ∷ []) desk (λ p idle. refl) refl typed

abbrev eventfd_6 : Opened
eventfd_6 = opened 6

abbrev handle_77 : ℕ → Opened
handle_77 n = opened 77

init-dealloc_example :
    (let w' = dealloc 9 (init eventfd_6 handle_77 9 true 0 (new 9 desk)).1 in
      (w'.closed ≡ files eventfd_6 ++ desk.closed)
      × (w'.destroyed ≡ handles eventfd_6 handle_77 true 0 ++ desk.destroyed)
      × (w'.freed ≡ 9 ∷ desk.freed))
init-dealloc_example = init-dealloc eventfd_6 handle_77 9 true 0 desk (λ n. cc)

-- Callables that raise and do nothing.
abbrev raising : Python
raising = record { call = λ f arg w. (false, w); unraisable = λ f w. w }

raising-Keeps : Keeps raising
raising-Keeps = record {
  call_refs = λ f arg w. refl;
  call_ops = λ f arg w. refl;
  unraisable_refs = λ f w. refl;
  unraisable_ops = λ f w. refl;
}

-- The kernel gives the event of the operation 1, a read of two bytes, and cancels with -5.
abbrev one_event : List Event
one_event = record { data_ref = 1; res = pos 2 } ∷ []

abbrev kernel : Kernel
kernel = record {
  getevents = λ min max t w. (events one_event, w);
  io_cancel = λ p w. cancel_done (negsuc 4);
}

abbrev bounds : EventArgs
bounds = record { max_requests = 0; min_requests = 1; tv_sec = pos 0 }

abbrev after_submit : World
after_submit = (submit room_for_one true (some 9) (some args) desk).1

after_submit-Gives : Gives kernel 9 bounds one_event after_submit after_submit
unfolding submit claim unclaim unclaim_all
after_submit-Gives = record {
  has_handle = refl;
  small = omega arith;
  order = omega arith;
  got = refl;
}

cancel_cases_example :
    (let (r, w') = cancel kernel raising (some 9) (some (operation 1)) after_submit in
      ((res : ℤ) × (kernel.io_cancel 1 after_submit ≡ cancel_done res)
        × Releases 1 res after_submit w'
        × ((r ≡ ok (int res)) ⊎ (r ≡ raise propagated)))
      ⊎ ((e : ℕ) × (kernel.io_cancel 1 after_submit ≡ cancel_failed e)
          × (r ≡ raise (io_cancel_error e))
          × (w' ≡ after_submit)))
cancel_cases_example =
    cancel_cases kernel raising 9 1 after_submit raising-Keeps after_submit-Gives.has_handle

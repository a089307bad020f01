-- ===== src/Aio/System.antt =====
-- The calls from Python and the moves of the kernel on one context of linux_aio, interleaved in any
-- order.
pub mod Invariant
pub mod Safety
pub mod Lifecycle
pub mod Progress
pub mod Tests
use caio.Base.{
  ◌==◌, length, ℤ, Ref, ok, Arg, operation, made, ℕ, ◌≤◌, ◌≡◌, true, false, some, List, [], ◌∷◌,
  ◌++◌,
}
use caio.Aio.State.{World}
use caio.Aio.Submit.{Answer, check_types, submit}
use caio.Aio.Events.{
  Event, Python, cancel_done, cancel_failed, Kernel, EventArgs, or_default, process_events, cancel,
}
use caio.Aio.Events.Delivery.{Gives}
use caio.Aio.Events.Balance.{taken}

-- The state: the world, the operations that the kernel has taken and not yet completed, and the
-- events that it has made and no call has collected.
pub record System : Type 0 where
  pub world : World
  pub working : List Ref
  pub made : List Event

-- The steps on the context `c`, which has a handle. A submit takes what io_submit accepts; the kernel
-- completes what it has taken in any order; a call of process_events collects events from the oldest
-- on, no more than it asked for; and io_cancel ends an operation that the kernel works on, without an event, or fails.
pub data Step (py : Python) (c : Ref) (s : System) : System → Type 0 where
  submits :
      (io_submit : Ref → List Ref → Answer) (args : List Arg) (ps : List Ref)
      → ((s.world.ctxs c).ctx == 0) ≡ false
      → check_types args ≡ ok ps
      → Step py c s (record {
        world = (submit io_submit true (some c) (some args) s.world).1;
        working = s.working ++ taken io_submit c ps s.world;
        made = s.made;
      })
  completes :
      (js ks : List Ref) (p : Ref) (res : ℤ)
      → s.working ≡ js ++ p ∷ ks
      → Step py c s (record {
        world = s.world;
        working = js ++ ks;
        made = s.made ++ record { data_ref = p; res = res } ∷ [];
      })
  collects :
      (k : Kernel) (args : EventArgs) (es rest : List Event)
      → Gives k c args es s.world s.world
      → length es ≤ or_default args.max_requests
      → s.made ≡ es ++ rest
      → Step py c s (record {
        world = (process_events k py true c (some args) s.world).1;
        working = s.working;
        made = rest;
      })
  cancels :
      (k : Kernel) (js ks : List Ref) (p : Ref) (res : ℤ)
      → ((s.world.ctxs c).ctx == 0) ≡ false
      → s.working ≡ js ++ p ∷ ks
      → k.io_cancel p s.world ≡ cancel_done res
      → Step py c s (record {
        world = (cancel k py (some c) (some (operation p)) s.world).1;
        working = js ++ ks;
        made = s.made;
      })
  fails_to_cancel :
      (k : Kernel) (p e : ℕ)
      → ((s.world.ctxs c).ctx == 0) ≡ false
      → k.io_cancel p s.world ≡ cancel_failed e
      → Step py c s (record s { world = (cancel k py (some c) (some (operation p)) s.world).1 })

pub data Reach (py : Python) (c : Ref) (s : System) : System → Type 0 where
  here : Reach py c s s
  next : {t u : System} → Reach py c s t → Step py c t u → Reach py c s u

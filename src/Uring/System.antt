-- ===== src/Uring/System.antt =====
-- The calls from Python and the moves of the kernel on one ring, interleaved in any order.
pub mod Moves
pub mod Calls
pub mod Invariant
pub mod Steps
pub mod Callbacks
pub mod Methods
pub mod Waits
pub mod Safety
pub mod Measures
pub mod Counted
pub mod Recounted
pub mod References
pub mod Lifecycle
pub mod Whole
pub mod Progress
pub mod Tests
mod WholeTests
use caio.Base.{
  count, ℤ, u32, Ref, update, Result, Value, operation, ℕ, ◌+◌, ◌<◌, ◌≡◌, Bool, true, Option, some,
  List, [], ◌∷◌, ◌++◌, map,
}
use caio.Uring.State.{cancel_user_data, Context, slot, distance, World, set_ctx}
use caio.Uring.Submit.{submit}
use caio.Uring.Drain.{Python, drain}
use caio.Uring.Calls.{Flags, Kernel, flush, cancel}
use caio.Uring.Submit.Queue.{entry}
use caio.Uring.Submit.Refines.{staged}
use caio.Uring.Events.{Waiter, EventArgs, process_events}

-- The state: the world, and the entries that the kernel has taken and not yet completed, by their
-- user data.
pub record System : Type 0 where
  pub world : World
  pub working : List Ref

-- The kernel takes the entry at the head of the submission ring.
abbrev pub advance : Context → Context
advance x = record x { sq_head = u32 (x.sq_head + 1) }

-- It completes an entry with a result.
abbrev pub post : ℕ → ℤ → Context → Context
post p res x = record x {
  cqes = update x.cqes (slot x.cq_tail x.cq_ring_mask) (record { user_data = p; res = res });
  cq_tail = u32 (x.cq_tail + 1);
}

-- A kernel whose moves on the ring are steps of their own: its calls answer and do nothing else.
pub record IsPassive (k : Kernel) : Type 0 where
  pub enter_keeps : (c n : ℕ) (f : Flags) (w : World) → (k.enter c n f w).1 ≡ w
  pub read_keeps : (c : Ref) (w : World) → (k.read_counter c w).1 ≡ w

-- The same of the clock and of `poll`.
pub record IsPassiveWaiter (t : Waiter) : Type 0 where
  pub clock_keeps : (w : World) → (t.clock w).1 ≡ w
  pub poll_keeps : (c : Ref) (timeout : Option ℕ) (w : World) → (t.poll_fd c timeout w).1 ≡ w

-- Callbacks whose calls of the context are steps of their own, after the loop that calls them.
pub record IsApart (py : Python) : Type 0 where
  pub call_ops : (f : Ref) (res : ℤ) (w : World) → (py.call f res w).1.ops ≡ w.ops
  pub call_ctxs : (f : Ref) (res : ℤ) (w : World) → (py.call f res w).1.ctxs ≡ w.ctxs
  pub unraisable_ops : (f : Ref) (w : World) → (py.unraisable f w).ops ≡ w.ops
  pub unraisable_ctxs : (f : Ref) (w : World) → (py.unraisable f w).ctxs ≡ w.ctxs

-- The steps on the ring of the context `c`: the methods, the loop that two of them end in, and the
-- moves of the kernel. No object has the address that cancel uses, and the kernel completes what it
-- has taken in any order, while there is room in the completion ring.
pub data Step (k : Kernel) (py : Python) (c : Ref) (s : System) : System → Type 0 where
  submits :
      (ps : List Ref)
      → count cancel_user_data ps ≡ 0
      → Step k py c s (record s { world = (submit c (some (map operation ps)) s.world).1 })
  cancels : (p : Ref) → Step k py c s (record s { world = (cancel k c (some p) s.world).1 })
  drains : (max : ℕ) → Step k py c s (record s { world = (drain py true c max s.world).1 })
  flushes :
      (fuel : ℕ) (alloc : Bool) (r : Result Value) (w : World)
      → flush k py fuel alloc c s.world ≡ some (r, w)
      → Step k py c s (record s { world = w })
  processes :
      (t : Waiter) (fuel : ℕ) (alloc : Bool) (args : Option EventArgs) (r : Result Value)
      (w : World)
      → IsPassiveWaiter t
      → process_events k t py fuel alloc c args s.world ≡ some (r, w)
      → Step k py c s (record s { world = w })
  takes :
      0 < staged (s.world.ctxs c)
      → Step k py c s (record {
        world = set_ctx c (advance (s.world.ctxs c)) s.world;
        working = s.working ++ (entry (s.world.ctxs c) (s.world.ctxs c).sq_head).user_data ∷ [];
      })
  posts :
      (js ks : List Ref) (p : Ref) (res : ℤ)
      → s.working ≡ js ++ p ∷ ks
      → distance (s.world.ctxs c).cq_tail (s.world.ctxs c).cq_head
        < (s.world.ctxs c).cq_ring_mask + 1
      → Step k py c s
          (record { world = set_ctx c (post p res (s.world.ctxs c)) s.world; working = js ++ ks })

pub data Reach (k : Kernel) (py : Python) (c : Ref) (s : System) : System → Type 0 where
  here : Reach k py c s s
  next : {t u : System} → Reach k py c s t → Step k py c t u → Reach k py c s u

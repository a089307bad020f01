-- ===== src/Thread/System.antt =====
-- The calls from Python and the workers of the pools, interleaved in any order. The sections of
-- the source that hold the interpreter's lock, or the object's, are single steps.
pub mod Sound
pub mod Renewal
pub mod Invariant
pub mod Safety
pub mod Lifecycle
pub mod Progress
use caio.Base.{
  ◌==◌, if◌then◌else◌, count, erase, Ref, Result, Arg, ℕ, ◌+◌, ◌<◌, ◌≡◌, Bool, true, false, Option,
  none, some, List, [], ◌∷◌, ◌++◌,
}
use caio.Thread.State.{blank, World}
use caio.Thread.Operation.{
  clear, Alloc, ReadArgs, WriteArgs, read, write, fsync, fdsync, set_callback, payload,
}
use caio.Thread.Context.{close}
use caio.Thread.Submit.{Add, submit}
use caio.Thread.Worker.{Kernel, begin, perform, publish, retire, is_noop}

-- Where a run of `worker` stands.
pub data Phase : Type 0 where
  begun performed : Phase
  -- the callback is running
  published : Option Ref → Phase

-- A run of `worker`, with its argument and its local `ctx`.
pub record Job : Type 0 where
  pub op : Ref
  pub ctx : Option Ref
  pub phase : Phase

pub record System : Type 0 where
  pub world : World
  pub jobs : List Job

abbrev pub pending_phase : Phase → ℕ
pending_phase (published f) = 0
pending_phase _ = 1

-- How many runs of `worker` have yet to publish the operation `p`, and how many hold it.
abbrev pub pending : Ref → List Job → ℕ
pending p [] = 0
pending p (j ∷ js) = (if p == j.op then pending_phase j.phase else 0) + pending p js

abbrev pub running : Ref → List Job → ℕ
running p [] = 0
running p (j ∷ js) = (if p == j.op then 1 else 0) + running p js

-- No task and no worker refers to `p`: it may be collected, and its address used again.
abbrev pub Unused : Ref → System → Type 0
Unused p s = (count p s.world.tasks ≡ 0) × (running p s.jobs ≡ 0)

-- A call of one of the four constructors.
pub data Call : Type 0 where
  reads : Option ReadArgs → Call
  writes : Option WriteArgs → Call
  fsyncs fdsyncs : Option ℕ → Call

unfoldable pub create : Alloc → Call → World → Result Ref × World
create a (reads args) w = read a args w
create a (writes args) w = write a args w
create a (fsyncs args) w = fsync a args w
create a (fdsyncs args) w = fdsync a args w

abbrev pub with_world : World → System → System
with_world w s = record s { world = w }

-- A pool runs each task that it has accepted once, in an order of its own. Python code may run
-- between any two steps, the callbacks too.
pub data Step (k : Kernel) (s : System) : System → Type 0 where
  submits :
      (alloc : Bool) (add : Add) (self : Option Ref) (args : Option (List Arg))
      → Step k s (with_world (submit alloc add self args s.world).1 s)
  begins :
      (p : Ref)
      → 0 < count p s.world.tasks
      → is_noop (s.world.ops p).opcode ≡ false
      → Step k s (record {
        world = begin p (record (s.world) { tasks = erase p s.world.tasks });
        jobs = record { op = p; ctx = (s.world.ops p).ctx; phase = begun } ∷ s.jobs;
      })
  skips :
      (p : Ref)
      → 0 < count p s.world.tasks
      → is_noop (s.world.ops p).opcode ≡ true
      → Step k s (
          with_world
            (retire none
              (s.world.ops p).ctx
              p
              (begin p (record (s.world) { tasks = erase p s.world.tasks })))
            s)
  performs :
      (js ks : List Job) (p : Ref) (c : Option Ref)
      → s.jobs ≡ js ++ record { op = p; ctx = c; phase = begun } ∷ ks
      → Step k s (record {
        world = perform k p s.world;
        jobs = js ++ record { op = p; ctx = c; phase = performed } ∷ ks;
      })
  publishes :
      (js ks : List Job) (p : Ref) (c : Option Ref)
      → s.jobs ≡ js ++ record { op = p; ctx = c; phase = performed } ∷ ks
      → Step k s (record {
        world = publish p s.world;
        jobs = js ++ record { op = p; ctx = c; phase = published (s.world.ops p).callback } ∷ ks;
      })
  retires :
      (js ks : List Job) (p : Ref) (c f : Option Ref)
      → s.jobs ≡ js ++ record { op = p; ctx = c; phase = published f } ∷ ks
      → Step k s (record { world = retire f c p s.world; jobs = js ++ ks })
  creates :
      (a : Alloc) (call : Call)
      → ((p : Ref) → a.object ≡ some p → Unused p s)
      → Step k s (with_world (create a call s.world).1 s)
  sets_callback :
      (p : Ref) (callable : Ref → Bool) (f : Option Ref)
      → Step k s (with_world (set_callback p callable f s.world).1 s)
  gets_payload : (p : Ref) → Step k s (with_world (payload p s.world).1 s)
  clears : (p : Ref) → Unused p s → Step k s (with_world (clear p s.world) s)
  closes : (c : Ref) → Step k s (with_world (close c s.world).1 s)

-- At the start no operation is in use.
pub record Initial (s : System) : Type 0 where
  pub idle : (p : Ref) → s.world.ops p ≡ blank
  pub no_tasks : s.world.tasks ≡ []
  pub no_jobs : s.jobs ≡ []

pub data Reach (k : Kernel) (s : System) : System → Type 0 where
  here : Reach k s s
  next : {t u : System} → Reach k s t → Step k t u → Reach k s u

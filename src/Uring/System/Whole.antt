-- ===== src/Uring/System/Whole.antt =====
-- A Context of linux_uring from AIOContext_init on.
use caio.Uring.Setup as Setup
use caio.Base.{Ref, ok, ◌≡◌, sym, ap, ◌∙◌, subst, ◌≢◌, false, none, []}
use caio.Uring.State.{cancel_user_data, Context}
use caio.Uring.Drain.{Python}
use caio.Uring.Calls.{Kernel}
use caio.Uring.Submit.Accept.{IsKnown}
use caio.Uring.Submit.Queue.{pending}
use caio.Uring.Submit.Refines.{IsRing}
use caio.Uring.Drain.Reader.{ready}
use caio.Uring.System.{System, IsPassive, Reach}
use caio.Uring.System.Moves.{IsCq}
use caio.Uring.System.Invariant.{flight, places}
use caio.Uring.System.Safety.{Initial, Reach-Inv}
use caio.Uring.Files.{RawContext, new, Log, Memory, view}
use caio.Uring.Setup.Ready.{Serves, IsNew, init-IsNew}
use caio.Uring.System.Callbacks.{Reenters}

-- Both rings in order: no more entries are staged than the submission ring has, nor completions
-- waiting than the completion ring has.
pub record InOrder (x : Context) : Type 0 where
  pub ring : IsRing x
  pub cq : IsCq x

-- The system at the end of a call of init: the context is what the pointers of the object lead to, and
-- the operations are as the class methods leave them.
pub record Starts (c : Ref) (raw : RawContext) (m : Memory) (s : System) : Type 0 where
  pub context : s.world.ctxs c ≡ view raw m
  pub no_work : s.working ≡ []
  pub known : IsKnown s.world
  pub unclaimed_ops : (p : Ref) → (s.world.ops p).in_progress ≡ false
  pub not_done : (p : Ref) → (s.world.ops p).done ≡ false
  pub no_context : (p : Ref) → (s.world.ops p).context ≡ none

Starts-Initial :
    (c : Ref) (raw : RawContext) (m : Memory) (s : System)
    → IsNew (view raw m)
    → Starts c raw m s
    → Initial c s
Starts-Initial c raw m s new st = record {
  ring = subst IsRing (sym st.context) new.ring;
  cq = subst IsCq (sym st.context) new.cq;
  known = st.known;
  no_entries = ap pending st.context ∙ new.no_entries;
  no_work = st.no_work;
  no_completions = ap ready st.context ∙ new.no_completions;
  unclaimed_ops = st.unclaimed_ops;
  not_done = st.not_done;
  no_context = st.no_context;
}

-- On a kernel that serves new rings, from a call of init that succeeds, however the calls of the
-- methods and the moves of the kernel then interleave, both rings stay in order, and each operation in
-- flight is in just one place, any other in none. The calls of the kernel leave its moves to steps of
-- their own; callbacks may call the methods of the context while uring_drain_cq runs, what they do keeps
-- the invariant; the operations start unclaimed with known opcodes, and the address that cancel uses is
-- no operation's.
pub init-Reach-InOrder :
    (ks : Setup.Kernel) (m : Memory) (args : Setup.Parsed) (raw : RawContext) (l : Log) (k : Kernel)
    (py : Python) (c : Ref) (s t : System) (p : Ref)
    → Serves ks m
    → (Setup.init ks args raw l).0 ≡ ok tt
    → Starts c (Setup.init ks args raw l).1 m s
    → IsPassive k
    → Reenters py c
    → Reach k py c s t
    → p ≢ cancel_user_data
    → InOrder (t.world.ctxs c) × (places p (t.world.ctxs c) t.working ≡ flight (t.world.ops p))
init-Reach-InOrder ks m args raw l k py c s t p serves fine starts passive re reach real =
    let start =
      Starts-Initial c (Setup.init ks args raw l).1 m s (init-IsNew ks m args raw l serves fine)
        starts in
    let inv = Reach-Inv k py c s t passive re start reach in
    (record { ring = inv.at.ring; cq = inv.at.cq }, inv.at.one_place p real)

-- ===== src/Uring/System/WholeTests.antt =====
-- The theorem about a whole Context at a concrete kernel.
use caio.Uring.Setup as Setup
use caio.Uring.Setup.Tests as SetupTests
use caio.Uring.System.Tests as RunTests
use caio.Base.{operation, ◌≡◌, refl, some, [], ◌∷◌, map, arith}
use caio.Uring.State.{uring_fsync, blank}
use caio.Uring.Submit.{fill_sqe, submit}
use caio.Uring.System.{System, submits, here, next}
use caio.Uring.System.Invariant.{flight, places}
use caio.Uring.Files.{RawContext, new, empty_log, view}
use caio.Uring.System.Whole.{InOrder, Starts, init-Reach-InOrder}
use caio.Uring.System.Callbacks.{IsApart-Reenters}

abbrev opened : RawContext
opened = (Setup.init SetupTests.kernel SetupTests.args new empty_log).1

-- Every operation is a sync, and the context is object 9.
abbrev after_init : System
after_init = record {
  world = record {
    ops = λ i. record blank { opcode = uring_fsync };
    ctxs = λ i. view opened SetupTests.memory;
    refs = λ i. 1;
    blocks = λ i. [];
    calls = [];
  };
  working = [];
}

after_init-Starts : Starts 9 opened SetupTests.memory after_init
unfolding fill_sqe
after_init-Starts = record {
  context = refl;
  no_work = refl;
  known = λ p. ground arith;
  unclaimed_ops = λ p. refl;
  not_done = λ p. refl;
  no_context = λ p. refl;
}

abbrev submitted : System
submitted = record after_init {
  world = (submit 9 (some (map operation (1 ∷ 2 ∷ []))) after_init.world).1;
}

init-Reach-InOrder_example :
    InOrder (submitted.world.ctxs 9)
    × (places 1 (submitted.world.ctxs 9) submitted.working ≡ flight (submitted.world.ops 1))
init-Reach-InOrder_example =
    init-Reach-InOrder SetupTests.kernel SetupTests.memory SetupTests.args new empty_log
      RunTests.passive RunTests.quiet 9 after_init submitted 1 SetupTests.kernel-Serves
      SetupTests.succeeds after_init-Starts RunTests.passive-IsPassive
      (IsApart-Reenters RunTests.quiet 9 RunTests.quiet-IsApart)
      (next here (submits (1 ∷ 2 ∷ []) refl)) (λ h. ground (arith, h))

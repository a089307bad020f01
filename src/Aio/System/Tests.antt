-- ===== src/Aio/System/Tests.antt =====
-- The theorem about a context of linux_aio at a concrete run.
use caio.Base.{
  ◌==◌, if◌then◌else◌, pos, negsuc, Ref, unclaimed, Arg, operation, ◌+◌, ◌≡◌, refl, true, false,
  some, List, [], ◌∷◌, ◌++◌, arith,
}
use caio.Aio.State.{blank}
use caio.Aio.Submit.{
  Answer, accepted, check_types, claim, unclaim, claim_all, unclaim_all, hand_over, submit_checked,
  submit_args, submit,
}
use caio.Aio.Events.{
  Event, Python, settle, deliver_one, deliver, events, cancel_done, Kernel, EventArgs, collect,
  process_events, cancel,
}
use caio.Aio.Events.Delivery.{Keeps}
use caio.Aio.Events.Balance.{taken}
use caio.Aio.System.{System, Step, submits, completes, collects, cancels, Reach, here, next}
use caio.Aio.System.Invariant.{flight, holder, places, in_flight}
use caio.Aio.System.Safety.{Initial, operations_held}
use caio.Aio.System.Progress.{KeepsContexts, Finishes, claimed-Finishes}

-- The context is object 9, with a handle and an eventfd. No operation is claimed.
abbrev pub start : System
start = record {
  world = record {
    ops = λ i. blank;
    ctxs = λ i. record { ctx = 77; fileno = pos 6; max_requests = 32 };
    refs = λ i. 1;
    blocks = λ i. [];
    queued = [];
    freed = [];
    destroyed = [];
    closed = [];
  };
  working = [];
  made = [];
}

pub start-Initial : Initial start
start-Initial = record {
  no_work = refl;
  no_events = refl;
  unclaimed_ops = λ p. refl;
  not_done = λ p. refl;
  no_context = λ p. refl;
}

-- Callables that raise and do nothing.
abbrev pub raising : Python
raising = record { call = λ f arg w. (false, w); unraisable = λ f w. w }

pub raising-Keeps : Keeps raising
raising-Keeps = record {
  call_refs = λ f arg w. refl;
  call_ops = λ f arg w. refl;
  unraisable_refs = λ f w. refl;
  unraisable_ops = λ f w. refl;
}

-- Operations 1 and 2 are submitted, the kernel completes 1, whose event is collected, and cancels 2.
abbrev room_for_two : Ref → List Ref → Answer
room_for_two c ps = accepted 2

abbrev args : List Arg
args = operation 1 ∷ operation 2 ∷ []

abbrev submitted : System
submitted = record {
  world = (submit room_for_two true (some 9) (some args) start.world).1;
  working = start.working ++ taken room_for_two 9 (1 ∷ 2 ∷ []) start.world;
  made = [];
}

abbrev finished : Event
finished = record { data_ref = 1; res = pos 2 }

abbrev completed : System
completed = record { world = submitted.world; working = 2 ∷ []; made = finished ∷ [] }

abbrev kernel : Kernel
kernel = record {
  getevents = λ min max t w. (events (finished ∷ []), w);
  io_cancel = λ p w. cancel_done (negsuc 124);
}

abbrev bounds : EventArgs
bounds = record { max_requests = 0; min_requests = 1; tv_sec = pos 0 }

abbrev collected : System
collected = record {
  world = (process_events kernel raising true 9 (some bounds) completed.world).1;
  working = 2 ∷ [];
  made = [];
}

abbrev pub canceled_two : System
canceled_two = record {
  world = (cancel kernel raising (some 9) (some (operation 2)) collected.world).1;
  working = [];
  made = [];
}

start-submitted : Step raising 9 start submitted
unfolding check_types
start-submitted = submits room_for_two args (1 ∷ 2 ∷ []) refl refl

submitted-completed : Step raising 9 submitted completed
unfolding unclaimed
submitted-completed = completes [] (2 ∷ []) 1 (pos 2) refl

completed-collected : Step raising 9 completed collected
unfolding submit submit_args submit_checked check_types claim_all hand_over claim unclaim
    unclaim_all
completed-collected =
    collects kernel bounds (finished ∷ []) []
      (record { has_handle = refl; small = omega arith; order = omega arith; got = refl })
      (omega arith) refl

collected-canceled_two : Step raising 9 collected canceled_two
unfolding submit submit_args submit_checked check_types claim_all hand_over claim unclaim
    unclaim_all process_events collect deliver deliver_one settle
collected-canceled_two = cancels kernel [] [] 2 (negsuc 124) refl refl refl

pub run : Reach raising 9 start canceled_two
run =
    next (next (next (next here start-submitted) submitted-completed) completed-collected)
      collected-canceled_two

operations_held_example :
    (places 2 canceled_two.working canceled_two.made ≡ flight (canceled_two.world.ops 2))
    × ((canceled_two.world.ops 2).context ≡ holder 9 (canceled_two.world.ops 2))
    × (canceled_two.world.refs 2
        ≡ start.world.refs 2
          + flight (canceled_two.world.ops 2)
          + (if 2 == 9 then in_flight canceled_two.working canceled_two.made else 0))
operations_held_example =
    operations_held raising 9 start canceled_two 2 raising-Keeps start-Initial run

raising-KeepsContexts : KeepsContexts raising
raising-KeepsContexts = record { call_ctxs = λ f arg w. refl; unraisable_ctxs = λ f w. refl }

submitted-flight : flight (submitted.world.ops 2) ≡ 1
unfolding submit submit_args submit_checked check_types claim_all hand_over claim unclaim
    unclaim_all
submitted-flight = refl

submitted-handle : ((submitted.world.ctxs 9).ctx == 0) ≡ false
unfolding submit submit_args submit_checked check_types claim_all hand_over claim unclaim
    unclaim_all
submitted-handle = refl

claimed-Finishes_example : Finishes raising 9 submitted 2
claimed-Finishes_example =
    claimed-Finishes raising 9 start submitted 2 raising-Keeps raising-KeepsContexts start-Initial
      (next here start-submitted) submitted-handle submitted-flight

-- ===== src/Uring/System/Tests.antt =====
-- The theorem about a ring at a concrete run.
use native.Mathlib.Nat.{dvd-mul_left}
use caio.Base.{
  ◌==◌, if◌then◌else◌, pos, operation, ◌+◌, ◌-◌, ◌^◌, ◌≡◌, refl, true, false, none, some, [], ◌∷◌,
  ◌++◌, map, arith,
}
use caio.Uring.State.{uring_fsync, blank, zero_sqe, Context, set_ctx}
use caio.Uring.Submit.{
  check_types, fill_sqe, put_sqe, hold, stage, submit_checked, submit_args, submit,
}
use caio.Uring.Drain.{Python, settle, scan, commit, deliver, drain}
use caio.Uring.Calls.{accepted, Kernel, cancel}
use caio.Uring.Submit.Queue.{entry}
use caio.Uring.System.{
  System, advance, post, IsPassive, IsApart, Step, submits, cancels, drains, takes, posts, Reach,
  here, next,
}
use caio.Uring.System.Invariant.{flight, holder, places, submits-Inv}
use caio.Uring.System.Safety.{Initial, in_one_place}
use caio.Uring.System.References.{references_held}
use caio.Uring.System.Progress.{Finishes, flight-Finishes}
use caio.Uring.System.Callbacks.{Reenters}
use caio.Uring.System.Counted.{in_flight, submits-Counted}
use caio.Uring.System.Recounted.{KeepsCounted}

-- New rings of four entries, whose indices are about to wrap around. Every operation is a sync with a
-- callback.
abbrev ring4 : Context
ring4 = record {
  uring_fd = pos 7;
  eventfd_fd = pos 8;
  max_requests = 3;
  sq_head = 2 ^ 32 - 1;
  sq_tail = 2 ^ 32 - 1;
  sq_ring_mask = 3;
  sq_ring_entries = 4;
  sq_need_wakeup = false;
  sq_array = λ i. i;
  sqes = λ i. zero_sqe;
  cq_head = 2 ^ 32 - 1;
  cq_tail = 2 ^ 32 - 1;
  cq_ring_mask = 3;
  cqes = λ i. record { user_data = 0; res = pos 0 };
  no_sqarray = true;
  sqpoll = false;
}

abbrev pub start : System
start = record {
  world = record {
    ops = λ i. record blank { opcode = uring_fsync; callback = some 5 };
    ctxs = λ i. ring4;
    refs = λ i. 1;
    blocks = λ i. [];
    calls = [];
  };
  working = [];
}

pub start-Initial : Initial 9 start
unfolding fill_sqe
start-Initial = record {
  ring = record {
    is_open = refl;
    queue = record {
      mask = refl;
      whole = dvd-mul_left 4 (2 ^ 30);
      short = omega arith;
      small = omega arith;
      indexed = λ i lt listed. absurd (omega arith);
    };
    fits = omega arith;
    small = omega arith;
  };
  cq = record {
    whole = dvd-mul_left 4 (2 ^ 30);
    small = omega arith;
    head = omega arith;
    tail = omega arith;
    fits = omega arith;
  };
  known = λ p. ground arith;
  no_entries = refl;
  no_work = refl;
  no_completions = refl;
  unclaimed_ops = λ p. refl;
  not_done = λ p. refl;
  no_context = λ p. refl;
}

abbrev pub quiet : Python
quiet = record { new_int = λ res. true; call = λ f res w. (true, w); unraisable = λ f w. w }

pub quiet-IsApart : IsApart quiet
quiet-IsApart = record {
  call_ops = λ f res w. refl;
  call_ctxs = λ f res w. refl;
  unraisable_ops = λ f w. refl;
  unraisable_ctxs = λ f w. refl;
}

abbrev pub passive : Kernel
passive = record { enter = λ c n flags w. (accepted n, w); read_counter = λ c w. (none, w) }

pub passive-IsPassive : IsPassive passive
passive-IsPassive = record { enter_keeps = λ c n f w. refl; read_keeps = λ c w. refl }

-- Operations 1 and 2 are staged, 2 is cancelled, the kernel completes 1, and the ring is drained.
abbrev submitted : System
submitted = record start { world = (submit 9 (some (map operation (1 ∷ 2 ∷ []))) start.world).1 }

abbrev canceled : System
canceled = record submitted { world = (cancel passive 9 (some 2) submitted.world).1 }

abbrev begun : System
begun = record {
  world = set_ctx 9 (advance (canceled.world.ctxs 9)) canceled.world;
  working =
      canceled.working
      ++ (entry (canceled.world.ctxs 9) (canceled.world.ctxs 9).sq_head).user_data ∷ [];
}

abbrev posted : System
posted = record {
  world = set_ctx 9 (post 1 (pos 0) (begun.world.ctxs 9)) begun.world;
  working = [];
}

abbrev pub drained : System
drained = record posted { world = (drain quiet true 9 512 posted.world).1 }

canceled-begun : (py : Python) → Step passive py 9 canceled begun
unfolding submit submit_args submit_checked check_types stage hold put_sqe fill_sqe cancel
canceled-begun py = takes (omega arith)

begun-posted : (py : Python) → Step passive py 9 begun posted
unfolding submit submit_args submit_checked check_types stage hold put_sqe fill_sqe cancel
begun-posted py = posts [] [] 1 (pos 0) refl (omega arith)

posted_run : (py : Python) → Reach passive py 9 start posted
posted_run py =
    next (next (next (next here (submits (1 ∷ 2 ∷ []) refl)) (cancels 2)) (canceled-begun py))
      (begun-posted py)

pub run : Reach passive quiet 9 start drained
run = next (posted_run quiet) (drains 512)

-- Each callback submits operation 3.
abbrev eager : Python
eager = record {
  new_int = λ res. true;
  call = λ f res w. (true, (submit 9 (some (map operation (3 ∷ []))) w).1);
  unraisable = λ f w. w;
}

eager-Reenters : Reenters eager 9
eager-Reenters = record {
  call_keeps =
      λ f res w working inv. submits-Inv 9 (3 ∷ []) (record { world = w; working = working }) inv;
  unraisable_keeps = λ f w working inv. inv;
}

abbrev resubmitted : System
resubmitted = record posted { world = (drain eager true 9 512 posted.world).1 }

in_one_place_example :
    places 3 (resubmitted.world.ctxs 9) resubmitted.working ≡ flight (resubmitted.world.ops 3)
in_one_place_example =
    in_one_place passive eager 9 start resubmitted 3 passive-IsPassive eager-Reenters start-Initial
      (next (posted_run eager) (drains 512)) (λ h. ground (arith, h))

resubmitted-flight : flight (resubmitted.world.ops 3) ≡ 1
unfolding submit submit_args submit_checked check_types stage hold put_sqe fill_sqe cancel drain
    scan settle commit deliver
resubmitted-flight = refl

eager-KeepsCounted : KeepsCounted eager 9
eager-KeepsCounted = record {
  call_keeps = λ f res base w working inv k.
      submits-Counted base 9 (3 ∷ []) (record { world = w; working = working }) refl inv k;
  unraisable_keeps = λ f base w working inv k. k;
}

references_held_example :
    (resubmitted.world.refs 3
      ≡ start.world.refs 3
        + flight (resubmitted.world.ops 3)
        + (if 3 == 9 then in_flight (resubmitted.world.ctxs 9) resubmitted.working else 0))
    × ((resubmitted.world.ops 3).context ≡ holder 9 (resubmitted.world.ops 3))
references_held_example =
    references_held passive eager 9 start resubmitted 3 passive-IsPassive eager-Reenters
      eager-KeepsCounted start-Initial (next (posted_run eager) (drains 512))
      (λ h. ground (arith, h))

canceled-run : Reach passive quiet 9 start canceled
canceled-run = next (next here (submits (1 ∷ 2 ∷ []) refl)) (cancels 2)

canceled-flight : flight (canceled.world.ops 2) ≡ 1
unfolding submit submit_args submit_checked check_types stage hold put_sqe fill_sqe cancel
canceled-flight = refl

flight-Finishes_example : Finishes passive quiet 9 canceled 2
flight-Finishes_example =
    flight-Finishes passive quiet 9 start canceled 2 passive-IsPassive quiet-IsApart start-Initial
      canceled-run (λ h. ground (arith, h)) canceled-flight

-- ===== src/Uring/System/Waits.antt =====
-- AIOContext_process_events, the moves of the kernel apart: uring_drain_cq, or nothing.
use caio.Base.{
  ltb, leb, ◌==◌, if◌then◌else◌, Bool-cases, Option-cases, ℤ, pos, negsuc, Ref, ℕ, zero, suc, ◌≡◌,
  refl, sym, ◌∙◌, subst, inl, inr, Bool, Option, none, some,
}
use caio.Uring.State.{World}
use caio.Uring.Drain.{Python, drain}
use caio.Uring.Calls.{getevents, Kernel, return_count}
use caio.Uring.Events.{
  eintr, int_max, Timespec, Poll, readable, timed_out, poll_failed, Waiter, Waited, waited,
  unfinished, wait_failed, Turn, again, stop, available, error_of, remaining_ms, at_most, doze,
  sleep, turn, wait, wait_for, deliver_after, EventArgs, or_default, process_events,
}
use caio.Uring.System.{IsPassive, IsPassiveWaiter}
use caio.Uring.System.Methods.{after, Drains, drain-Drains}

module _ (k : Kernel) (py : Python) (c : Ref) (passive : IsPassive k) (t : Waiter)
    (still : IsPassiveWaiter t) where
  doze-keeps : (timeout : Option ℕ) (w : World) → (doze k t c timeout w).1 ≡ w
  unfolding doze
  doze-keeps timeout w =
      dozed (t.poll_fd c timeout w).0 (t.poll_fd c timeout w).1 (still.poll_keeps c timeout w)
    where
      dozed :
          (r : Poll) (w' : World)
          → w' ≡ w
          → (elim r as (λ x. Turn × World) [
            | poll_failed e ↦ (if e == eintr then again else stop (wait_failed e), w')
            | readable ↦ (again, (k.read_counter c w').1)
            | timed_out ↦ (again, w')
          ]).1
            ≡ w
      dozed (poll_failed e) w' same = same
      dozed readable w' same = passive.read_keeps c w' ∙ same
      dozed timed_out w' same = same

  sleep-keeps : (deadline : Option Timespec) (w : World) → (sleep k t c deadline w).1 ≡ w
  unfolding sleep
  sleep-keeps none w = doze-keeps none w
  sleep-keeps (some deadline) w =
      let (now, w') = t.clock w in
      elim (Bool-cases (remaining_ms deadline now == 0)) [
        | inl late ↦ rw late (still.clock_keeps w)
        | inr early ↦ rw early (
            doze-keeps (some (at_most int_max (remaining_ms deadline now))) w'
            ∙ still.clock_keeps w)
      ]

  turn-keeps :
      (min : ℕ) (deadline : Option Timespec) (w : World) → (turn k t c min deadline w).1 ≡ w
  unfolding turn
  turn-keeps min deadline w =
      let entered = passive.enter_keeps c 0 getevents w in
      let (a, w') = k.enter c 0 getevents w in
      let slept = sleep-keeps deadline w' ∙ entered in
      elim (Bool-cases (leb min (available (w.ctxs c)))) [
        | inl enough ↦ rw enough refl
        | inr few ↦ elim (Option-cases (error_of a)) [
          | inl fine ↦ elim (Bool-cases (leb min (available (w'.ctxs c)))) [
            | inl more ↦ rw (few, fine, more) entered
            | inr still_few ↦ rw (few, fine, still_few) slept
          ]
          | inr (e, failing) ↦ rw (few, failing) entered
        ]
      ]

  wait-keeps :
      (fuel min : ℕ) (deadline : Option Timespec) (w : World)
      → (wait k t fuel c min deadline w).1 ≡ w
  unfolding wait
  wait-keeps zero min deadline w = refl
  wait-keeps (suc fuel) min deadline w =
      turned (turn k t c min deadline w).0 (turn k t c min deadline w).1 (turn-keeps min deadline w)
        (λ v. wait-keeps fuel min deadline v)
    where
      turned :
          (r : Turn) (w' : World)
          → w' ≡ w
          → ((v : World) → (wait k t fuel c min deadline v).1 ≡ v)
          → (elim r as (λ x. Waited × World) [
            | stop s ↦ (s, w')
            | again ↦ wait k t fuel c min deadline w'
          ]).1
            ≡ w
      turned (stop s) w' same rest = same
      turned again w' same rest = rest w' ∙ same

  wait_for-keeps :
      (fuel min : ℕ) (tv_sec : ℤ) (w : World) → (wait_for k t fuel c min tv_sec w).1 ≡ w
  unfolding wait_for
  wait_for-keeps fuel min (pos zero) w =
      let entered = passive.enter_keeps c 0 getevents w in
      elim (Option-cases (error_of (k.enter c 0 getevents w).0)) [
        | inl fine ↦ rw (fine, wait_for) entered
        | inr (e, failing) ↦ rw (failing, wait_for) entered
      ]
  wait_for-keeps fuel min (pos (suc n)) w =
      wait-keeps fuel min _ (t.clock w).1 ∙ still.clock_keeps w
  wait_for-keeps fuel min (negsuc n) w = wait-keeps fuel min none w

  deliver_after-Drains :
      (alloc : Bool) (max : ℕ) (s : Waited) (w w' : World)
      → w' ≡ w
      → Drains py c w (after w (deliver_after py alloc c max (s, w')))
  deliver_after-Drains alloc max waited w w' same =
      subst (λ v. Drains py c w (after w (some (return_count (drain py alloc c max v))))) (sym same)
        (drain-Drains py alloc c max w)
  deliver_after-Drains alloc max (wait_failed e) w w' same = inl same
  deliver_after-Drains alloc max unfinished w w' same = inl refl

  pub process_events-Drains :
      (fuel : ℕ) (alloc : Bool) (args : Option EventArgs) (w : World)
      → Drains py c w (after w (process_events k t py fuel alloc c args w))
  unfolding process_events
  process_events-Drains fuel alloc none w = inl refl
  process_events-Drains fuel alloc (some args) w =
      let max = or_default args.max_requests in
      let r = wait_for k t fuel c args.min_requests args.tv_sec w in
      elim (Bool-cases (ltb max args.min_requests)) [
        | inl bad ↦ rw bad (inl refl)
        | inr good ↦ elim (Bool-cases (args.min_requests == 0)) [
          | inl no_wait ↦ rw (good, no_wait) (drain-Drains py alloc c max w)
          | inr waits ↦
              rw (good, waits)
                (deliver_after-Drains alloc max r.0 w r.1
                  (wait_for-keeps fuel args.min_requests args.tv_sec w))
        ]
      ]

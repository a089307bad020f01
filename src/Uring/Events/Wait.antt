-- ===== src/Uring/Events/Wait.antt =====
-- When AIOContext_process_events returns.
use caio.Base.{
  ltb, leb, ◌==◌, Bool-cases, Option-cases, pos, negsuc, Ref, Result, Value, ℕ, zero, suc, ◌-◌, ◌≤◌,
  ◌<◌, ◌≡◌, refl, ap, ◌≢◌, ◌⊎◌, inl, inr, Bool, false, Option, none, some, arith,
}
use caio.Uring.State.{World}
use caio.Uring.Drain.{Python, drain}
use caio.Uring.Calls.{getevents, accepted, Kernel, return_count}
use caio.Uring.Events.{
  readable, Waiter, Waited, waited, unfinished, wait_failed, Turn, again, stop, available, error_of,
  doze, sleep, turn, wait, wait_for, deliver_after, or_default, process_events,
}

abbrev pub Answers : Option (Result Value × World) → Type 0
Answers out = (r : Result Value × World) × (out ≡ some r)

deliver_after-Answers :
    (py : Python) (alloc : Bool) (c : Ref) (max : ℕ) (s : Waited) (w : World)
    → s ≢ unfinished
    → Answers (deliver_after py alloc c max (s, w))
deliver_after-Answers py alloc c max waited w ended = (_, refl)
deliver_after-Answers py alloc c max (wait_failed e) w ended = (_, refl)
deliver_after-Answers py alloc c max unfinished w ended = absurd (ended refl)

wait_for-ends :
    (k : Kernel) (t : Waiter) (fuel c min : ℕ) (w : World)
    → (wait_for k t fuel c min (pos 0) w).0 ≢ unfinished
unfolding wait_for
wait_for-ends k t fuel c min w = elim (Option-cases (error_of (k.enter c 0 getevents w).0)) [
  | inl e ↦ rw (e, wait_for) (λ h. ground (arith, h))
  | inr (n, e) ↦ rw (e, wait_for) (λ h. ground (arith, h))
]

-- With a timeout of 0 the call returns whatever the kernel answers: it needs no fuel.
pub process_events-Answers :
    (k : Kernel) (t : Waiter) (py : Python) (alloc : Bool) (c max min : ℕ) (w : World)
    → Answers (
        process_events k t py 0 alloc c
          (some (record { max_requests = max; min_requests = min; tv_sec = pos 0 }))
          w)
unfolding process_events
process_events-Answers k t py alloc c max min w = elim (Bool-cases (ltb (or_default max) min)) [
  | inl bad ↦ rw bad (_, refl)
  | inr good ↦ elim (Bool-cases (min == 0)) [
    | inl no_wait ↦ rw (good, no_wait) (_, refl)
    | inr waits ↦
        rw (good, waits)
          (deliver_after-Answers py alloc c (or_default max) (wait_for k t 0 c min (pos 0) w).0
            (wait_for k t 0 c min (pos 0) w).1 (wait_for-ends k t 0 c min w))
  ]
]

-- A kernel on which a wait for `min` completions makes progress: while there are fewer, its calls
-- succeed and take none away, and `poll` without a timeout returns when there is another one.
pub record Posts (k : Kernel) (t : Waiter) (c min : ℕ) : Type 0 where
  pub enters :
      (w : World)
      → ((n : ℕ) × ((k.enter c 0 getevents w).0 ≡ accepted n))
        × (available (w.ctxs c) ≤ available ((k.enter c 0 getevents w).1.ctxs c))
  pub polls :
      (w : World)
      → available (w.ctxs c) < min
      → ((t.poll_fd c none w).0 ≡ readable)
        × (available (w.ctxs c) < available ((t.poll_fd c none w).1.ctxs c))
  pub reads : (w : World) → available (w.ctxs c) ≤ available ((k.read_counter c w).1.ctxs c)

-- A turn ends the wait, or there are more completions after it.
abbrev Proceeds : Ref → ℕ → World → Turn × World → Type 0
Proceeds c min w (r, w') =
    ((r ≡ stop waited) × (min ≤ available (w'.ctxs c)))
    ⊎ ((r ≡ again) × (available (w.ctxs c) < min) × (available (w.ctxs c) < available (w'.ctxs c)))

turn-Proceeds :
    (k : Kernel) (t : Waiter) (c min : ℕ) (w : World)
    → Posts k t c min
    → Proceeds c min w (turn k t c min none w)
unfolding turn sleep doze
turn-Proceeds k t c min w h =
    let w1 = (k.enter c 0 getevents w).1 in
    let ((n, ok_enter), more) = h.enters w in
    elim (Bool-cases (leb min (available (w.ctxs c)))) [
      | inl enough ↦ rw (turn, enough) (inl (refl, ground (arith, enough)))
      | inr few ↦ elim (Bool-cases (leb min (available (w1.ctxs c)))) [
        | inl enough ↦ rw (turn, few, ok_enter, enough) (inl (refl, ground (arith, enough)))
        | inr few1 ↦
            let (ready, grows) = h.polls w1 (ground (arith, few1)) in
            rw (turn, few, ok_enter, few1, doze, ready)
              (inr (
                refl,
                ground (arith, few),
                omega (arith, more, grows, h.reads (t.poll_fd c none w1).1),
              ))
      ]
    ]

wait-Waits :
    (k : Kernel) (t : Waiter) (fuel c min : ℕ) (w : World)
    → Posts k t c min
    → min - available (w.ctxs c) < fuel
    → (w' : World) × (wait k t fuel c min none w ≡ (waited, w')) × (min ≤ available (w'.ctxs c))
unfolding wait
wait-Waits k t zero c min w h enough = absurd (omega arith)
wait-Waits k t (suc fuel) c min w h enough =
    let w1 = (turn k t c min none w).1 in
    elim (turn-Proceeds k t c min w h) [
      | inl (ended, full) ↦ (w1, rw (ended, wait) refl, full)
      | inr (going, short, grows) ↦
          let (w', run, full) =
            wait-Waits k t fuel c min w1 h (omega (arith, enough, short, grows)) in
          (w', rw (going, wait) run, full)
    ]

-- With a negative timeout, on a kernel that posts completions while there are fewer than asked for,
-- with min_requests positive and at most max_requests or its default, the call returns: it drains
-- once there are min_requests of them.
pub process_events-Waits :
    (k : Kernel) (t : Waiter) (py : Python) (fuel : ℕ) (alloc : Bool) (c max min n : ℕ) (w : World)
    → Posts k t c min
    → 0 < min
    → min ≤ or_default max
    → min < fuel
    → (w' : World) × (process_events k t py fuel alloc c
          (some (record { max_requests = max; min_requests = min; tv_sec = negsuc n }))
          w
        ≡ some (return_count (drain py alloc c (or_default max) w')))
      × (min ≤ available (w'.ctxs c))
unfolding process_events wait_for
process_events-Waits k t py fuel alloc c max min n w h asked allowed enough =
    let good : ltb (or_default max) min ≡ false = ground (arith, allowed) in
    let waits : (min == 0) ≡ false = ground arith in
    let (w', run, full) = wait-Waits k t fuel c min w h (omega arith) in
    (w', rw (good, waits) (ap (deliver_after py alloc c (or_default max)) run), full)

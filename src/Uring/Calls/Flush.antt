-- ===== src/Uring/Calls/Flush.antt =====
-- The loop of AIOContext_flush: when it ends, and when not.
use caio.Base.{
  ◌==◌, is_neg, u32, Ref, system_error, Result, ok, raise, ℕ, zero, suc, ◌+◌, ◌-◌, ◌^◌, ◌≤◌, ◌<◌,
  ◌≡◌, refl, ap, ◌∙◌, ◌⊎◌, inl, inr, Bool, false, Option, none, some, arith,
}
use caio.Uring.State.{distance, World}
use caio.Uring.Drain.{Python, drain}
use caio.Uring.Calls.{
  plain, Answer, accepted, failed, Kernel, uint32_max, return_count, enter_all, then_drain,
  flush_plain, flush,
}

-- What `io_uring_enter` answers to a positive number of entries while no other thread submits on the
-- same ring: it fails, or takes at least one and at most as many as it was given.
abbrev pub Consumes : Kernel → Ref → Type 0
Consumes k c =
    (n : ℕ) (w : World)
    → ((e : ℕ) × ((k.enter c (suc n) plain w).0 ≡ failed e))
      ⊎ ((r : ℕ) × ((k.enter c (suc n) plain w).0 ≡ accepted r) × (0 < r) × (r ≤ suc n))

-- The kernel took `n` entries, in one call or in several.
pub data Submits (k : Kernel) (c : Ref) : ℕ → World → World → Type 0 where
  all : (w : World) → Submits k c 0 w w
  turn :
      (n r : ℕ) (w w' : World)
      → (k.enter c (suc n) plain w).0 ≡ accepted r
      → 0 < r
      → r ≤ suc n
      → Submits k c (suc n - r) (k.enter c (suc n) plain w).1 w'
      → Submits k c (suc n) w w'

-- The kernel took some of `n` entries, in calls that each took at least one, and then failed on the
-- rest with the error `e`.
pub data Fails (k : Kernel) (c : Ref) (e : ℕ) : ℕ → World → World → Type 0 where
  refused :
      (n : ℕ) (w : World)
      → (k.enter c (suc n) plain w).0 ≡ failed e
      → Fails k c e (suc n) w (k.enter c (suc n) plain w).1
  after :
      (n r : ℕ) (w w' : World)
      → (k.enter c (suc n) plain w).0 ≡ accepted r
      → 0 < r
      → r ≤ suc n
      → Fails k c e (suc n - r) (k.enter c (suc n) plain w).1 w'
      → Fails k c e (suc n) w w'

-- The two ways in which the loop ends.
abbrev Ends : Kernel → Ref → ℕ → World → Option (Result ℕ × World) → Type 0
Ends k c n w out =
    ((w' : World) × (out ≡ some (ok 0, w')) × Submits k c n w w')
    ⊎ ((e : ℕ) × (w' : World) × (out ≡ some (raise (system_error e), w')) × Fails k c e n w w')

enter_all-Ends :
    (k : Kernel) (fuel c n : ℕ) (w : World)
    → Consumes k c
    → n ≤ fuel
    → n < 2 ^ 32
    → Ends k c n w (enter_all k fuel c n w)
unfolding enter_all
enter_all-Ends k zero c zero w h enough small = inl (w, refl, all w)
enter_all-Ends k (suc fuel) c zero w h enough small = inl (w, refl, all w)
enter_all-Ends k zero c (suc n) w h enough small = absurd (omega arith)
enter_all-Ends k (suc fuel) c (suc n) w h enough small = elim (h n w) [
  | inl (e, failing) ↦
      rw (failing, enter_all) (inr (e, (k.enter c (suc n) plain w).1, refl, refused n w failing))
  | inr (r, taking, lo, hi) ↦
      let w1 = (k.enter c (suc n) plain w).1 in
      let left : suc n - r ≡ u32 (suc n + 2 ^ 32 - u32 r) = omega arith in
      let rest = enter_all-Ends k fuel c (suc n - r) w1 h (omega arith) (omega arith) in
      rw (taking, enter_all, ← left)
        elim rest [
          | inl (w', out, taken) ↦ inl (w', out, turn n r w w' taking lo hi taken)
          | inr (e, w', out, failing) ↦ inr (e, w', out, after n r w w' taking lo hi failing)
        ]
]

flush-plain :
    (k : Kernel) (py : Python) (fuel : ℕ) (alloc : Bool) (c : Ref) (w : World)
    → is_neg (w.ctxs c).uring_fd ≡ false
    → (w.ctxs c).sqpoll ≡ false
    → 0 < distance (w.ctxs c).sq_tail (w.ctxs c).sq_head
    → flush k py fuel alloc c w
      ≡ then_drain py alloc c
          (enter_all k fuel c (distance (w.ctxs c).sq_tail (w.ctxs c).sq_head) w)
unfolding flush flush_plain
flush-plain k py fuel alloc c w opened unpolled some_staged =
    let test : (distance (w.ctxs c).sq_tail (w.ctxs c).sq_head == 0) ≡ false = ground arith in
    rw (opened, unpolled, test) refl

-- On an open context without a polling thread, with entries staged and a kernel that takes at least
-- one at each call or fails, flush ends after at most as many calls as entries: either the kernel
-- took all of them, and it then drains the completions, or the kernel took some and failed on the
-- rest, and it raises the error of that call and changes nothing else.
pub flush-Ends :
    (k : Kernel) (py : Python) (fuel : ℕ) (alloc : Bool) (c : Ref) (w : World)
    → is_neg (w.ctxs c).uring_fd ≡ false
    → (w.ctxs c).sqpoll ≡ false
    → 0 < distance (w.ctxs c).sq_tail (w.ctxs c).sq_head
    → Consumes k c
    → distance (w.ctxs c).sq_tail (w.ctxs c).sq_head ≤ fuel
    → ((w' : World) × (flush k py fuel alloc c w
          ≡ some (return_count (drain py alloc c uint32_max w')))
        × Submits k c (distance (w.ctxs c).sq_tail (w.ctxs c).sq_head) w w')
      ⊎ ((e : ℕ) × (w' : World) × (flush k py fuel alloc c w ≡ some (raise (system_error e), w'))
          × Fails k c e (distance (w.ctxs c).sq_tail (w.ctxs c).sq_head) w w')
flush-Ends k py fuel alloc c w opened unpolled staged h enough =
    let n = distance (w.ctxs c).sq_tail (w.ctxs c).sq_head in
    let run = flush-plain k py fuel alloc c w opened unpolled staged in
    elim (enter_all-Ends k fuel c n w h enough (omega arith)) [
      | inl (w', out, taken) ↦ inl (w', run ∙ ap (then_drain py alloc c) out, taken)
      | inr (e, w', out, failing) ↦ inr (e, w', run ∙ ap (then_drain py alloc c) out, failing)
    ]

enter_all-stuck :
    (k : Kernel) (fuel c n : ℕ) (w : World)
    → ((m : ℕ) → k.enter c (suc m) plain w ≡ (accepted 0, w))
    → suc n < 2 ^ 32
    → enter_all k fuel c (suc n) w ≡ none
unfolding enter_all
enter_all-stuck k zero c n w h small = refl
enter_all-stuck k (suc fuel) c n w h small =
    let same : suc n ≡ u32 (suc n + 2 ^ 32 - u32 0) = omega arith in
    let e0 = ap (λ (a : Answer × World). a.0) (h n) in
    let e1 = ap (λ (a : Answer × World). a.1) (h n) in
    rw (e0, enter_all, e1, ← same) (enter_all-stuck k fuel c n w h small)

-- On an open context without a polling thread, with entries staged, where `io_uring_enter` answers 0
-- and does nothing, as it does once another thread has submitted the entries that this one counted,
-- flush does not end after any number of turns.
pub flush_stuck :
    (k : Kernel) (py : Python) (alloc : Bool) (c : Ref) (w : World)
    → is_neg (w.ctxs c).uring_fd ≡ false
    → (w.ctxs c).sqpoll ≡ false
    → 0 < distance (w.ctxs c).sq_tail (w.ctxs c).sq_head
    → ((m : ℕ) → k.enter c (suc m) plain w ≡ (accepted 0, w))
    → (fuel : ℕ) → flush k py fuel alloc c w ≡ none
flush_stuck k py alloc c w opened unpolled staged h fuel =
    let n = distance (w.ctxs c).sq_tail (w.ctxs c).sq_head in
    let e : n ≡ suc (n - 1) = omega arith in
    flush-plain k py fuel alloc c w opened unpolled staged
    ∙ ap (then_drain py alloc c)
        (ap (λ m. enter_all k fuel c m w) e ∙ enter_all-stuck k fuel c (n - 1) w h (omega arith))

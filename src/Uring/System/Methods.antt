-- ===== src/Uring/System/Methods.antt =====
-- AIOContext_flush, the moves of the kernel apart: uring_drain_cq, or nothing.
use caio.Base.{
  ltb, ◌==◌, Bool-cases, ℤ, is_neg, u32, Ref, system_error, Result, ok, raise, Value, ℕ, zero, suc,
  ◌+◌, ◌-◌, ◌^◌, ◌≡◌, refl, sym, ap, subst, ◌⊎◌, inl, inr, Bool, true, false, Option, none, some,
}
use caio.Uring.State.{distance, World}
use caio.Uring.Drain.{Python, capacity, drain}
use caio.Uring.Calls.{
  plain, sq_wakeup, Answer, accepted, failed, Kernel, uint32_max, return_count, wakeup,
  flush_sqpoll, enter_all, then_drain, flush_plain, flush,
}
use caio.Uring.System.{IsPassive}

-- Where a call ends, if it ends.
abbrev pub after {ℓ} : {A : Type ℓ} → World → Option (A × World) → World
after w none = w
after w (some (r, w')) = w'

abbrev pub Drains : Python → Ref → World → World → Type 0
Drains py c w w' = (w' ≡ w) ⊎ ((max : ℕ) × (w' ≡ (drain py true c max w).1))

Answer-cases : (a : Answer) → ((e : ℕ) × (a ≡ failed e)) ⊎ ((n : ℕ) × (a ≡ accepted n))
Answer-cases (failed e) = inl (e, refl)
Answer-cases (accepted n) = inr (n, refl)

return_count-after : (w : World) (r : Result ℤ × World) → after w (some (return_count r)) ≡ r.1
return_count-after w (raise e, w') = refl
return_count-after w (ok n, w') = refl

alloc-Drains :
    (py : Python) (alloc : Bool) (c max : ℕ) (w : World) → Drains py c w (drain py alloc c max w).1
unfolding drain
alloc-Drains py true c max w = inr (max, refl)
alloc-Drains py false c max w = elim (Bool-cases (ltb 0 (capacity (w.ctxs c) max))) [
  | inl some_there ↦ rw some_there (inl refl)
  | inr empty ↦ inr (max, rw empty refl)
]

pub drain-Drains :
    (py : Python) (alloc : Bool) (c max : ℕ) (w : World)
    → Drains py c w (after w (some (return_count (drain py alloc c max w))))
drain-Drains py alloc c max w =
    subst (Drains py c w) (sym (return_count-after w (drain py alloc c max w)))
      (alloc-Drains py alloc c max w)

-- So each of the two leaves what a predicate on the state says, where uring_drain_cq leaves it.
pub Drains-keeps {ℓ} :
    {A : Type 0} (P : World → Type ℓ) (py : Python) (c : Ref) (w w' : World)
    (out : Option (A × World)) (r : A)
    → Drains py c w (after w out)
    → out ≡ some (r, w')
    → P w
    → ((max : ℕ) → P (drain py true c max w).1)
    → P w'
Drains-keeps P py c w w' out r is e now drained =
    subst P (ap (after w) e) elim is [
      | inl same ↦ subst P (sym same) now
      | inr (max, run) ↦ subst P (sym run) (drained max)
    ]

module _ (k : Kernel) (py : Python) (c : Ref) (passive : IsPassive k) where
  enter_all-keeps : (fuel n : ℕ) (w : World) → after w (enter_all k fuel c n w) ≡ w
  unfolding enter_all
  enter_all-keeps zero zero w = refl
  enter_all-keeps (suc fuel) zero w = refl
  enter_all-keeps zero (suc n) w = refl
  enter_all-keeps (suc fuel) (suc n) w = elim (Answer-cases (k.enter c (suc n) plain w).0) [
    | inl (e, failing) ↦ rw (failing, enter_all) (passive.enter_keeps c (suc n) plain w)
    | inr (r, taking) ↦
        rw (taking, enter_all, passive.enter_keeps c (suc n) plain w)
          (enter_all-keeps fuel (u32 (suc n + 2 ^ 32 - u32 r)) w)
  ]

  then_drain-Drains :
      (alloc : Bool) (w : World) (out : Option (Result ℕ × World))
      → after w out ≡ w
      → Drains py c w (after w (then_drain py alloc c out))
  then_drain-Drains alloc w none same = inl refl
  then_drain-Drains alloc w (some (raise e, w')) same = inl same
  then_drain-Drains alloc w (some (ok n, w')) same =
      subst (λ v. Drains py c w (after w (some (return_count (drain py alloc c uint32_max v)))))
        (sym same) (drain-Drains py alloc c uint32_max w)

  wakeup-keeps : (w : World) → (wakeup k c w).1 ≡ w
  wakeup-keeps w = elim (Bool-cases (w.ctxs c).sq_need_wakeup) [
    | inl asked ↦ rw asked (passive.enter_keeps c 0 sq_wakeup w)
    | inr quiet ↦ rw quiet refl
  ]

  flush_sqpoll-Drains :
      (alloc : Bool) (w : World) → Drains py c w (after w (some (flush_sqpoll k py alloc c w)))
  unfolding flush_sqpoll
  flush_sqpoll-Drains alloc w = woken (wakeup k c w).0 (wakeup k c w).1 (wakeup-keeps w)
    where
      woken :
          (a : Answer) (w' : World)
          → w' ≡ w
          → Drains py c w (
              after w (
                some (elim a as (λ x. Result Value × World) [
                  | failed e ↦ (raise (system_error e), w')
                  | accepted n ↦ return_count (drain py alloc c uint32_max w')
                ])))
      woken (failed e) w' same = inl same
      woken (accepted n) w' same =
          subst (λ v. Drains py c w (after w (some (return_count (drain py alloc c uint32_max v)))))
            (sym same) (drain-Drains py alloc c uint32_max w)

  pub flush-Drains :
      (fuel : ℕ) (alloc : Bool) (w : World) → Drains py c w (after w (flush k py fuel alloc c w))
  unfolding flush flush_plain
  flush-Drains fuel alloc w =
      let n = distance (w.ctxs c).sq_tail (w.ctxs c).sq_head in
      elim (Bool-cases (is_neg (w.ctxs c).uring_fd)) [
        | inl closed ↦ rw closed (inl refl)
        | inr opened ↦ elim (Bool-cases (w.ctxs c).sqpoll) [
          | inl polled ↦ rw (opened, polled) (flush_sqpoll-Drains alloc w)
          | inr unpolled ↦ elim (Bool-cases (n == 0)) [
            | inl nothing ↦ rw (opened, unpolled, nothing) (inl refl)
            | inr some_left ↦
                rw (opened, unpolled, some_left)
                  (then_drain-Drains alloc w (enter_all k fuel c n w) (enter_all-keeps fuel n w))
          ]
        ]
      ]

-- ===== src/Uring/Drain/Reader.antt =====
-- uring_drain_cq as the reader of a queue.
use caio.Base.{
  ltb, ◌==◌, if◌then◌else◌, Bool-cases, take, drop, ℤ, u32, Ref, ℕ, zero, suc, ◌+◌, ◌^◌, ◌<◌, ◌≡◌,
  refl, sym, ap, ◌∙◌, inl, inr, true, false, not, ◌&&◌, List, [], ◌∷◌, ◌++◌, arith,
}
use caio.Uring.State.{Cqe, cancel_user_data, Context, slot, distance, World}
use caio.Uring.Drain.{settle, scan}
use caio.Uring.Ring.{window}
use mathlib.Core.Path.{ap₂}

-- The completions that a ring holds, in order.
abbrev pub cqe_at : Context → ℕ → Cqe
cqe_at x i = x.cqes (slot i x.cq_ring_mask)

abbrev pub ready : Context → List Cqe
ready x = window (cqe_at x) x.cq_head (distance x.cq_tail x.cq_head)

-- Those of operations, with their results: a request to cancel has one of its own, which is skipped.
abbrev pub completions : List Cqe → List (Ref × ℤ)
completions [] = []
completions (e ∷ es) =
    if e.user_data == cancel_user_data
    then completions es
    else (e.user_data, e.res) ∷ completions es

abbrev pub settle_all : List (Ref × ℤ) → World → World
settle_all [] w = w
settle_all ((p, res) ∷ ops) w = settle_all ops (settle p res w)

pub window-cons {ℓ} :
    {A : Type ℓ} (f : ℕ → A) (h n : ℕ)
    → h < 2 ^ 32
    → window f h (suc n) ≡ f h ∷ window f (u32 (h + 1)) n
window-cons f h zero small = ap (λ i. f i ∷ []) (omega arith)
window-cons f h (suc n) small =
    let e : u32 (h + suc n) ≡ u32 (u32 (h + 1) + n) = omega arith in
    ap₂ (λ xs i. xs ++ f i ∷ []) (window-cons f h n small) e

-- What the loop gives, `n` completions before the tail and `room` before the limit.
pub record Scans (x : Context) (h n room : ℕ) (w : World) (ops : List (Ref × ℤ)) (head : ℕ)
    (w' : World) : Type 0 where
  pub batch : ops ≡ take room (completions (window (cqe_at x) h n))
  pub settled : w' ≡ settle_all ops w
  pub consumed : ℕ
  pub left : ℕ
  pub sum : consumed + left ≡ n
  pub at : head ≡ u32 (h + consumed)
  pub rest :
      completions (window (cqe_at x) head left) ≡ drop room (completions (window (cqe_at x) h n))

take-none {ℓ} : {A : Type ℓ} (n : ℕ) → [] ≡ take {A = A} n []
take-none zero = refl
take-none (suc n) = refl

drop-none {ℓ} : {A : Type ℓ} (n : ℕ) → [] ≡ drop {A = A} n []
drop-none zero = refl
drop-none (suc n) = refl

completions-skip :
    (e : Cqe) (es : List Cqe)
    → (e.user_data == cancel_user_data) ≡ true
    → completions (e ∷ es) ≡ completions es
completions-skip e es sentinel = rw sentinel refl

completions-take :
    (e : Cqe) (es : List Cqe)
    → (e.user_data == cancel_user_data) ≡ false
    → completions (e ∷ es) ≡ (e.user_data, e.res) ∷ completions es
completions-take e es real = rw real refl

Scans-empty : (x : Context) (h room : ℕ) (w : World) → h < 2 ^ 32 → Scans x h 0 room w [] h w
Scans-empty x h room w small = record {
  batch = take-none room;
  settled = refl;
  consumed = 0;
  left = 0;
  sum = omega arith;
  at = omega arith;
  rest = drop-none room;
}

module _ (x : Context) (h n : ℕ) (small : h < 2 ^ 32) where
  Scans-full : (w : World) → Scans x h n 0 w [] h w
  Scans-full w = record {
    batch = refl;
    settled = refl;
    consumed = 0;
    left = n;
    sum = omega arith;
    at = omega arith;
    rest = refl;
  }

  Scans-skip :
      (room : ℕ) (w : World) (ops : List (Ref × ℤ)) (head : ℕ) (w' : World)
      → ((cqe_at x h).user_data == cancel_user_data) ≡ true
      → Scans x (u32 (h + 1)) n room w ops head w'
      → Scans x h (suc n) room w ops head w'
  Scans-skip room w ops head w' sentinel s =
      let now : completions (window (cqe_at x) h (suc n))
          ≡ completions (window (cqe_at x) (u32 (h + 1)) n) =
        ap completions (window-cons (cqe_at x) h n small)
        ∙ completions-skip (cqe_at x h) (window (cqe_at x) (u32 (h + 1)) n) sentinel in
      record {
        batch = s.batch ∙ ap (take room) (sym now);
        settled = s.settled;
        consumed = suc s.consumed;
        left = s.left;
        sum = omega (arith, s.sum);
        at = omega (arith, s.at);
        rest = s.rest ∙ ap (drop room) (sym now);
      }

  Scans-take :
      (room : ℕ) (w : World) (ops : List (Ref × ℤ)) (head : ℕ) (w' : World)
      → ((cqe_at x h).user_data == cancel_user_data) ≡ false
      → Scans x (u32 (h + 1)) n room (settle (cqe_at x h).user_data (cqe_at x h).res w) ops head w'
      → Scans x h (suc n) (suc room) w (((cqe_at x h).user_data, (cqe_at x h).res) ∷ ops) head w'
  Scans-take room w ops head w' real s =
      let one : Ref × ℤ = ((cqe_at x h).user_data, (cqe_at x h).res) in
      let now : completions (window (cqe_at x) h (suc n))
          ≡ one ∷ completions (window (cqe_at x) (u32 (h + 1)) n) =
        ap completions (window-cons (cqe_at x) h n small)
        ∙ completions-take (cqe_at x h) (window (cqe_at x) (u32 (h + 1)) n) real in
      record {
        batch = ap (λ l. one ∷ l) s.batch ∙ ap (take (suc room)) (sym now);
        settled = s.settled;
        consumed = suc s.consumed;
        left = s.left;
        sum = omega (arith, s.sum);
        at = omega (arith, s.at);
        rest = s.rest ∙ ap (drop (suc room)) (sym now);
      }

abbrev pub ScansTo : (x : Context) (h n room : ℕ) (w : World) → List (Ref × ℤ) × ℕ × World → Type 0
ScansTo x h n room w (ops, head, w') = Scans x h n room w ops head w'

pub scan-Scans :
    (x : Context) (h n room count max : ℕ) (w : World)
    → h < 2 ^ 32
    → n < 2 ^ 32
    → count + room ≡ max
    → ScansTo x h n room w (scan x n h (u32 (h + n)) count max w)
unfolding scan
scan-Scans x h zero room count max w small short sum = Scans-empty x h room w small
scan-Scans x h (suc n) zero count max w small short sum =
    let stop : (not (h == u32 (h + suc n)) && ltb count max) ≡ false = ground arith in
    rw stop (Scans-full x h (suc n) small w)
scan-Scans x h (suc n) (suc room) count max w small short sum =
    let go : (not (h == u32 (h + suc n)) && ltb count max) ≡ true = ground arith in
    let tail : u32 (u32 (h + 1) + n) ≡ u32 (h + suc n) = omega arith in
    elim (Bool-cases ((cqe_at x h).user_data == cancel_user_data)) [
      | inl sentinel ↦
          rw (go, sentinel)
            (Scans-skip x h n small (suc room) w _ _ _ sentinel (
              rw (← tail) (
                scan-Scans x (u32 (h + 1)) n (suc room) count max w (omega arith) (omega arith)
                  sum)))
      | inr real ↦
          rw (go, real)
            (Scans-take x h n small room w _ _ _ real (
              rw (← tail) (
                scan-Scans x (u32 (h + 1)) n room (suc count) max
                  (settle (cqe_at x h).user_data (cqe_at x h).res w) (omega arith) (omega arith)
                  (omega arith))))
    ]

-- ===== src/Uring/Submit/Accept.antt =====
-- What the second loop of AIOContext_submit does, as a fold over the operations that it takes.
use caio.Base.{
  leb, if◌then◌else◌, Bool-cases, Option-cases, is_none, length, take, pos, u32, Ref, update,
  unclaimed, overflow_error, Result, ok, raise, Value, int, ℕ, zero, suc, ◌+◌, ◌^◌, ◌<◌, ◌≡◌, refl,
  sym, ap, ◌∙◌, subst, ◌≢◌, inl, inr, Bool, true, false, Option, none, some, List, [], ◌∷◌, arith,
}
use caio.Uring.State.{Sqe, zero_sqe, distance, World, set_ctx}
use caio.Uring.Submit.{fill_sqe, put_sqe, hold, set_tail, stage}
use caio.Uring.Ring.{distance-window}
use mathlib.Core.Path.{fun_ext}

abbrev pub claimed_in : World → Ref → Bool
claimed_in w p = (w.ops p).in_progress

-- Every operation has an opcode that the switch knows, as the four constructors give it.
abbrev pub IsKnown : World → Type 0
IsKnown w = (p : Ref) → is_none (fill_sqe p (w.ops p)) ≡ false

abbrev or_zero : Option Sqe → Sqe
or_zero none = zero_sqe
or_zero (some sqe) = sqe

-- The entry that stands for an operation.
unfoldable pub sqe_of : World → Ref → Sqe
sqe_of w p = or_zero (fill_sqe p (w.ops p))

abbrev pub take_one : Ref → ℕ → Ref → World → World
take_one c tail p w = hold c p (set_ctx c (put_sqe (w.ctxs c) tail (sqe_of w p)) w)

-- Each of `ps` staged at the tail and held.
unfoldable pub accept : Ref → ℕ → List Ref → World → World
accept c tail [] w = w
accept c tail (p ∷ ps) w = accept c (u32 (tail + 1)) ps (take_one c tail p w)

-- The answer to a call that can stage `room` more of `todo`, after `k` others.
abbrev pub answer : ℕ → ℕ → List Ref → Result Value
answer k room todo =
    if leb (length todo) room
    then ok (int (pos (k + length todo)))
    else raise (overflow_error "io_uring SQ ring full")

abbrev pub Stages : Ref → ℕ → ℕ → ℕ → List Ref → World → Result Value × World → Type 0
Stages c tail k room todo w (r, w') =
    (r ≡ answer k room todo)
    × (w' ≡ set_tail c (u32 (tail + length (take room todo))) (accept c tail (take room todo) w))

take_one-IsKnown : (c tail p : ℕ) (w : World) → IsKnown w → IsKnown (take_one c tail p w)
unfolding hold fill_sqe
take_one-IsKnown c tail p w h q = ground (arith, h q, h p)

pub claimed_in-take_one :
    (c tail p : ℕ) (w : World) → claimed_in (take_one c tail p w) ≡ update (claimed_in w) p true
unfolding hold
claimed_in-take_one c tail p w = fun_ext λ q. ground arith

entries-take_one :
    (c tail p : ℕ) (w : World)
    → ((take_one c tail p w).ctxs c).sq_ring_entries ≡ (w.ctxs c).sq_ring_entries
unfolding hold put_sqe
entries-take_one c tail p w = ground arith

is_none-none {ℓ} : {A : Type ℓ} {o : Option A} → is_none o ≡ false → o ≢ none
is_none-none h e = ground (arith, h, e)

answer-suc :
    (k room : ℕ) (p : Ref) (todo : List Ref)
    → answer (suc k) room todo ≡ answer k (suc room) (p ∷ todo)
answer-suc k room p todo = ground arith

pub take-nil : (n : ℕ) → take {A = Ref} n [] ≡ []
take-nil zero = refl
take-nil (suc n) = refl

tail_path : (c : Ref) (w : World) {a b : ℕ} → a ≡ b → set_tail c a w ≡ set_tail c b w
tail_path c w e = ap (λ t. set_tail c t w) e

next_tail : (head n : ℕ) → u32 (u32 (head + n) + 1) ≡ u32 (head + suc n)
next_tail head n = omega arith

module _ (c head p : Ref) (ps : List Ref) (n k : ℕ) (w : World)
    (idle : (w.ops p).in_progress ≡ false) (known : IsKnown w) (small : head < 2 ^ 32)
    (fits : (w.ctxs c).sq_ring_entries < 2 ^ 32) where
  stage-full :
      n ≡ (w.ctxs c).sq_ring_entries
      → Stages c
          (u32 (head + n))
          k
          0
          (p ∷ unclaimed (update (claimed_in w) p true) ps)
          w
          (stage c head (p ∷ ps) (u32 (head + n)) k w)
  unfolding stage accept
  stage-full full =
      let full_test : leb (w.ctxs c).sq_ring_entries (distance (u32 (head + n)) head) ≡ true =
        rw (distance-window head n small (omega arith)) (ground arith) in
      rw (idle, stage, full_test) (ground arith, tail_path c w (omega arith))

  stage-next :
      (room : ℕ)
      → n < (w.ctxs c).sq_ring_entries
      → (let tail = u32 (head + n) in
          Stages c
            (u32 (tail + 1))
            (suc k)
            room
            (unclaimed (update (claimed_in w) p true) ps)
            (take_one c tail p w)
            (stage c head ps (u32 (tail + 1)) (suc k) (take_one c tail p w)))
      → Stages c
          (u32 (head + n))
          k
          (suc room)
          (p ∷ unclaimed (update (claimed_in w) p true) ps)
          w
          (stage c head (p ∷ ps) (u32 (head + n)) k w)
  unfolding stage accept
  stage-next room free rest =
      let free_test : leb (w.ctxs c).sq_ring_entries (distance (u32 (head + n)) head) ≡ false =
        rw (distance-window head n small (omega arith)) (ground arith) in
      elim (Option-cases (fill_sqe p (w.ops p))) [
        | inl e ↦ absurd (is_none-none (known p) e)
        | inr (sqe, e) ↦
            let same : sqe_of w p ≡ sqe = unfold sqe_of in ap or_zero e in
            let xs = take room (unclaimed (update (claimed_in w) p true) ps) in
            let tails : u32 (u32 (u32 (head + n) + 1) + length xs)
                ≡ u32 (u32 (head + n) + suc (length xs)) =
              omega arith in
            rw (e, stage, free_test, idle, ← same)
              (
                rest.0 ∙ answer-suc k room p (unclaimed (update (claimed_in w) p true) ps),
                rest.1
                    ∙ tail_path c
                        (accept c (u32 (u32 (head + n) + 1)) xs (take_one c (u32 (head + n)) p w))
                        tails,
              )
      ]

unclaimed_idle :
    (p : Ref) (ps : List Ref) (w : World)
    → (w.ops p).in_progress ≡ false
    → unclaimed (claimed_in w) (p ∷ ps) ≡ p ∷ unclaimed (update (claimed_in w) p true) ps
unfolding unclaimed
unclaimed_idle p ps w idle = rw idle

Stages-todo :
    (c head : ℕ) (ps : List Ref) (n k room : ℕ) (w : World) {todo todo' : List Ref}
    → todo' ≡ todo
    → Stages c (u32 (head + n)) k room todo w (stage c head ps (u32 (head + n)) k w)
    → Stages c (u32 (head + n)) k room todo' w (stage c head ps (u32 (head + n)) k w)
Stages-todo c head ps n k room w e h =
    subst (λ t. Stages c (u32 (head + n)) k room t w (stage c head ps (u32 (head + n)) k w)) (sym e)
      h

-- The same, from a tail that is `n` entries past the head, with room for the rest.
pub stage-Stages :
    (c head : ℕ) (ps : List Ref) (n k room : ℕ) (w : World)
    → IsKnown w
    → head < 2 ^ 32
    → n + room ≡ (w.ctxs c).sq_ring_entries
    → (w.ctxs c).sq_ring_entries < 2 ^ 32
    → Stages c
        (u32 (head + n))
        k
        room
        (unclaimed (claimed_in w) ps)
        w
        (stage c head ps (u32 (head + n)) k w)
unfolding stage accept unclaimed
stage-Stages c head [] n k room w known small sum fits =
    rw (take-nil room) (ground arith, tail_path c w (omega arith))
stage-Stages c head (p ∷ ps) n k zero w known small sum fits =
    elim (Bool-cases (w.ops p).in_progress) [
      | inl busy ↦
          rw (busy, unclaimed, stage) (stage-Stages c head ps n k zero w known small sum fits)
      | inr idle ↦
          Stages-todo c head (p ∷ ps) n k zero w (unclaimed_idle p ps w idle)
            (stage-full c head p ps n k w idle known small fits (omega arith))
    ]
stage-Stages c head (p ∷ ps) n k (suc room) w known small sum fits =
    elim (Bool-cases (w.ops p).in_progress) [
      | inl busy ↦
          rw (busy, unclaimed, stage) (stage-Stages c head ps n k (suc room) w known small sum fits)
      | inr idle ↦
          let w' = take_one c (u32 (head + n)) p w in
          let rest =
            stage-Stages c head ps (suc n) (suc k) room w'
              (take_one-IsKnown c (u32 (head + n)) p w known) small
              (omega (arith, entries-take_one c (u32 (head + n)) p w))
              (omega (arith, entries-take_one c (u32 (head + n)) p w)) in
          Stages-todo c head (p ∷ ps) n k (suc room) w (unclaimed_idle p ps w idle) (
            stage-next c head p ps n k w idle known small fits room (omega arith)
              (rw (next_tail head n, ← claimed_in-take_one c (u32 (head + n)) p w) rest))
    ]

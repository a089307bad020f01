-- ===== src/Uring/Submit/Holds.antt =====
-- What AIOContext_submit does to the operations and to the references.
use caio.Base.{
  ltb, ◌==◌, if◌then◌else◌, Bool-cases, length, take, count, u32, Ref, update, unclaimed, operation,
  ℕ, zero, suc, ◌+◌, ◌≡◌, refl, sym, subst, inl, inr, Bool, true, false, none, some, List, [], ◌∷◌,
  map, arith,
}
use caio.Uring.State.{World}
use caio.Uring.Submit.{hold, submit}
use caio.Uring.Submit.Accept.{claimed_in, IsKnown, take_one, accept, claimed_in-take_one, take-nil}
use caio.Uring.Submit.Refines.{free, IsRing, taken, submit-Stages, submit-none}

-- An operation that is not claimed holds no context, as the constructors leave it.
abbrev pub IsTidy : World → Type 0
IsTidy w = (p : Ref) → claimed_in w p ≡ false → (w.ops p).context ≡ none

-- `w'` is `w` with the operations `xs` claimed for `c`. Each holds the context once, and the ring one
-- reference to each operation; no other reference, object or callback is touched.
pub record Holds (c : Ref) (xs : List Ref) (w w' : World) : Type 0 where
  pub ops :
      (q : Ref)
      → w'.ops q ≡ (
          if ltb 0 (count q xs)
          then record (w.ops q) { in_progress = true; context = some c }
          else w.ops q)
  pub refs : (q : Ref) → w'.refs q ≡ w.refs q + count q xs + (if q == c then length xs else 0)
  pub blocks : w'.blocks ≡ w.blocks
  pub calls : w'.calls ≡ w.calls

-- None of the operations was claimed, and none stands twice.
abbrev pub AreNew : (Ref → Bool) → List Ref → Type 0
AreNew claimed [] = Unit
AreNew claimed (p ∷ ps) = (claimed p ≡ false) × AreNew (update claimed p true) ps

pub take-unclaimed-AreNew :
    (n : ℕ) (claimed : Ref → Bool) (ps : List Ref) → AreNew claimed (take n (unclaimed claimed ps))
unfolding unclaimed
take-unclaimed-AreNew n claimed [] = rw (take-nil n) tt
take-unclaimed-AreNew zero claimed (p ∷ ps) = tt
take-unclaimed-AreNew (suc n) claimed (p ∷ ps) = elim (Bool-cases (claimed p)) [
  | inl busy ↦ rw (busy, unclaimed) (take-unclaimed-AreNew (suc n) claimed ps)
  | inr idle ↦ rw (idle, unclaimed) (idle, take-unclaimed-AreNew n (update claimed p true) ps)
]

take_one-IsTidy : (c tail p : ℕ) (w : World) → IsTidy w → IsTidy (take_one c tail p w)
unfolding hold
take_one-IsTidy c tail p w tidy q idle = ground (arith, tidy q, idle)

accept-Holds :
    (c tail : ℕ) (xs : List Ref) (w : World)
    → IsTidy w
    → AreNew (claimed_in w) xs
    → Holds c xs w (accept c tail xs w)
unfolding accept hold
accept-Holds c tail [] w tidy new = record {
  ops = λ q. refl;
  refs = λ q. ground arith;
  blocks = refl;
  calls = refl;
}
accept-Holds c tail (p ∷ ps) w tidy (idle, new) =
    let w' = take_one c tail p w in
    let rest =
      accept-Holds c (u32 (tail + 1)) ps w' (take_one-IsTidy c tail p w tidy)
        (subst (λ cl. AreNew cl ps) (sym (claimed_in-take_one c tail p w)) new) in
    record {
      ops = λ q. ground (arith, rest.ops q);
      refs = λ q. ground (arith, rest.refs q, tidy p idle);
      blocks = rest.blocks;
      calls = rest.calls;
    }

-- A call on a ring in order, with opcodes that are known and no context held by an operation that is
-- not claimed, claims and holds the operations that it takes and touches no other operation,
-- reference or block, whether it returns or raises.
pub submit-Holds :
    (c : Ref) (ps : List Ref) (w : World)
    → IsRing (w.ctxs c)
    → IsKnown w
    → IsTidy w
    → Holds c (taken c ps w) w ((submit c (some (map operation ps)) w).1)
unfolding unclaimed
submit-Holds c [] w ring known tidy =
    rw (submit-none c w ring.is_open, take-nil (free (w.ctxs c)))
      record { ops = λ q. refl; refs = λ q. ground arith; blocks = refl; calls = refl }
submit-Holds c (p ∷ ps) w ring known tidy =
    let h =
      accept-Holds c (w.ctxs c).sq_tail (taken c (p ∷ ps) w) w tidy
        (take-unclaimed-AreNew (free (w.ctxs c)) (claimed_in w) (p ∷ ps)) in
    rw (submit-Stages c (p ∷ ps) w ring known (λ eq. ground (arith, eq))).1
      record { ops = h.ops; refs = h.refs; blocks = h.blocks; calls = h.calls }

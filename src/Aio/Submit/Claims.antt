-- ===== src/Aio/Submit/Claims.antt =====
-- What the loops of AIOContext_submit do to the operations and to the references.
use caio.Base.{
  ltb, ◌==◌, if◌then◌else◌, Bool-cases, length, count, Ref, update, unclaimed, ◌+◌, ◌-◌, ◌≤◌, ◌<◌,
  ◌≡◌, refl, ap, ◌∙◌, inl, inr, Bool, true, false, ◌||◌, none, some, List, [], ◌∷◌, arith,
}
use caio.Aio.State.{World}
use caio.Aio.Submit.{claim, unclaim, claim_all, unclaim_all}
use mathlib.Core.Path.{fun_ext}

abbrev pub claimed_in : World → Ref → Bool
claimed_in w p = (w.ops p).in_progress

-- An operation that is not claimed holds no context, as the constructors leave it.
abbrev pub IsTidy : World → Type 0
IsTidy w = (p : Ref) → claimed_in w p ≡ false → (w.ops p).context ≡ none

-- Each of the operations claimed in turn.
unfoldable pub claim_each : Ref → List Ref → World → World
claim_each c [] w = w
claim_each c (p ∷ ps) w = claim_each c ps (claim c p w)

claimed_in-claim : (c p : Ref) (w : World) → claimed_in (claim c p w) ≡ update (claimed_in w) p true
unfolding claim
claimed_in-claim c p w = fun_ext λ q. ground arith

pub claim_all-unclaimed :
    (c : Ref) (ps : List Ref) (w : World)
    → ((claim_all c ps w).0 ≡ unclaimed (claimed_in w) ps)
      × ((claim_all c ps w).1 ≡ claim_each c (unclaimed (claimed_in w) ps) w)
unfolding claim_all unclaimed claim_each
claim_all-unclaimed c [] w = (refl, refl)
claim_all-unclaimed c (p ∷ ps) w = elim (Bool-cases (w.ops p).in_progress) [
  | inl busy ↦ rw (busy, claim_all, unclaimed) (claim_all-unclaimed c ps w)
  | inr idle ↦
      let (xs, state) = claim_all-unclaimed c ps (claim c p w) in
      let same = ap (λ cl. unclaimed cl ps) (claimed_in-claim c p w) in
      rw (idle, claim_all, unclaimed)
        (ap (λ l. p ∷ l) (xs ∙ same), state ∙ ap (λ l. claim_each c l (claim c p w)) same)
]

-- An operation that `xs` has is claimed for `c`, and the others are as they were.
abbrev pub Claims : Ref → List Ref → World → World → Type 0
Claims c xs w w' =
    (q : Ref)
    → ((w'.ops q).in_progress ≡ (ltb 0 (count q xs) || (w.ops q).in_progress))
      × ((w'.ops q).context ≡ (if ltb 0 (count q xs) then some c else (w.ops q).context))

pub claim_each-ops : (c : Ref) (xs : List Ref) (w : World) → Claims c xs w (claim_each c xs w)
unfolding claim_each claim
claim_each-ops c [] w q = ground arith
claim_each-ops c (p ∷ ps) w q =
    let (a, b) = claim_each-ops c ps (claim c p w) q in (ground (arith, a), ground (arith, b))

pub count-unclaimed :
    (claimed : Ref → Bool) (ps : List Ref) (q : Ref)
    → (count q (unclaimed claimed ps) ≤ 1)
      × ((claimed q ≡ true) → (count q (unclaimed claimed ps) ≡ 0))
unfolding unclaimed
count-unclaimed claimed [] q = (omega arith, λ h. refl)
count-unclaimed claimed (p ∷ ps) q = elim (Bool-cases (claimed p)) [
  | inl busy ↦ rw (busy, unclaimed) (count-unclaimed claimed ps q)
  | inr idle ↦
      let (once, away) = count-unclaimed (update claimed p true) ps q in
      rw (idle, unclaimed) (ground (arith, once, away), λ h. ground (arith, away, idle, h))
]

pub claim_each-refs :
    (c : Ref) (xs : List Ref) (w : World) (q : Ref)
    → ((p : Ref) → count p xs ≤ 1)
    → ((p : Ref) → 0 < count p xs → (w.ops p).context ≡ none)
    → (claim_each c xs w).refs q ≡ w.refs q + count q xs + (if q == c then length xs else 0)
unfolding claim_each claim
claim_each-refs c [] w q once none_held = ground arith
claim_each-refs c (p ∷ ps) w q once none_held =
    let rest =
      claim_each-refs c ps (claim c p w) q (λ r. ground (arith, once r))
        (λ r here. ground (arith, once r, none_held r, here)) in
    ground (arith, rest, none_held p)

pub claim_each-queued :
    (c : Ref) (xs : List Ref) (w : World) → (claim_each c xs w).queued ≡ w.queued
unfolding claim_each claim
claim_each-queued c [] w = refl
claim_each-queued c (p ∷ ps) w = claim_each-queued c ps (claim c p w)

-- An operation that `xs` has is claimed no longer, and the others are as they were.
abbrev pub Unclaims : List Ref → World → World → Type 0
Unclaims xs w w' =
    (q : Ref)
    → ((w'.ops q).in_progress ≡ (if ltb 0 (count q xs) then false else (w.ops q).in_progress))
      × ((w'.ops q).context ≡ (if ltb 0 (count q xs) then none else (w.ops q).context))

pub unclaim_all-ops : (xs : List Ref) (w : World) → Unclaims xs w (unclaim_all xs w)
unfolding unclaim_all unclaim
unclaim_all-ops [] w q = ground arith
unclaim_all-ops (p ∷ ps) w q =
    let (a, b) = unclaim_all-ops ps (unclaim p w) q in (ground (arith, a), ground (arith, b))

pub unclaim_all-refs :
    (c : Ref) (xs : List Ref) (w : World) (q : Ref)
    → ((p : Ref) → count p xs ≤ 1)
    → ((p : Ref) → 0 < count p xs → (w.ops p).context ≡ some c)
    → (unclaim_all xs w).refs q ≡ w.refs q - count q xs - (if q == c then length xs else 0)
unfolding unclaim_all unclaim
unclaim_all-refs c [] w q once held = ground arith
unclaim_all-refs c (p ∷ ps) w q once held =
    let rest =
      unclaim_all-refs c ps (unclaim p w) q (λ r. ground (arith, once r))
        (λ r here. ground (arith, once r, held r, here)) in
    ground (arith, rest, held p)

pub unclaim_all-queued : (xs : List Ref) (w : World) → (unclaim_all xs w).queued ≡ w.queued
unfolding unclaim_all unclaim
unclaim_all-queued [] w = refl
unclaim_all-queued (p ∷ ps) w = unclaim_all-queued ps (unclaim p w)

-- Neither loop completes an operation.
pub claim_each-done :
    (c : Ref) (xs : List Ref) (w : World) (q : Ref)
    → ((claim_each c xs w).ops q).done ≡ (w.ops q).done
unfolding claim_each claim
claim_each-done c [] w q = refl
claim_each-done c (p ∷ ps) w q = claim_each-done c ps (claim c p w) q ∙ ground arith

pub unclaim_all-done :
    (xs : List Ref) (w : World) (q : Ref) → ((unclaim_all xs w).ops q).done ≡ (w.ops q).done
unfolding unclaim_all unclaim
unclaim_all-done [] w q = refl
unclaim_all-done (p ∷ ps) w q = unclaim_all-done ps (unclaim p w) q ∙ ground arith

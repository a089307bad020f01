-- ===== src/Aio/Submit/Outcome.antt =====
-- AIOContext_submit against its specification: the operations that the kernel took, and no others.
use caio.Base.{
  ltb, ◌==◌, if◌then◌else◌, length, take, drop, count, pos, Ref, unclaimed, Result, ok, raise,
  Value, int, Arg, ℕ, zero, suc, ◌+◌, ◌≤◌, ◌≡◌, refl, ap, ◌∙◌, subst, ◌⊎◌, inl, inr, true, false,
  ◌||◌, some, List, [], ◌∷◌, ◌++◌, arith,
}
use caio.Aio.State.{World, queue}
use caio.Aio.Submit.{
  Answer, accepted, failed, io_submit_error, check_types, unclaim_all, hand_over, submit_checked,
  submit_args, submit,
}
use caio.Aio.Submit.Claims.{
  claimed_in, IsTidy, claim_each, claim_all-unclaimed, claim_each-ops, count-unclaimed,
  claim_each-refs, claim_each-queued, unclaim_all-ops, unclaim_all-refs, unclaim_all-queued,
  claim_each-done, unclaim_all-done,
}
use mathlib.Core.List.{append-nil}

-- `w'` is `w` with the operations `xs` queued and claimed for `c`. Each holds the context once, and
-- the kernel one reference to each.
pub record Takes (c : Ref) (xs : List Ref) (w w' : World) : Type 0 where
  pub in_progress :
      (q : Ref) → (w'.ops q).in_progress ≡ (ltb 0 (count q xs) || (w.ops q).in_progress)
  pub context :
      (q : Ref) → (w'.ops q).context ≡ (if ltb 0 (count q xs) then some c else (w.ops q).context)
  pub done : (q : Ref) → (w'.ops q).done ≡ (w.ops q).done
  pub refs : (q : Ref) → w'.refs q ≡ w.refs q + count q xs + (if q == c then length xs else 0)
  pub queued : w'.queued ≡ w.queued ++ xs

-- The answer of a call with the operations `todo`, and how many of them it takes.
abbrev pub expected : (Ref → List Ref → Answer) → Ref → List Ref → Result Value × ℕ
expected io_submit c [] = (ok (int (pos 0)), 0)
expected io_submit c (p ∷ ps) = elim (io_submit c (p ∷ ps)) [
  | accepted n ↦ (ok (int (pos n)), n)
  | failed e ↦ (raise (io_submit_error e), 0)
]

count-take-drop : (n q : ℕ) (xs : List Ref) → count q xs ≡ count q (take n xs) + count q (drop n xs)
count-take-drop zero q xs = omega arith
count-take-drop (suc n) q [] = omega arith
count-take-drop (suc n) q (x ∷ xs) = ground (arith, count-take-drop n q xs)

length-take-drop : (n : ℕ) (xs : List Ref) → length xs ≡ length (take n xs) + length (drop n xs)
length-take-drop zero xs = omega arith
length-take-drop (suc n) [] = omega arith
length-take-drop (suc n) (x ∷ xs) = omega (arith, length-take-drop n xs)

Answer-cases : (a : Answer) → ((n : ℕ) × (a ≡ accepted n)) ⊎ ((e : ℕ) × (a ≡ failed e))
Answer-cases (accepted n) = inl (n, refl)
Answer-cases (failed e) = inr (e, refl)

module _ (c : Ref) (todo : List Ref) (w : World) (tidy : IsTidy w)
    (once : (p : Ref) → count p todo ≤ 1)
    (new : (p : Ref) → (w.ops p).in_progress ≡ true → count p todo ≡ 0) where
  -- Claiming all, and then taking back the claims after the first `n`.
  roll_back-Takes :
      (n : ℕ)
      → Takes c
          (take n todo)
          w
          (unclaim_all (drop n todo) (queue (take n todo) (claim_each c todo w)))
  roll_back-Takes n =
      let w1 = queue (take n todo) (claim_each c todo w) in
      let xs = drop n todo in
      record {
        in_progress = λ q.
            let a = (claim_each-ops c todo w q).0 in
            let b = (unclaim_all-ops xs w1 q).0 in
            ground (arith, a, b, count-take-drop n q todo, once q, new q);
        context = λ q.
            let a = (claim_each-ops c todo w q).1 in
            let b = (unclaim_all-ops xs w1 q).1 in
            ground (arith, a, b, count-take-drop n q todo, once q, new q, tidy q);
        done = λ q. unclaim_all-done xs w1 q ∙ claim_each-done c todo w q;
        refs = λ q.
            let a =
              claim_each-refs c todo w q once (λ p here. ground (arith, tidy p, new p, here)) in
            let b =
              unclaim_all-refs c xs w1 q (λ p. omega (arith, once p, count-take-drop n p todo))
                (λ p here.
                  ground (arith, (claim_each-ops c todo w p).1, here, count-take-drop n p todo)) in
            ground (arith, a, b, count-take-drop n q todo, length-take-drop n todo);
        queued = unclaim_all-queued xs w1 ∙ ap (λ l. l ++ take n todo) (claim_each-queued c todo w);
      }

queue-nil : (w : World) → queue [] w ≡ w
queue-nil w = ap (λ l. record w { queued = l }) (append-nil w.queued)

abbrev Meets : (Ref → List Ref → Answer) → Ref → List Ref → World → Result Value × World → Type 0
Meets io_submit c todo w (r, w') =
    (r ≡ (expected io_submit c todo).0) × Takes c (take (expected io_submit c todo).1 todo) w w'

hand_over-Meets :
    (io_submit : Ref → List Ref → Answer) (c : Ref) (todo : List Ref) (w : World)
    → IsTidy w
    → ((p : Ref) → count p todo ≤ 1)
    → ((p : Ref) → (w.ops p).in_progress ≡ true → count p todo ≡ 0)
    → Meets io_submit c todo w (hand_over io_submit c todo (claim_each c todo w))
unfolding hand_over unclaim_all
hand_over-Meets io_submit c [] w tidy once new = (
  refl,
  subst (Takes c [] w) (ap (unclaim_all []) (queue-nil (claim_each c [] w)))
      (roll_back-Takes c [] w tidy once new 0),
)
hand_over-Meets io_submit c (p ∷ ps) w tidy once new =
    let todo = p ∷ ps in
    elim (Answer-cases (io_submit c todo)) [
      | inl (n, e) ↦ rw (e, hand_over, expected) (refl, roll_back-Takes c todo w tidy once new n)
      | inr (n, e) ↦
          rw (e, hand_over, expected)
            (
              refl,
              subst (Takes c [] w) (ap (unclaim_all todo) (queue-nil (claim_each c todo w)))
                  (roll_back-Takes c todo w tidy once new 0),
            )
    ]

abbrev or_nil : Result (List Ref) → List Ref
or_nil (ok ps) = ps
or_nil (raise e) = []

loops-Meets :
    (io_submit : Ref → List Ref → Answer) (c : Ref) (ps : List Ref) (w : World)
    → IsTidy w
    → Meets io_submit c (unclaimed (claimed_in w) ps) w (
        hand_over io_submit c
          (unclaimed (claimed_in w) ps)
          (claim_each c (unclaimed (claimed_in w) ps) w))
loops-Meets io_submit c ps w tidy =
    hand_over-Meets io_submit c (unclaimed (claimed_in w) ps) w tidy
      (λ p. (count-unclaimed (claimed_in w) ps p).0) (λ p. (count-unclaimed (claimed_in w) ps p).1)

-- With a handle, memory for the arrays, a tuple of operations and no context held by an operation that
-- is not claimed, the call claims and hands over exactly those of the operations not yet claimed that
-- the kernel took, each once; all others keep their claim, context and references. It returns their number, or raises if the kernel took none and failed.
pub submit-Takes :
    (io_submit : Ref → List Ref → Answer) (c : Ref) (args : List Arg) (ps : List Ref) (w : World)
    → IsTidy w
    → ((w.ctxs c).ctx == 0) ≡ false
    → check_types args ≡ ok ps
    → (let todo = unclaimed (claimed_in w) ps in
        let (r, w') = submit io_submit true (some c) (some args) w in
        (r ≡ (expected io_submit c todo).0)
        × Takes c (take (expected io_submit c todo).1 todo) w w')
unfolding submit submit_args submit_checked unclaimed claim_each hand_over check_types
submit-Takes io_submit c [] ps w tidy opened typed =
    let none_left : [] ≡ ps = ap or_nil typed in
    subst
      (λ l.
        Meets io_submit c (unclaimed (claimed_in w) l) w
          (submit io_submit true (some c) (some []) w))
      none_left (rw opened (loops-Meets io_submit c [] w tidy))
submit-Takes io_submit c (arg ∷ args) ps w tidy opened typed =
    let (xs, state) = claim_all-unclaimed c ps w in
    rw (opened, submit, typed, xs, state) (loops-Meets io_submit c ps w tidy)

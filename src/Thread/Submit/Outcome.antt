-- ===== src/Thread/Submit/Outcome.antt =====
-- AIOContext_submit on every outcome of its checks and of the pool.
use caio.Base.{
  ltb, ◌==◌, if◌then◌else◌, Bool-cases, length, take, count, pos, Ref, unclaimed, PyErr,
  memory_error, Result, ok, raise, int, Arg, ℕ, ◌+◌, ◌<◌, ◌≡◌, refl, sym, ap, ◌∙◌, ◌⊎◌, inl, inr,
  Bool, true, false, not, ◌&&◌, Option, none, some, List, [], ◌∷◌, ◌++◌, arith,
}
use caio.Thread.State.{World}
use caio.Thread.Submit.{check_types, claim, enqueue, Add, dispatch_to, submit_checked, submit}
use caio.Thread.Submit.Effect.{claimed_in, IsTidy, accept, TakesAll, Refuses, dispatch-Submits}
use mathlib.Core.List.{append-nil, append_assoc}

-- `w'` is `w` with the operations `xs` claimed for `c` and queued in order. Each holds the context
-- once, and the pool one reference to each operation; nothing else has changed.
pub record HandsOver (c : Ref) (xs : List Ref) (w w' : World) : Type 0 where
  pub tasks : w'.tasks ≡ w.tasks ++ xs
  pub ops :
      (q : Ref)
      → w'.ops q ≡ (
          if ltb 0 (count q xs)
          then record (w.ops q) { in_progress = true; ctx = some c }
          else w.ops q)
  pub refs : (q : Ref) → w'.refs q ≡ w.refs q + count q xs + (if q == c then length xs else 0)
  pub ctxs : w'.ctxs ≡ w.ctxs
  pub blocks : w'.blocks ≡ w.blocks
  pub freed : w'.freed ≡ w.freed
  pub destroyed : w'.destroyed ≡ w.destroyed
  pub calls : w'.calls ≡ w.calls

accept-HandsOver : (c : Ref) (xs : List Ref) (w : World) → HandsOver c xs w (accept c xs w)
unfolding accept claim
accept-HandsOver c [] w = record {
  tasks = sym (append-nil w.tasks);
  ops = λ q. refl;
  refs = λ q. ground arith;
  ctxs = refl;
  blocks = refl;
  freed = refl;
  destroyed = refl;
  calls = refl;
}
accept-HandsOver c (x ∷ xs) w =
    let rest = accept-HandsOver c xs (enqueue x (claim c x w)) in
    record {
      tasks = rest.tasks ∙ append_assoc w.tasks (x ∷ []) xs;
      ops = λ q. ground (arith, rest.ops q);
      refs = λ q. ground (arith, rest.refs q);
      ctxs = rest.ctxs;
      blocks = rest.blocks;
      freed = rest.freed;
      destroyed = rest.destroyed;
      calls = rest.calls;
    }

-- On a context with an open pool, with a tuple of operations, memory for the array, and operations
-- that hold no context while they are not claimed: the first `n` of those not yet claimed are handed
-- over, each once and in order, and the pool took each of them. Either these are all, and the call
-- returns their number, or the pool refused the next one, which is as it was, and the call raises the
-- error of that answer.
pub submit-HandsOver :
    (add : Add) (c pool : Ref) (args : List Arg) (ps : List Ref) (w : World)
    → IsTidy w
    → check_types args ≡ ok ps
    → (w.ctxs c).pool ≡ some pool
    → let todo = unclaimed (claimed_in w) ps in
      let (r, w') = submit true add (some c) (some args) w in
      (n : ℕ) × HandsOver c (take n todo) w w'
      × TakesAll add c pool w (take n todo)
      × (((r ≡ ok (int (pos n))) × (n ≡ length todo)) ⊎ Refuses add c pool w' n todo r)
unfolding submit submit_checked dispatch_to
submit-HandsOver add c pool args ps w tidy typed open_pool =
    let (n, state, taken, result) = dispatch-Submits add c pool ps 0 w tidy in
    let guard : (ltb 0 (length args) && not true) ≡ false = ground arith in
    rw (guard, submit, typed, open_pool)
      (
        n,
        rw state (accept-HandsOver c (take n (unclaimed (claimed_in w) ps)) w),
        taken,
        elim result [
          | inl (r, all) ↦ inl (r ∙ ap (λ k. ok (int (pos k))) (omega arith), all)
          | inr failed ↦ inr (rw state failed)
        ],
      )

-- Whatever keeps a call from the second loop: NULL for the context, no tuple, no memory for the
-- array, an argument that is no operation, or a context that was closed.
pub data Barred (alloc : Bool) (w : World) : Option Ref → Option (List Arg) → Type 0 where
  no_self : (args : Option (List Arg)) → Barred alloc w none args
  no_tuple : (c : Ref) → Barred alloc w (some c) none
  no_memory :
      (c : Ref) (args : List Arg)
      → 0 < length args
      → alloc ≡ false
      → Barred alloc w (some c) (some args)
  wrong_type :
      (c : Ref) (args : List Arg) {e : PyErr}
      → check_types args ≡ raise e
      → Barred alloc w (some c) (some args)
  closed :
      (c : Ref) (args : List Arg) → (w.ctxs c).pool ≡ none → Barred alloc w (some c) (some args)

submit_checked-closed :
    (r : Result (List Ref)) (add : Add) (c : Ref) (w : World)
    → (w.ctxs c).pool ≡ none
    → ((submit_checked r add c w).1 ≡ w) × ((e : PyErr) × ((submit_checked r add c w).0 ≡ raise e))
unfolding submit_checked dispatch_to
submit_checked-closed (raise e) add c w h = (refl, (e, refl))
submit_checked-closed (ok ps) add c w h = rw (h, dispatch_to) (refl, (_, refl))

-- Then submit raises, and leaves every operation, reference and task as it was.
pub submit-Barred :
    (alloc : Bool) (add : Add) (self : Option Ref) (args : Option (List Arg)) (w : World)
    → Barred alloc w self args
    → ((submit alloc add self args w).1 ≡ w)
      × ((e : PyErr) × ((submit alloc add self args w).0 ≡ raise e))
unfolding submit submit_checked dispatch_to
submit-Barred alloc add _ _ w (no_self args) = (refl, (_, refl))
submit-Barred alloc add _ _ w (no_tuple c) = (refl, (_, refl))
submit-Barred alloc add _ _ w (no_memory c args long poor) =
    let guard : (ltb 0 (length args) && not alloc) ≡ true = ground arith in
    rw (guard, submit) (refl, (memory_error, refl))
submit-Barred alloc add _ _ w (wrong_type c args e) =
    elim (Bool-cases (ltb 0 (length args) && not alloc)) [
      | inl poor ↦ rw (poor, submit) (refl, (memory_error, refl))
      | inr enough ↦ rw (enough, submit, e) (refl, (_, refl))
    ]
submit-Barred alloc add _ _ w (closed c args e) =
    elim (Bool-cases (ltb 0 (length args) && not alloc)) [
      | inl poor ↦ rw (poor, submit) (refl, (memory_error, refl))
      | inr enough ↦ rw (enough, submit) (submit_checked-closed (check_types args) add c w e)
    ]

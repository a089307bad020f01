-- ===== src/Thread/Submit/Effect.antt =====
-- What a call of AIOContext_submit leaves behind, whatever the pool answers.
use caio.Base.{
  ltb, Bool-cases, Option-cases, length, take, ℤ, pos, negsuc, is_neg, Ref, update, unclaimed,
  PyErr, Result, ok, raise, Value, int, Arg, ℕ, zero, suc, ◌+◌, ◌<◌, ◌≡◌, refl, sym, ap, ◌∙◌, subst,
  ◌⊎◌, inl, inr, Bool, true, false, not, ◌&&◌, Option, none, some, List, [], ◌∷◌, ◌++◌, arith,
}
use caio.Thread.State.{World}
use caio.Thread.Submit.{
  process_pool_error, check_types, claim, unclaim, enqueue, Add, dispatch, dispatch_to,
  submit_checked, submit,
}
use mathlib.Core.Path.{fun_ext}

abbrev pub claimed_in : World → Ref → Bool
claimed_in w p = (w.ops p).in_progress

-- An operation that is not claimed holds no context.
abbrev pub IsTidy : World → Type 0
IsTidy w = (p : Ref) → (w.ops p).in_progress ≡ false → (w.ops p).ctx ≡ none

-- Each of `ps` claimed for the context `c` and queued, in order.
unfoldable pub accept : Ref → List Ref → World → World
accept c [] w = w
accept c (p ∷ ps) w = accept c ps (enqueue p (claim c p w))

unclaim-claim :
    (c p : Ref) (w : World)
    → (w.ops p).in_progress ≡ false
    → (w.ops p).ctx ≡ none
    → unclaim c p (claim c p w) ≡ w
unfolding claim unclaim
unclaim-claim c p w idle bare = λ i. record {
  ops = ops_path i;
  ctxs = w.ctxs;
  refs = refs_path i;
  blocks = w.blocks;
  tasks = w.tasks;
  destroyed = w.destroyed;
  freed = w.freed;
  calls = w.calls;
}
  where
    ops_path : (unclaim c p (claim c p w)).ops ≡ w.ops
    ops_path = fun_ext λ q. ground arith

    refs_path : (unclaim c p (claim c p w)).refs ≡ w.refs
    refs_path = fun_ext λ q. ground arith

claim-IsTidy : (c p : Ref) (w : World) → IsTidy w → IsTidy (enqueue p (claim c p w))
unfolding claim
claim-IsTidy c p w h q e = ground (arith, h q)

claimed_in-claim :
    (c p : Ref) (w : World) → claimed_in (enqueue p (claim c p w)) ≡ update (claimed_in w) p true
unfolding claim
claimed_in-claim c p w = fun_ext λ q. ground arith

-- A negative answer of the pool is an error, and no other.
pool_answer :
    (z : ℤ)
    → ((process_pool_error z ≡ none) × (is_neg z ≡ false))
      ⊎ ((e : PyErr) × (process_pool_error z ≡ some e) × (is_neg z ≡ true))
unfolding process_pool_error
pool_answer (pos n) = inl (refl, refl)
pool_answer (negsuc zero) = inr (_, refl, refl)
pool_answer (negsuc (suc zero)) = inr (_, refl, refl)
pool_answer (negsuc (suc (suc zero))) = inr (_, refl, refl)
pool_answer (negsuc (suc (suc (suc zero)))) = inr (_, refl, refl)
pool_answer (negsuc (suc (suc (suc (suc zero))))) = inr (_, refl, refl)
pool_answer (negsuc (suc (suc (suc (suc (suc n)))))) = inr (_, refl, refl)

-- From `w` on, the pool takes each of `ps` in turn, each claimed when it is asked.
abbrev pub TakesAll : Add → Ref → Ref → World → List Ref → Type 0
TakesAll add c pool w [] = Unit {0}
TakesAll add c pool w (p ∷ ps) =
    (is_neg (add (claim c p w) pool p) ≡ false) × TakesAll add c pool (enqueue p (claim c p w)) ps

-- In `v`, after the first `n` of `todo`, the pool refuses the next one, and `r` raises what that
-- answer stands for.
abbrev pub Refuses : Add → Ref → Ref → World → ℕ → List Ref → Result Value → Type 0
Refuses add c pool v n todo r =
    (e : PyErr) × (p : Ref) × (rest : List Ref) × (r ≡ raise e)
    × (n < length todo)
    × (todo ≡ take n todo ++ p ∷ rest)
    × (is_neg (add (claim c p v) pool p) ≡ true)
    × (process_pool_error (add (claim c p v) pool p) ≡ some e)

-- The first `n` of `todo` are handed over: all of them and the call counts them, or it raises since
-- the pool refused the next one.
abbrev pub Submits : Add → Ref → Ref → World → ℕ → List Ref → Result Value × World → Type 0
Submits add c pool w j todo (r, w') =
    (n : ℕ) × (w' ≡ accept c (take n todo) w)
    × TakesAll add c pool w (take n todo)
    × (((r ≡ ok (int (pos (j + n)))) × (n ≡ length todo))
        ⊎ Refuses add c pool (accept c (take n todo) w) n todo r)

dispatch-step :
    (add : Add) (c pool p : Ref) (ps : List Ref) (j : ℕ) (w : World)
    → (w.ops p).in_progress ≡ false
    → (w.ops p).ctx ≡ none
    → Submits add c pool
        (enqueue p (claim c p w))
        (suc j)
        (unclaimed (update (claimed_in w) p true) ps)
        (dispatch add c pool ps (suc j) (enqueue p (claim c p w)))
    → Submits add c pool w j
        (p ∷ unclaimed (update (claimed_in w) p true) ps)
        (dispatch add c pool (p ∷ ps) j w)
unfolding accept dispatch unclaimed
dispatch-step add c pool p ps j w idle bare later = elim (pool_answer (add (claim c p w) pool p)) [
  | inl (accepted, fine) ↦
      let (n, state, taken, result) = later in
      rw (idle, dispatch, accepted)
        (
          suc n,
          state,
          (fine, taken),
          elim result [
            | inl (r, all) ↦ inl (r ∙ ap (λ k. ok (int (pos k))) (omega arith), ap suc all)
            | inr (e, q, rest, r, left, split, neg, said) ↦
                inr (e, q, rest, r, omega arith, ap (λ l. p ∷ l) split, neg, said)
          ],
        )
  | inr (e, refused, neg) ↦
      let todo = unclaimed (update (claimed_in w) p true) ps in
      let said : Refuses add c pool w 0 (p ∷ todo) (raise e) =
        (e, p, todo, refl, omega arith, refl, neg, refused) in
      rw (idle, dispatch, refused) (0, unclaim-claim c p w idle bare, tt, inr said)
]

pub dispatch-Submits :
    (add : Add) (c pool : Ref) (ps : List Ref) (j : ℕ) (w : World)
    → IsTidy w
    → Submits add c pool w j (unclaimed (claimed_in w) ps) (dispatch add c pool ps j w)
unfolding unclaimed dispatch accept
dispatch-Submits add c pool [] j w h =
    (0, refl, tt, inl (ap (λ k. ok (int (pos k))) (omega arith), refl))
dispatch-Submits add c pool (p ∷ ps) j w h = elim (Bool-cases (w.ops p).in_progress) [
  | inl busy ↦ rw (busy, unclaimed, dispatch) (dispatch-Submits add c pool ps j w h)
  | inr idle ↦
      let rest =
        dispatch-Submits add c pool ps (suc j) (enqueue p (claim c p w)) (claim-IsTidy c p w h) in
      let later =
        subst
          (λ f.
            Submits add c pool (enqueue p (claim c p w)) (suc j) (unclaimed f ps)
              (dispatch add c pool ps (suc j) (enqueue p (claim c p w))))
          (claimed_in-claim c p w) rest in
      subst (λ todo. Submits add c pool w j todo (dispatch add c pool (p ∷ ps) j w)) (rw idle)
        (dispatch-step add c pool p ps j w idle (h p idle) later)
]

-- A property that each hand-over keeps holds after the whole call.
pub dispatch-preserves {ℓ} :
    (P : World → Type ℓ) (add : Add) (c pool : Ref) (ps : List Ref) (j : ℕ) (w : World)
    → ((v : World) → P v → IsTidy v)
    → ((v : World) (p : Ref) → P v → (v.ops p).in_progress ≡ false → P (enqueue p (claim c p v)))
    → P w
    → P (dispatch add c pool ps j w).1
unfolding dispatch
dispatch-preserves P add c pool [] j w tidy keep h = h
dispatch-preserves P add c pool (p ∷ ps) j w tidy keep h = elim (Bool-cases (w.ops p).in_progress) [
  | inl busy ↦ rw (busy, dispatch) (dispatch-preserves P add c pool ps j w tidy keep h)
  | inr idle ↦ elim (Option-cases (process_pool_error (add (claim c p w) pool p))) [
    | inl accepted ↦
        rw (idle, dispatch, accepted)
          (dispatch-preserves P add c pool ps (suc j) (enqueue p (claim c p w)) tidy keep
            (keep w p h idle))
    | inr (e, refused) ↦
        rw (idle, dispatch, refused) (subst P (sym (unclaim-claim c p w idle (tidy w h p idle))) h)
  ]
]

module _ {ℓ} (P : World → Type ℓ) (add : Add) (tidy : (v : World) → P v → IsTidy v)
    (keep : (c : Ref) (v : World) (p : Ref)
      → P v
      → (v.ops p).in_progress ≡ false
      → P (enqueue p (claim c p v))) where
  dispatch_to-preserves :
      (pool : Option Ref) (c : Ref) (ps : List Ref) (w : World)
      → P w
      → P (dispatch_to pool add c ps w).1
  unfolding dispatch_to
  dispatch_to-preserves none c ps w h = h
  dispatch_to-preserves (some pool) c ps w h =
      dispatch-preserves P add c pool ps 0 w tidy (keep c) h

  submit_checked-preserves :
      (r : Result (List Ref)) (c : Ref) (w : World) → P w → P (submit_checked r add c w).1
  unfolding submit_checked
  submit_checked-preserves (raise e) c w h = h
  submit_checked-preserves (ok ps) c w h = dispatch_to-preserves (w.ctxs c).pool c ps w h

  pub submit-preserves :
      (alloc : Bool) (self : Option Ref) (args : Option (List Arg)) (w : World)
      → P w
      → P (submit alloc add self args w).1
  unfolding submit
  submit-preserves alloc none args w h = h
  submit-preserves alloc (some c) none w h = h
  submit-preserves alloc (some c) (some args) w h =
      elim (Bool-cases (ltb 0 (length args) && not alloc)) [
        | inl poor ↦ rw (poor, submit) h
        | inr enough ↦ rw (enough, submit) (submit_checked-preserves (check_types args) c w h)
      ]

-- ===== src/Thread/Context/Close.antt =====
-- AIOContext_close_pool, shared by close and dealloc.
use mathlib.Core.Path.{◌≡◌, refl, ap, fun_ext}
use caio.Base.{◌==◌, Ref, update, PyErr, raise, Arg, Bool, false, none, some, List, ◌∷◌, arith}
use caio.Thread.State.{World}
use caio.Thread.Context.{close_pool, close, dealloc}
use caio.Thread.Submit.{Add, submit}
use caio.Thread.Submit.Outcome.{closed, submit-Barred}

-- An open context gives up its pool, which is torn down. The tasks that it has accepted stay, for
-- its threads to run, and so do the operations, the references and the other contexts.
pub record Closes (c pool : Ref) (w w' : World) : Type 0 where
  pub closed : (w'.ctxs c).pool ≡ none
  pub others : (d : Ref) → (d == c) ≡ false → w'.ctxs d ≡ w.ctxs d
  pub destroyed : w'.destroyed ≡ pool ∷ w.destroyed
  pub tasks : w'.tasks ≡ w.tasks
  pub ops : w'.ops ≡ w.ops
  pub refs : w'.refs ≡ w.refs

no_pool : (c : Ref) (w : World) → (w.ctxs c).pool ≡ none → close_pool c w ≡ w
unfolding close_pool
no_pool c w e = rw (e, close_pool) λ i. record w { ctxs = ctxs_path i }
  where
    ctxs_path : update w.ctxs c (record (w.ctxs c) { pool = none }) ≡ w.ctxs
    ctxs_path = fun_ext λ d. ground arith

close_pool-Closes :
    (c pool : Ref) (w : World) → (w.ctxs c).pool ≡ some pool → Closes c pool w (close_pool c w)
unfolding close_pool
close_pool-Closes c pool w e =
    rw (e, close_pool)
      (record {
        closed = ground arith;
        others = λ d away. ground arith;
        destroyed = refl;
        tasks = refl;
        ops = refl;
        refs = refl;
      })

-- close tears down the pool of an open context and nothing else. A second close, or the release of
-- the context later, finds no pool: it tears down nothing again.
pub close_once :
    (c pool : Ref) (w : World)
    → (w.ctxs c).pool ≡ some pool
    → let w' = (close c w).1 in
      Closes c pool w w' × ((close c w').1 ≡ w') × ((dealloc c w').destroyed ≡ w'.destroyed)
unfolding close dealloc
close_once c pool w e =
    let shut = close_pool-Closes c pool w e in
    let again = no_pool c (close_pool c w) shut.closed in (shut, again, ap (λ v. v.destroyed) again)

-- After close no call of submit on the context hands anything over: it raises.
pub submit-close :
    (alloc : Bool) (add : Add) (c : Ref) (args : List Arg) (w : World)
    → let w' = (close c w).1 in
      ((submit alloc add (some c) (some args) w').1 ≡ w')
      × ((e : PyErr) × ((submit alloc add (some c) (some args) w').0 ≡ raise e))
unfolding close close_pool
submit-close alloc add c args w = submit-Barred alloc add _ _ _ (closed c args (ground arith))

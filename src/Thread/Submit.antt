-- ===== src/Thread/Submit.antt =====
-- AIOContext_submit: claims each operation once and hands it to the pool.
pub mod Effect
pub mod Outcome
use caio.Base.{
  ltb, if◌then◌else◌, length, ℤ, pos, negsuc, Ref, incref, decref, PyErr, runtime_error,
  value_error, type_error, memory_error, Result, ok, raise, Value, int, Arg, operation, other, ℕ,
  zero, suc, Bool, true, false, not, ◌&&◌, Option, none, some, List, [], ◌∷◌, ◌++◌,
}
use caio.Thread.State.{World, set_op, set_refs}

-- process_pool_error: the exception that it sets, if any. Its result is its argument.
pub process_pool_error : ℤ → Option PyErr
process_pool_error (pos n) = none
process_pool_error (negsuc zero) = some (runtime_error "Thread pool pointer is invalid")
process_pool_error (negsuc (suc zero)) = some (runtime_error "Failed to lock thread pool")
process_pool_error (negsuc (suc (suc zero))) = some (runtime_error "Thread pool queue full")
process_pool_error (negsuc (suc (suc (suc zero)))) = some (runtime_error "Thread pool is shutdown")
process_pool_error (negsuc (suc (suc (suc (suc zero))))) = some (runtime_error "Thread failure")
process_pool_error (negsuc (suc (suc (suc (suc (suc n)))))) = some (runtime_error "Unknown error")

-- The first loop: the operations among the arguments, or the failure at the first other object.
unfoldable pub check_types : List Arg → Result (List Ref)
check_types [] = ok []
check_types (other ∷ args) = raise (type_error "Wrong type for argument")
check_types (operation p ∷ args) = elim (check_types args) [
  | ok ps ↦ ok (p ∷ ps)
  | raise e ↦ raise e
]

-- The exchange on `in_progress`, and the references that the task holds.
unfoldable pub claim : Ref → Ref → World → World
claim c p w =
    set_refs (incref c (incref p w.refs))
      (set_op p (record (w.ops p) { in_progress = true; ctx = some c }) w)

-- The way back when the pool refuses.
unfoldable pub unclaim : Ref → Ref → World → World
unclaim c p w =
    set_refs (decref c (decref p w.refs))
      (set_op p (record (w.ops p) { in_progress = false; ctx = none }) w)

abbrev pub enqueue : Ref → World → World
enqueue p w = record w { tasks = w.tasks ++ p ∷ [] }

-- What `threadpool_add` answers for a pool and an operation.
abbrev pub Add : Type 0
Add = World → Ref → Ref → ℤ

-- The second loop, with `j` operations accepted so far.
unfoldable pub dispatch : Add → Ref → Ref → List Ref → ℕ → World → Result Value × World
unfolding claim unclaim
dispatch add c pool [] j w = (ok (int (pos j)), w)
dispatch add c pool (p ∷ ps) j w =
    let skip = dispatch add c pool ps j w in
    let w' = claim c p w in
    let next = dispatch add c pool ps (suc j) (enqueue p w') in
    let refused = unclaim c p w' in
    if (w.ops p).in_progress
    then skip
    else elim (process_pool_error (add w' pool p)) [ none ↦ next | some e ↦ (raise e, refused) ]

-- With the arguments checked: the second loop, on a Context that has its pool.
pub dispatch_to : Option Ref → Add → Ref → List Ref → World → Result Value × World
unfolding dispatch
dispatch_to none add c ps w = (raise (runtime_error "self->pool is NULL"), w)
dispatch_to (some pool) add c ps w = dispatch add c pool ps 0 w

pub submit_checked : Result (List Ref) → Add → Ref → World → Result Value × World
unfolding dispatch_to
submit_checked (raise e) add c w = (raise e, w)
submit_checked (ok ps) add c w = dispatch_to (w.ctxs c).pool add c ps w

-- AIOContext_submit. `self` is `none` for NULL, the arguments for what is no tuple; `alloc` says
-- whether `PyMem_New` succeeds.
unfoldable pub submit : Bool → Add → Option Ref → Option (List Arg) → World → Result Value × World
unfolding submit_checked check_types process_pool_error
submit alloc add none args w = (raise (runtime_error "self is NULL"), w)
submit alloc add (some c) none w = (raise (value_error ""), w)
submit alloc add (some c) (some args) w =
    if ltb 0 (length args) && not alloc
    then (raise memory_error, w)
    else submit_checked (check_types args) add c w

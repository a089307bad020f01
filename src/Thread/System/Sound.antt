-- ===== src/Thread/System/Sound.antt =====
-- An operation is in flight exactly while one task or one worker has it: the steps that hand an
-- operation on.
use caio.Base.{
  if◌then◌else◌, is_none, count, erase, count-append, count-erase, Ref, Arg, ℕ, ◌+◌, ◌<◌, ◌≡◌, Bool,
  false, Option, none, List, [], ◌∷◌, ◌++◌, arith,
}
use caio.Thread.State.{Operation, World}
use caio.Thread.Operation.{in_flight}
use caio.Thread.Submit.{claim, enqueue, Add, submit}
use caio.Thread.Submit.Effect.{submit-preserves}
use caio.Thread.Worker.{Kernel, begin, perform, publish, retire, is_noop}
use caio.Thread.System.{begun, Job, pending_phase, pending}

abbrev pub flight : Operation → ℕ
flight o = if in_flight o then 1 else 0

-- The invariant, for one operation.
pub record IsSound (o : Operation) (queued worked : ℕ) : Type 0 where
  pub flies : queued + worked ≡ flight o
  pub bare : o.in_progress ≡ false → o.ctx ≡ none
  pub unfinished : o.in_progress ≡ false → o.done ≡ false
  pub holds : 0 < queued → is_none o.ctx ≡ false
  pub real : is_noop o.opcode ≡ false

abbrev pub Inv : World → List Job → Type 0
Inv w js = (p : Ref) → IsSound (w.ops p) (count p w.tasks) (pending p js)

pub claim-Inv :
    (js : List Job) (c : Ref) (w : World) (p : Ref)
    → Inv w js
    → (w.ops p).in_progress ≡ false
    → Inv (enqueue p (claim c p w)) js
unfolding claim
claim-Inv js c w p h idle q = ground (arith, h q, h p, count-append q w.tasks (p ∷ []))

pub submit-Inv :
    (js : List Job) (alloc : Bool) (add : Add) (self : Option Ref) (args : Option (List Arg))
    (w : World)
    → Inv w js
    → Inv (submit alloc add self args w).1 js
submit-Inv js alloc add self args w h =
    submit-preserves (λ v. Inv v js) add (λ v i p. (i p).bare) (claim-Inv js) alloc self args w h

pub begin-Inv :
    (js : List Job) (c : Option Ref) (w : World) (p : Ref)
    → Inv w js
    → 0 < count p w.tasks
    → Inv
        (begin p (record w { tasks = erase p w.tasks }))
        (record { op = p; ctx = c; phase = begun } ∷ js)
unfolding begin
begin-Inv js c w p h some_task q = ground (arith, h q, h p, count-erase q p w.tasks)

pub pending-append :
    (p : Ref) (js ks : List Job) → pending p (js ++ ks) ≡ pending p js + pending p ks
pending-append p [] ks = omega arith
pending-append p (j ∷ js) ks = omega (arith, pending-append p js ks)

-- A run of `worker` goes on to its next phase, or ends.
module _ (js ks : List Job) (j : Job) (w : World) where
  pub perform-Inv :
      (k : Kernel) (j' : Job)
      → j'.op ≡ j.op
      → pending_phase j.phase ≡ 1
      → pending_phase j'.phase ≡ 1
      → Inv w (js ++ j ∷ ks)
      → Inv (perform k j.op w) (js ++ j' ∷ ks)
  unfolding perform
  perform-Inv k j' same a b h q =
      ground (arith, h q, h j.op, pending-append q js (j ∷ ks), pending-append q js (j' ∷ ks))

  pub publish-Inv :
      (j' : Job)
      → j'.op ≡ j.op
      → pending_phase j.phase ≡ 1
      → pending_phase j'.phase ≡ 0
      → Inv w (js ++ j ∷ ks)
      → Inv (publish j.op w) (js ++ j' ∷ ks)
  unfolding publish
  publish-Inv j' same a b h q = ground (
    arith,
    h q,
    h j.op,
    pending-append q js (j ∷ ks),
    pending-append q js (j' ∷ ks),
    pending-append j.op js (j ∷ ks),
  )

  pub retire-Inv :
      (f c : Option Ref)
      → pending_phase j.phase ≡ 0
      → Inv w (js ++ j ∷ ks)
      → Inv (retire f c j.op w) (js ++ ks)
  unfolding retire
  retire-Inv f c a h q = ground (arith, h q, pending-append q js (j ∷ ks), pending-append q js ks)

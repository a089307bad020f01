-- ===== src/Thread/System/Safety.antt =====
-- What the invariant gives: exclusive hand-over, results that are final once published, and a way
-- to finish for every operation in flight.
use caio.Base.{
  ◌==◌, ==_iff, Bool-cases, Option-cases, count, Ref, runtime_error, raise, Arg, ℕ, ◌+◌, ◌<◌, ◌≡◌,
  refl, sym, ap, subst, ◌≢◌, ◌⊎◌, inl, inr, Bool, true, false, Option, some, List, ◌∷◌, arith,
}
use caio.Thread.State.{Operation, World}
use caio.Thread.Operation.{clear, set_callback, in_flight, get_value, payload}
use caio.Thread.Worker.{Kernel, begin, perform, publish, retire}
use caio.Thread.System.{
  begun, performed, Job, System, pending, Step, submits, begins, skips, performs, publishes,
  retires, creates, sets_callback, gets_payload, clears, closes, Initial, Reach,
}
use caio.Thread.System.Sound.{flight, Inv, claim-Inv, pending-append}
use caio.Thread.System.Invariant.{Reach-Inv}
use caio.Thread.Context.{close}
use caio.Thread.Submit.{claim, enqueue, Add, submit}
use caio.Thread.Submit.Effect.{submit-preserves}
use caio.Thread.System.Renewal.{create-Renews, create-blocks, create-none}

-- In every reachable state an operation that was claimed and is not done has exactly one task or
-- one unfinished worker, and any other operation has none.
pub one_holder :
    {k : Kernel} {s t : System}
    → Initial s
    → Reach k s t
    → (p : Ref) → count p t.world.tasks + pending p t.jobs ≡ flight (t.world.ops p)
one_holder i r p = (Reach-Inv i r p).flies

-- In every reachable state, while a task has an operation, or a worker that has yet to publish it as
-- done, neither its value nor its payload can be read. A worker whose callback runs has published.
pub held_is_unreadable :
    {k : Kernel} {s t : System}
    → Initial s
    → Reach k s t
    → (p : Ref) → 0 < count p t.world.tasks + pending p t.jobs
    → (get_value p t.world
        ≡ raise (runtime_error "get_value() is not available while the operation is in flight"))
      × (payload p t.world ≡ (
        raise (runtime_error "payload is not available while the operation is in flight"),
        t.world,
      ))
unfolding get_value payload
held_is_unreadable {t} i r p some_holder =
    let flying : in_flight (t.world.ops p) ≡ true = ground (arith, (Reach-Inv i r p).flies) in
    (rw flying, rw flying)

-- All of an operation that get_value and the attributes of its result read. What clear and
-- set_callback may change, its view and its callback, is left out.
pub record SameResult (o o' : Operation) : Type 0 where
  pub done : o'.done ≡ o.done
  pub in_progress : o'.in_progress ≡ o.in_progress
  pub result : o'.result ≡ o.result
  pub error : o'.error ≡ o.error
  pub buf : o'.buf ≡ o.buf
  pub buf_size : o'.buf_size ≡ o.buf_size
  pub opcode : o'.opcode ≡ o.opcode

SameResult-refl : (o : Operation) → SameResult o o
SameResult-refl o = ground arith

-- The operation `p` has its result in `w'` as in `w`, with the bytes of its block, and get_value
-- answers the same.
pub record KeepsResult (p : Ref) (w w' : World) : Type 0 where
  pub fields : SameResult (w.ops p) (w'.ops p)
  pub stored : (b : Ref) → (w.ops p).buf ≡ some b → w'.blocks b ≡ w.blocks b
  pub value : get_value p w' ≡ get_value p w

keeps_result :
    (p : Ref) (w w' : World)
    → SameResult (w.ops p) (w'.ops p)
    → ((b : Ref) → (w.ops p).buf ≡ some b → w'.blocks b ≡ w.blocks b)
    → KeepsResult p w w'
unfolding get_value
keeps_result p w w' same stay = record {
  fields = same;
  stored = stay;
  value = elim (Option-cases (w.ops p).buf) [
    | inl e ↦ ground (
      arith, e, same.done, same.in_progress, same.result, same.error, same.buf, same.buf_size,
      same.opcode,
    )
    | inr (b, e) ↦ ground (
      arith,
      e,
      stay b e,
      same.done,
      same.in_progress,
      same.result,
      same.error,
      same.buf,
      same.buf_size,
      same.opcode,
    )
  ];
}

-- A fact about one done operation and the blocks through a call of submit.
submit-SameResult :
    (js : List Job) (p : Ref) (o : Operation) (blocks : Ref → List ℕ) (alloc : Bool) (add : Add)
    (self : Option Ref) (args : Option (List Arg)) (w : World)
    → o.done ≡ true
    → Inv w js
    → SameResult o (w.ops p)
    → w.blocks ≡ blocks
    → (let w' = (submit alloc add self args w).1 in SameResult o (w'.ops p) × (w'.blocks ≡ blocks))
unfolding claim
submit-SameResult js p o blocks alloc add self args w fin h same held =
    let r =
      submit-preserves (λ v. Inv v js × SameResult o (v.ops p) × (v.blocks ≡ blocks)) add
        (λ v x q. (x.0 q).bare)
        (λ c v q x idle. (claim-Inv js c v q x.0 idle, kept c v q x idle, x.2)) alloc self args w
        (h, same, held) in
    (r.1, r.2)
  where
    kept :
        (c : Ref) (v : World) (q : Ref)
        → Inv v js × SameResult o (v.ops p) × (v.blocks ≡ blocks)
        → (v.ops q).in_progress ≡ false
        → SameResult o ((enqueue q (claim c q v)).ops p)
    kept c v q x idle = ground (arith, x.1, (x.0 q).unfinished)

-- The step makes a new operation at the address `p` or gives it to the collector, or it gives the
-- block of `p` to a new operation or lets another operation's system call fill it.
abbrev pub Takes : Ref → {k : Kernel} {s t : System} → Step k s t → Type 0
Takes p {s} (creates a call unused) =
    (a.object ≡ some p)
    ⊎ ((n : ℕ) × (b : Ref) × ((s.world.ops p).buf ≡ some b) × (a.calloc n ≡ some b))
Takes p (submits _ _ _ _) = ⊥
Takes p (begins _ _ _) = ⊥
Takes p (skips _ _ _) = ⊥
Takes p {s} (performs _ _ q _ _) =
    (b : Ref) × ((s.world.ops p).buf ≡ some b) × ((s.world.ops q).buf ≡ some b)
Takes p (publishes _ _ _ _ _) = ⊥
Takes p (retires _ _ _ _ _ _) = ⊥
Takes p (sets_callback _ _ _) = ⊥
Takes p (gets_payload _) = ⊥
Takes p (clears q _) = q ≡ p
Takes p (closes _) = ⊥

perform-blocks :
    (k : Kernel) (q b : Ref) (w : World)
    → (w.ops q).buf ≢ some b
    → (perform k q w).blocks b ≡ w.blocks b
unfolding perform
perform-blocks k q b w away = ground (arith, away)

module _ {k : Kernel} {s : System} (p : Ref) (fin : (s.world.ops p).done ≡ true)
    (h : Inv s.world s.jobs) where
  -- In a state in which the invariant of the reachable ones holds, no step changes what an operation
  -- that is done shows, its fields, the bytes of its block and the answer of get_value, but a step
  -- that makes a new operation at its address, gives it to the collector, gives its block to a new
  -- operation, or performs another operation with the same block.
  pub Step-SameResult :
      {t : System} (st : Step k s t) → ¬ Takes p st → KeepsResult p s.world t.world
  Step-SameResult (submits alloc add self args) apart =
      let (same, blocks) =
        submit-SameResult s.jobs p (s.world.ops p) s.world.blocks alloc add self args s.world fin h
          (SameResult-refl _) refl in
      keeps_result p s.world _ same (λ b e. ap (λ f. f b) blocks)
  Step-SameResult (begins q some_task real) apart =
      keeps_result p s.world _ (unfold begin in ground (arith, (h p).flies))
        (λ b e. unfold begin in refl)
  Step-SameResult (skips q some_task noop) apart = absurd (cc (h q).real)
  Step-SameResult (performs js ks q c e) apart =
      keeps_result p s.world _ (unfold perform in ground (arith, (h q).flies, busy))
        (λ b held. perform-blocks k q b s.world (λ same. apart (b, held, same)))
    where
      busy : 0 < pending q s.jobs
      busy = ground (
        arith,
        ap (pending q) e,
        pending-append q js (record { op = q; ctx = c; phase = begun } ∷ ks),
      )
  Step-SameResult (publishes js ks q c e) apart =
      keeps_result p s.world _ (unfold publish in ground (arith, (h q).flies, busy))
        (λ b held. unfold publish in ground arith)
    where
      busy : 0 < pending q s.jobs
      busy = ground (
        arith,
        ap (pending q) e,
        pending-append q js (record { op = q; ctx = c; phase = performed } ∷ ks),
      )
  Step-SameResult (retires js ks q c f e) apart =
      keeps_result p s.world _ (unfold retire in SameResult-refl _)
        (λ b held. unfold retire in refl)
  Step-SameResult (creates a call unused) apart =
      keeps_result p s.world _
        elim (Option-cases a.object) [
          | inl e ↦ rw (create-none a call s.world e) (SameResult-refl _)
          | inr (q, e) ↦ elim (Bool-cases (p == q)) [
            | inl hit ↦
                absurd (apart (inl (subst (λ r. a.object ≡ some r) (sym ((==_iff p q).0 hit)) e)))
            | inr away ↦ rw ((create-Renews a call q s.world e).others p away) (SameResult-refl _)
          ]
        ]
        (λ b held. create-blocks a call b s.world (λ n got. apart (inr (n, b, held, got))))
  Step-SameResult (sets_callback q callable f) apart =
      keeps_result p s.world _ (unfold set_callback in ground arith)
        (λ b held. unfold set_callback in ground arith)
  Step-SameResult (gets_payload q) apart =
      keeps_result p s.world _ (unfold payload in ground arith)
        (λ b held. unfold payload in ground arith)
  Step-SameResult (clears q unused) apart =
      let away : (p == q) ≡ false = elim (Bool-cases (p == q)) [
        | inl hit ↦ absurd (apart (sym ((==_iff p q).0 hit)))
        | inr e ↦ e
      ] in
      keeps_result p s.world _ (unfold clear in ground (arith, away))
        (λ b held. unfold clear in ground arith)
  Step-SameResult (closes c) apart =
      keeps_result p s.world _ (unfold close in ground arith)
        (λ b held. unfold close in ground arith)

-- ===== src/Uring/System/Progress.antt =====
-- Every operation of a ring can be finished: the way from an entry in the submission ring, through
-- the kernel and the completion ring, to uring_drain_cq.
use caio.Base.{
  ltb, ◌==◌, Bool-cases, length, take-length_self, count, split_at_member, pos, u32, Ref, ℕ, zero,
  suc, ◌+◌, ◌^◌, ◌≤◌, ◌<◌, ◌≡◌, refl, sym, ap, ◌∙◌, subst, ◌≢◌, inl, inr, true, false, not, ◌&&◌,
  [], ◌∷◌, arith, dec_lt,
}
use caio.Uring.State.{cancel_user_data, Context, distance, World}
use caio.Uring.Ring.{window}
use caio.Uring.Drain.{Python, settle, scan, commit, capacity, drain}
use caio.Uring.Calls.{Kernel}
use caio.Uring.Submit.Queue.{entry, pending}
use caio.Uring.Submit.Refines.{staged}
use caio.Uring.Drain.Reader.{cqe_at, ready, completions}
use caio.Uring.Drain.Delivery.{keys}
use caio.Uring.System.{
  System, advance, post, IsPassive, IsApart, Step, drains, takes, posts, Reach, here, next,
}
use caio.Uring.System.Moves.{IsCq, post-ready}
use caio.Uring.System.Calls.{names, count-completions, deliver-same}
use caio.Uring.System.Invariant.{flight, Inv, ctxs-set_ctx, takes-Inv, posts-Inv}
use caio.Uring.System.Steps.{drain-Drained}
use caio.Uring.System.Safety.{Initial, Reach-Inv}
use caio.Uring.System.Callbacks.{IsApart-Reenters, drains-Inv}

-- With room for all completions in the batch, the loop of uring_drain_cq ends at the tail.
scan-tail :
    (x : Context) (n h seen max : ℕ) (w : World)
    → h < 2 ^ 32
    → n < 2 ^ 32
    → seen + n ≤ max
    → (scan x n h (u32 (h + n)) seen max w).1 ≡ u32 (h + n)
unfolding scan
scan-tail x zero h seen max w small short enough = omega arith
scan-tail x (suc n) h seen max w small short enough =
    let go : (not (h == u32 (h + suc n)) && ltb seen max) ≡ true = ground arith in
    let tail : u32 (u32 (h + 1) + n) ≡ u32 (h + suc n) = omega arith in
    elim (Bool-cases ((cqe_at x h).user_data == cancel_user_data)) [
      | inl sentinel ↦
          rw (go, sentinel)
            (rw (← tail)
              (scan-tail x n (u32 (h + 1)) seen max w (omega arith) (omega arith) (omega arith)))
      | inr real ↦
          rw (go, real)
            (rw (← tail) (
              scan-tail x n (u32 (h + 1)) (suc seen) max
                (settle (cqe_at x h).user_data (cqe_at x h).res w) (omega arith) (omega arith)
                (omega arith)))
    ]

-- So a call without a limit empties the ring.
drain-empties :
    (py : Python) (c : Ref) (w : World)
    → IsApart py
    → IsCq (w.ctxs c)
    → ((drain py true c (2 ^ 32) w).1.ctxs c).cq_head ≡ (w.ctxs c).cq_tail
unfolding drain commit
drain-empties py c w apart cq =
    let x = w.ctxs c in
    let n = distance x.cq_tail x.cq_head in
    let end : u32 (x.cq_head + n) ≡ x.cq_tail = omega (arith, cq.head, cq.tail) in
    let scanned = scan x n x.cq_head x.cq_tail 0 (2 ^ 32) w in
    let enough : (ltb 0 (capacity x (2 ^ 32)) && not true) ≡ false = ground arith in
    let at : scanned.1 ≡ x.cq_tail =
      subst (λ t. (scan x n x.cq_head t 0 (2 ^ 32) w).1 ≡ t) end
        (scan-tail x n x.cq_head 0 (2 ^ 32) w cq.head (omega arith) (omega arith)) in
    rw enough (
      ap (λ f. (f c).cq_head) (deliver-same py scanned.0 (commit c scanned.1 scanned.2) apart).1
      ∙ ground (arith, at))

-- What is reached from `s` with the operation `p` done.
abbrev pub Finishes : Kernel → Python → Ref → System → Ref → Type 0
Finishes k py c s p = (t : System) × Reach k py c s t × ((t.world.ops p).done ≡ true)

Reach-trans :
    {k : Kernel} {py : Python} {c : Ref} {s t u : System}
    → Reach k py c s t
    → Reach k py c t u
    → Reach k py c s u
Reach-trans r here = r
Reach-trans r (next q st) = next (Reach-trans r q) st

Step-Finishes :
    {k : Kernel} {py : Python} {c : Ref} {s t : System} (p : Ref)
    → Step k py c s t
    → Finishes k py c t p
    → Finishes k py c s p
Step-Finishes p st (u, r, fin) = (u, Reach-trans (next here st) r, fin)

module _ (k : Kernel) (py : Python) (c p : Ref) (apart : IsApart py)
    (real : p ≢ cancel_user_data) where
  completed-Finishes :
      (s : System)
      → Inv c s
      → 0 < count p (keys (completions (ready (s.world.ctxs c))))
      → Finishes k py c s p
  completed-Finishes s inv there =
      let l = completions (ready (s.world.ctxs c)) in
      let d = drain-Drained py c (length l) s apart inv in
      (
        record s { world = (drain py true c (length l) s.world).1 },
        next here (drains (length l)),
        (d.done p (subst (λ b. 0 < count p (keys b)) (sym (take-length_self l)) there)).0,
      )

  posted-Finishes :
      (s : System)
      → Inv c s
      → 0 < count p s.working
      → distance (s.world.ctxs c).cq_tail (s.world.ctxs c).cq_head
        < (s.world.ctxs c).cq_ring_mask + 1
      → Finishes k py c s p
  posted-Finishes s inv busy room =
      let (js, ks, split) = split_at_member p s.working busy in
      let x = s.world.ctxs c in
      Step-Finishes p (posts js ks p (pos 0) split room) (
        completed-Finishes _ (posts-Inv c s js ks p (pos 0) split room inv) (
          let posted_now =
            ap (λ y. count p (keys (completions (ready y))))
              (ctxs-set_ctx c (post p (pos 0) x) s.world)
            ∙ ap (λ l. count p (keys (completions l))) (post-ready p (pos 0) x inv.at.cq room)
            ∙ count-completions p (ready x) (record { user_data = p; res = pos 0 } ∷ []) in
          ground (arith, real)))

  working-Finishes : (s : System) → Inv c s → 0 < count p s.working → Finishes k py c s p
  working-Finishes s inv busy =
      let s' : System = record s { world = (drain py true c (2 ^ 32) s.world).1 } in
      let at_tail = drain-empties py c s.world apart inv.at.cq in
      let d = drain-Drained py c (2 ^ 32) s apart inv in
      Step-Finishes p (drains (2 ^ 32)) (
        posted-Finishes s' (drains-Inv py c (2 ^ 32) s (IsApart-Reenters py c apart) inv) busy (
          omega (
            arith,
            at_tail,
            ap (λ y. y.cq_tail) d.ring,
            ap (λ y. y.cq_ring_mask) d.ring,
            inv.at.cq.tail,
          )))

  staged-Finishes :
      (n : ℕ) (s : System)
      → Inv c s
      → staged (s.world.ctxs c) ≡ n
      → flight (s.world.ops p) ≡ 1
      → Finishes k py c s p
  staged-Finishes zero s inv none_left flying = elim (dec_lt 0 (count p s.working)) [
    | yes busy ↦ working-Finishes s inv busy
    | no away ↦
        let nothing : count p (names (pending (s.world.ctxs c))) ≡ 0 =
          ap (λ n. count p (names (window (entry (s.world.ctxs c)) (s.world.ctxs c).sq_head n)))
            none_left in
        completed-Finishes s inv (omega (arith, inv.at.one_place p real, nothing, flying, away))
  ]
  staged-Finishes (suc n) s inv left flying =
      let some_left : 0 < staged (s.world.ctxs c) = omega (arith, left) in
      Step-Finishes p (takes some_left) (
        staged-Finishes n _ (takes-Inv c s some_left inv)
          (omega (
            arith,
            ap staged (ctxs-set_ctx c (advance (s.world.ctxs c)) s.world),
            left,
            inv.at.ring.small,
            inv.at.ring.queue.small,
          ))
          flying)

-- From every reachable state of a ring, an operation in flight can be finished: by steps of the kernel,
-- which takes and completes entries, and calls of uring_drain_cq. The calls of the kernel leave its
-- moves to steps of their own, as callbacks leave those that change operations and contexts; the
-- address that cancel uses is no operation's.
pub flight-Finishes :
    (k : Kernel) (py : Python) (c : Ref) (s t : System) (p : Ref)
    → IsPassive k
    → IsApart py
    → Initial c s
    → Reach k py c s t
    → p ≢ cancel_user_data
    → flight (t.world.ops p) ≡ 1
    → Finishes k py c t p
flight-Finishes k py c s t p passive apart start reach real flying =
    staged-Finishes k py c p apart real (staged (t.world.ctxs c)) t
      (Reach-Inv k py c s t passive (IsApart-Reenters py c apart) start reach) refl flying

-- ===== src/Uring/Drain/Delivery.antt =====
-- What uring_drain_cq has done before its first callback runs, and what get_value then gives.
use caio.Base.{
  ltb, ◌==◌, if◌then◌else◌, Bool-cases, length, take, drop, length-take_le, length-take_le_all,
  count, ℤ, pos, negsuc, u32, signed32, Ref, system_error, ok, raise, bytes, object, ℕ, suc, ◌+◌,
  ◌^◌, ◌≤◌, ◌<◌, ◌≡◌, refl, ap, ◌∙◌, subst, ◌⊎◌, inl, inr, true, false, not, ◌&&◌, none, some, List,
  [], ◌∷◌, arith,
}
use caio.Uring.State.{uring_read, Cqe, Context, distance, World}
use caio.Uring.Drain.{Python, settle, scan, commit, deliver, capacity, drain}
use caio.Uring.Drain.Reader.{cqe_at, ready, completions, settle_all, Scans, ScansTo, scan-Scans}
use caio.Uring.Ring.{window, length-window}
use caio.Uring.Operation.{read_value, value_of, get_value}

-- The operations of a batch.
abbrev pub keys : List (Ref × ℤ) → List Ref
keys [] = []
keys ((p, res) ∷ ops) = p ∷ keys ops

-- The batch of a call: the first `max` completions of the ring.
abbrev pub batch_of : Context → ℕ → List (Ref × ℤ)
batch_of x max = take max (completions (ready x))

-- `w1` is `w` after the ring has given up the batch: the completions after it are left. The
-- operations of the batch are done and hold no context, and no other object has changed.
pub record IsCaughtUp (c max : ℕ) (w w1 : World) : Type 0 where
  pub rest : completions (ready (w1.ctxs c)) ≡ drop max (completions (ready (w.ctxs c)))
  pub done :
      (q : Ref)
      → 0 < count q (keys (batch_of (w.ctxs c) max))
      → ((w1.ops q).done ≡ true) × ((w1.ops q).context ≡ none)
  pub others : (q : Ref) → count q (keys (batch_of (w.ctxs c) max)) ≡ 0 → w1.ops q ≡ w.ops q
  pub refs : w1.refs ≡ (settle_all (batch_of (w.ctxs c) max) w).refs
  pub blocks : w1.blocks ≡ w.blocks
  pub calls : w1.calls ≡ w.calls

pub settle_all-ctxs : (ops : List (Ref × ℤ)) (w : World) → (settle_all ops w).ctxs ≡ w.ctxs
unfolding settle
settle_all-ctxs [] w = refl
settle_all-ctxs ((p, res) ∷ ops) w = settle_all-ctxs ops (settle p res w)

settle_all-blocks : (ops : List (Ref × ℤ)) (w : World) → (settle_all ops w).blocks ≡ w.blocks
unfolding settle
settle_all-blocks [] w = refl
settle_all-blocks ((p, res) ∷ ops) w = settle_all-blocks ops (settle p res w)

settle_all-calls : (ops : List (Ref × ℤ)) (w : World) → (settle_all ops w).calls ≡ w.calls
unfolding settle
settle_all-calls [] w = refl
settle_all-calls ((p, res) ∷ ops) w = settle_all-calls ops (settle p res w)

settle_all-others :
    (ops : List (Ref × ℤ)) (w : World) (q : Ref)
    → count q (keys ops) ≡ 0
    → (settle_all ops w).ops q ≡ w.ops q
unfolding settle
settle_all-others [] w q away = refl
settle_all-others ((p, res) ∷ ops) w q away =
    settle_all-others ops (settle p res w) q (ground arith) ∙ ground arith

-- Done, without a context.
abbrev IsDone : World → Ref → Type 0
IsDone w q = ((w.ops q).done ≡ true) × ((w.ops q).context ≡ none)

settle-IsDone : (p : Ref) (res : ℤ) (w : World) → IsDone (settle p res w) p
unfolding settle
settle-IsDone p res w = ground arith

settle-keeps : (p : Ref) (res : ℤ) (w : World) (q : Ref) → IsDone w q → IsDone (settle p res w) q
unfolding settle
settle-keeps p res w q h = ground (arith, h.0, h.1)

settle_all-IsDone :
    (ops : List (Ref × ℤ)) (w : World) (q : Ref)
    → IsDone w q ⊎ (0 < count q (keys ops))
    → IsDone (settle_all ops w) q
settle_all-IsDone [] w q (inl h) = h
settle_all-IsDone [] w q (inr h) = absurd (omega arith)
settle_all-IsDone ((p, res) ∷ ops) w q (inl h) =
    settle_all-IsDone ops (settle p res w) q (inl (settle-keeps p res w q h))
settle_all-IsDone ((p, res) ∷ ops) w q (inr h) = elim (Bool-cases (q == p)) [
  | inl e ↦
      let same : p ≡ q = ground (arith, e) in
      settle_all-IsDone ops (settle p res w) q
        (inl (subst (IsDone (settle p res w)) same (settle-IsDone p res w)))
  | inr e ↦ settle_all-IsDone ops (settle p res w) q (inr (ground (arith, e, h)))
]

length-completions : (es : List Cqe) → length (completions es) ≤ length es
length-completions [] = omega arith
length-completions (e ∷ es) = ground (arith, length-completions es)

batch-capacity : (x : Context) (max : ℕ) → length (batch_of x max) ≤ capacity x max
batch-capacity x max =
    let n = distance x.cq_tail x.cq_head in
    let some_of = length-take_le_all max (completions (ready x)) in
    ground (
      arith,
      length-take_le max (completions (ready x)),
      some_of,
      length-completions (ready x),
      length-window (cqe_at x) x.cq_head n,
    )

pub ctxs-commit :
    (c head : ℕ) (w : World) → (commit c head w).ctxs c ≡ record (w.ctxs c) { cq_head = head }
unfolding commit
ctxs-commit c head w = ground arith

module _ (c max : ℕ) (w : World) (small : (w.ctxs c).cq_head < 2 ^ 32)
    (fits : (w.ctxs c).cq_tail < 2 ^ 32) where
  abbrev scanned : List (Ref × ℤ) × ℕ × World
  scanned = let x = w.ctxs c in scan x (distance x.cq_tail x.cq_head) x.cq_head x.cq_tail 0 max w

  scanned-Scans :
      ScansTo
        (w.ctxs c)
        (w.ctxs c).cq_head
        (distance (w.ctxs c).cq_tail (w.ctxs c).cq_head)
        max
        w
        scanned
  scanned-Scans =
      let x = w.ctxs c in
      let n = distance x.cq_tail x.cq_head in
      let tail : u32 (x.cq_head + n) ≡ x.cq_tail = omega (arith, small, fits) in
      subst (λ t. ScansTo x x.cq_head n max w (scan x n x.cq_head t 0 max w)) tail
        (scan-Scans x x.cq_head n max 0 max w small (omega arith) (omega arith))

  commit-IsCaughtUp :
      (ops : List (Ref × ℤ)) (head : ℕ) (w' : World)
      → Scans
          (w.ctxs c)
          (w.ctxs c).cq_head
          (distance (w.ctxs c).cq_tail (w.ctxs c).cq_head)
          max
          w
          ops
          head
          w'
      → IsCaughtUp c max w (commit c head w')
  unfolding commit
  commit-IsCaughtUp ops head w' s =
      let x = w.ctxs c in
      let n = distance x.cq_tail x.cq_head in
      let same : w'.ctxs ≡ w.ctxs = ap (λ v. v.ctxs) s.settled ∙ settle_all-ctxs ops w in
      let ring : (commit c head w').ctxs c ≡ record x { cq_head = head } =
        ctxs-commit c head w' ∙ ap (λ f. record (f c) { cq_head = head }) same in
      let left : distance x.cq_tail head ≡ s.left = omega (arith, s.sum, s.at, small, fits) in
      record {
        rest =
            ap (λ y. completions (ready y)) ring
            ∙ ap (λ m. completions (window (cqe_at x) head m)) left
            ∙ s.rest;
        done = λ q here.
            (let e = ap (λ v. v.ops q) s.settled in
              rw e (settle_all-IsDone ops w q (inr (rw s.batch here))));
        others =
            λ q away. ap (λ v. v.ops q) s.settled ∙ settle_all-others ops w q (rw s.batch away);
        refs = ap (λ v. v.refs) s.settled ∙ ap (λ l. (settle_all l w).refs) s.batch;
        blocks = ap (λ v. v.blocks) s.settled ∙ settle_all-blocks ops w;
        calls = ap (λ v. v.calls) s.settled ∙ settle_all-calls ops w;
      }

  pub drain-IsCaughtUp :
      (py : Python)
      → (w1 : World) × (drain py true c max w ≡ (
        ok (signed32 (length (batch_of (w.ctxs c) max))),
        deliver py (batch_of (w.ctxs c) max) w1,
      ))
        × IsCaughtUp c max w w1
        × (length (batch_of (w.ctxs c) max) ≤ capacity (w.ctxs c) max)
  unfolding drain
  drain-IsCaughtUp py =
      let s = scanned-Scans in
      let w1 = commit c scanned.1 scanned.2 in
      let enough : (ltb 0 (capacity (w.ctxs c) max) && not true) ≡ false = ground arith in
      (
        w1,
        rw (enough, drain) (ap (λ l. (ok (signed32 (length l)), deliver py l w1)) s.batch),
        commit-IsCaughtUp scanned.0 scanned.1 scanned.2 s,
        batch-capacity (w.ctxs c) max,
      )

  -- The same state, written out.
  pub drain-settles :
      (py : Python)
      → (head : ℕ) × (w1 : World) × ((drain py true c max w).1
          ≡ deliver py (batch_of (w.ctxs c) max) w1)
        × (w1 ≡ commit c head (settle_all (batch_of (w.ctxs c) max) w))
        × IsCaughtUp c max w w1
        × (head < 2 ^ 32)
        × (distance (w.ctxs c).cq_tail head ≤ distance (w.ctxs c).cq_tail (w.ctxs c).cq_head)
  unfolding drain
  drain-settles py =
      let s = scanned-Scans in
      let w1 = commit c scanned.1 scanned.2 in
      let enough : (ltb 0 (capacity (w.ctxs c) max) && not true) ≡ false = ground arith in
      (
        scanned.1,
        w1,
        rw (enough, drain) (ap (λ l. deliver py l w1) s.batch),
        ap (commit c scanned.1) (s.settled ∙ ap (λ l. settle_all l w) s.batch),
        commit-IsCaughtUp scanned.0 scanned.1 scanned.2 s,
        omega (arith, s.at),
        omega (arith, s.at, s.sum, small, fits),
      )

-- After a read that completed with `n` bytes, get_value gives the object itself if `n` bytes fill it,
-- and a copy of its first `n` bytes otherwise.
pub settle-get_value :
    (p b n : ℕ) (w : World)
    → (w.ops p).opcode ≡ uring_read
    → (w.ops p).py_buffer ≡ some b
    → (w.ops p).error ≡ pos 0
    → (get_value p (settle p (pos n) w)).0
      ≡ (if n == length (w.blocks b) then ok (object b) else ok (bytes (take n (w.blocks b))))
unfolding get_value settle value_of read_value
settle-get_value p b n w op buf fine = ground (arith, op, buf, fine)

-- After a completion with a negative result, get_value raises its error number.
pub settle-get_error :
    (p k : ℕ) (w : World)
    → get_value p (settle p (negsuc k) w) ≡ (raise (system_error (suc k)), settle p (negsuc k) w)
unfolding get_value settle
settle-get_error p k w = ground arith

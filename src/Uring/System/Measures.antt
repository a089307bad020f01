-- ===== src/Uring/System/Measures.antt =====
-- Sums over the names on a ring, and what the steps do to them.
use caio.Base.{
  ◌==◌, if◌then◌else◌, Bool-cases, length, take, drop, count, count-append, ℤ, Ref, update,
  unclaimed, operation, ℕ, zero, suc, ◌+◌, ◌≤◌, ◌<◌, ◌≡◌, refl, ap, ◌∙◌, ◌≢◌, inl, inr, Bool, true,
  some, List, [], ◌∷◌, ◌++◌, map, arith,
}
use caio.Uring.State.{Sqe, Cqe, cancel_user_data, Context, distance, World}
use caio.Uring.Submit.{submit}
use caio.Uring.Calls.{Kernel, cancel_sqe}
use caio.Uring.Submit.Accept.{IsKnown, sqe_of}
use caio.Uring.Submit.Queue.{entry, pending}
use caio.Uring.Submit.Refines.{staged, free, IsRing, taken, submit-Queues}
use caio.Uring.Drain.Reader.{ready, completions}
use caio.Uring.Drain.Delivery.{keys, batch_of}
use caio.Uring.Calls.Cancel.{asked, cancel-Queues}
use caio.Uring.System.{System, advance, post}
use caio.Uring.System.Moves.{IsCq, advance-pending, post-ready}
use caio.Uring.System.Calls.{SameCq-ready, submit-SameCq, names, names-sqe_of}
use caio.Uring.System.Steps.{asked-SameCq, Drained}

-- What is counted of a list of names, where a request to cancel does not count.
pub record IsMeasure (f : List ℕ → ℕ) : Type 0 where
  pub empty : f [] ≡ 0
  pub append : (xs ys : List ℕ) → f (xs ++ ys) ≡ f xs + f ys
  pub nobody : f (cancel_user_data ∷ []) ≡ 0

-- The names that are anywhere: staged, with the kernel, or completed.
abbrev pub spread : (List ℕ → ℕ) → Context → List Ref → ℕ
spread f x working = f (names (pending x)) + f working + f (keys (completions (ready x)))

-- How many names are operations.
abbrev pub load : List ℕ → ℕ
load [] = 0
load (p ∷ ps) = if p == cancel_user_data then load ps else suc (load ps)

load-append : (xs ys : List ℕ) → load (xs ++ ys) ≡ load xs + load ys
load-append [] ys = omega arith
load-append (p ∷ ps) ys = ground (arith, load-append ps ys)

pub load-IsMeasure : IsMeasure load
load-IsMeasure = record { empty = refl; append = load-append; nobody = ground arith }

pub count-IsMeasure : (q : Ref) → q ≢ cancel_user_data → IsMeasure (count q)
count-IsMeasure q real = record {
  empty = refl;
  append = count-append q;
  nobody = ground (arith, real);
}

pub load-real : (xs : List ℕ) → count cancel_user_data xs ≡ 0 → load xs ≡ length xs
load-real [] real = refl
load-real (p ∷ ps) real = ground (arith, load-real ps, real)

pub count-unclaimed_le :
    (q : Ref) (claimed : Ref → Bool) (ps : List Ref) → count q (unclaimed claimed ps) ≤ count q ps
unfolding unclaimed
count-unclaimed_le q claimed [] = omega arith
count-unclaimed_le q claimed (p ∷ ps) =
    ground (arith, count-unclaimed_le q claimed ps, count-unclaimed_le q (update claimed p true) ps)

pub length-keys : (l : List (Ref × ℤ)) → length (keys l) ≡ length l
length-keys [] = refl
length-keys ((p, res) ∷ l) = omega (arith, length-keys l)

names-append : (xs ys : List Sqe) → names (xs ++ ys) ≡ names xs ++ names ys
names-append [] ys = refl
names-append (e ∷ es) ys = ap (λ l. e.user_data ∷ l) (names-append es ys)

module _ (f : List ℕ → ℕ) (m : IsMeasure f) where
  spread-completions :
      (es : List Cqe) (p : ℕ) (res : ℤ)
      → f (keys (completions (es ++ record { user_data = p; res = res } ∷ [])))
        ≡ f (keys (completions es)) + f (p ∷ [])
  spread-completions [] p res = elim (Bool-cases (p == cancel_user_data)) [
    | inl e ↦
        let same : p ≡ cancel_user_data = ground (arith, e) in
        rw e (omega (arith, m.empty, ap (λ q. f (q ∷ [])) same, m.nobody))
    | inr e ↦ rw e (omega (arith, m.empty))
  ]
  spread-completions (c ∷ es) p res = elim (Bool-cases (c.user_data == cancel_user_data)) [
    | inl e ↦ rw e (spread-completions es p res)
    | inr e ↦
        let l = keys (completions es) in
        let l' = keys (completions (es ++ record { user_data = p; res = res } ∷ [])) in
        rw e (
          omega (
            arith,
            spread-completions es p res,
            m.append (c.user_data ∷ []) l,
            m.append (c.user_data ∷ []) l',
          ))
  ]

  spread-batch :
      (n : ℕ) (l : List (Ref × ℤ)) → f (keys (take n l)) + f (keys (drop n l)) ≡ f (keys l)
  spread-batch zero l = omega (arith, m.empty)
  spread-batch (suc n) [] = omega (arith, m.empty)
  spread-batch (suc n) ((p, res) ∷ l) =
      omega
        (arith, spread-batch n l, m.append (p ∷ []) (keys (take n l)), m.append (p ∷ []) (keys l))

  pub spread-submit :
      (c : Ref) (ps : List Ref) (w : World) (working : List Ref)
      → IsRing (w.ctxs c)
      → IsKnown w
      → spread f ((submit c (some (map operation ps)) w).1.ctxs c) working
        ≡ spread f (w.ctxs c) working + f (taken c ps w)
  spread-submit c ps w working ring known =
      let x = w.ctxs c in
      let xs = taken c ps w in
      let q = submit-Queues c ps w ring known in
      let staged_now =
        ap (λ l. f (names l)) q.appended
        ∙ ap f (names-append (pending x) (map (sqe_of w) xs))
        ∙ m.append (names (pending x)) (names (map (sqe_of w) xs))
        ∙ ap (λ l. f (names (pending x)) + f l) (names-sqe_of w xs known) in
      let ready_now =
        ap (λ l. f (keys (completions l)))
          (SameCq-ready x ((submit c (some (map operation ps)) w).1.ctxs c)
            (submit-SameCq c ps w ring known)) in
      omega (arith, staged_now, ready_now)

  pub spread-advance :
      (x : Context) (working : List Ref)
      → IsRing x
      → 0 < staged x
      → spread f (advance x) (working ++ (entry x x.sq_head).user_data ∷ []) ≡ spread f x working
  spread-advance x working ring some_left =
      let p = (entry x x.sq_head).user_data in
      omega (
        arith,
        ap (λ l. f (names l)) (advance-pending x ring some_left),
        m.append (p ∷ []) (names (pending (advance x))),
        m.append working (p ∷ []),
      )

  pub spread-post :
      (p : ℕ) (res : ℤ) (x : Context) (js ks : List Ref)
      → IsCq x
      → distance x.cq_tail x.cq_head < x.cq_ring_mask + 1
      → spread f (post p res x) (js ++ ks) ≡ spread f x (js ++ p ∷ ks)
  spread-post p res x js ks cq room = omega (
    arith,
    ap (λ l. f (keys (completions l))) (post-ready p res x cq room),
    spread-completions (ready x) p res,
    m.append js ks,
    m.append js (p ∷ ks),
    m.append (p ∷ []) ks,
  )

  pub spread-asked :
      (k : Kernel) (c p : Ref) (w : World) (working : List Ref)
      → IsRing (w.ctxs c)
      → 0 < free (w.ctxs c)
      → (k : Kernel) → spread f ((asked c p w).ctxs c) working ≡ spread f (w.ctxs c) working
  spread-asked k c p w working ring room =
      let x = w.ctxs c in
      let (run, appended, ring') = cancel-Queues k c p w ring room in
      omega (
        arith,
        ap (λ l. f (names l)) appended
            ∙ ap f (names-append (pending x) (cancel_sqe p ∷ []))
            ∙ m.append (names (pending x)) (cancel_user_data ∷ []),
        m.nobody,
        ap (λ l. f (keys (completions l)))
            (SameCq-ready x ((asked c p w).ctxs c) (asked-SameCq c p w)),
      )

  pub spread-drain :
      (c max : ℕ) (s : System) (w' : World) (working : List Ref)
      → Drained c max s w'
      → spread f (w'.ctxs c) working + f (keys (batch_of (s.world.ctxs c) max))
        ≡ spread f (s.world.ctxs c) working
  spread-drain c max s w' working d =
      let x = s.world.ctxs c in
      omega (
        arith,
        ap (λ z. spread f z working) d.ring,
        ap (λ l. f (keys l)) d.rest,
        spread-batch max (completions (ready x)),
      )

-- ===== src/Uring/Submit/Append.antt =====
-- AIOContext_submit against its specification, a queue with room for so many entries.
use caio.Base.{
  length, u32, Ref, ℕ, suc, ◌+◌, ◌≤◌, ◌<◌, ◌≡◌, refl, sym, ap, ◌∙◌, subst, List, [], ◌∷◌, ◌++◌, map,
  arith,
}
use caio.Uring.State.{Sqe, Context, World}
use caio.Uring.Submit.{fill_sqe, put_sqe, hold}
use caio.Uring.Ring.{window}
use caio.Uring.Submit.Accept.{sqe_of, take_one, accept}
use caio.Uring.Submit.Queue.{entry, IsQueue, put_sqe-IsQueue, put_sqe-window}
use mathlib.Core.Path.{ap₂}

-- `y` is `x` with the entries `new` after the first `n`.
pub record Appends (x y : Context) (n : ℕ) (new : List Sqe) : Type 0 where
  pub queue : IsQueue y (n + length new)
  pub same_head : y.sq_head ≡ x.sq_head
  pub same_fd : y.uring_fd ≡ x.uring_fd
  pub same_entries : y.sq_ring_entries ≡ x.sq_ring_entries
  pub entries : window (entry y) x.sq_head (n + length new) ≡ window (entry x) x.sq_head n ++ new

append-cons {ℓ} :
    {A : Type ℓ} (xs : List A) (a : A) (ys : List A) → (xs ++ a ∷ []) ++ ys ≡ xs ++ a ∷ ys
append-cons [] a ys = refl
append-cons (x ∷ xs) a ys = ap (λ l. x ∷ l) (append-cons xs a ys)

pub append_none {ℓ} : {A : Type ℓ} (xs : List A) → xs ++ [] ≡ xs
append_none [] = refl
append_none (x ∷ xs) = ap (λ l. x ∷ l) (append_none xs)

Appends-nil : (x : Context) (n : ℕ) → IsQueue x n → Appends x x n []
Appends-nil x n q =
    let e : n ≡ n + 0 = omega arith in
    record {
      queue = subst (IsQueue x) e q;
      same_head = refl;
      same_fd = refl;
      same_entries = refl;
      entries = ap (window (entry x) x.sq_head) (sym e) ∙ sym (append_none _);
    }

Appends-cons :
    (x y : Context) (n : ℕ) (sqe : Sqe) (new : List Sqe)
    → IsQueue x n
    → n < x.sq_ring_entries
    → Appends (put_sqe x (u32 (x.sq_head + n)) sqe) y (suc n) new
    → Appends x y n (sqe ∷ new)
unfolding put_sqe
Appends-cons x y n sqe new q room a =
    let e : suc n + length new ≡ n + length (sqe ∷ new) = omega arith in
    record {
      queue = subst (IsQueue y) e a.queue;
      same_head = a.same_head;
      same_fd = a.same_fd;
      same_entries = a.same_entries;
      entries =
          ap (window (entry y) x.sq_head) (sym e)
          ∙ a.entries
          ∙ ap (λ l. l ++ new) (put_sqe-window x n sqe q room)
          ∙ append-cons (window (entry x) x.sq_head n) sqe new;
    }

ring-take_one :
    (c tail p : ℕ) (w : World) → (take_one c tail p w).ctxs c ≡ put_sqe (w.ctxs c) tail (sqe_of w p)
unfolding hold
ring-take_one c tail p w = ground arith

sqe_of-take_one : (c tail p : ℕ) (w : World) (q : Ref) → sqe_of (take_one c tail p w) q ≡ sqe_of w q
unfolding hold sqe_of fill_sqe
sqe_of-take_one c tail p w q = ground arith

map-congr {ℓ} :
    {A B : Type ℓ} (f g : A → B) (xs : List A) → ((a : A) → f a ≡ g a) → map f xs ≡ map g xs
map-congr f g [] same = refl
map-congr f g (x ∷ xs) same = ap₂ (λ a l. a ∷ l) (same x) (map-congr f g xs same)

pub length-map_sqe : (f : Ref → Sqe) (xs : List Ref) → length (map f xs) ≡ length xs
length-map_sqe f [] = refl
length-map_sqe f (x ∷ xs) = omega (arith, length-map_sqe f xs)

abbrev sq_head_of : Context → ℕ
sq_head_of x = x.sq_head

abbrev sq_entries_of : Context → ℕ
sq_entries_of x = x.sq_ring_entries

pub accept-Appends :
    (c h : ℕ) (ps : List Ref) (n : ℕ) (w : World)
    → (w.ctxs c).sq_head ≡ h
    → IsQueue (w.ctxs c) n
    → n + length ps ≤ (w.ctxs c).sq_ring_entries
    → Appends (w.ctxs c) ((accept c (u32 (h + n)) ps w).ctxs c) n (map (sqe_of w) ps)
unfolding accept put_sqe
accept-Appends c h [] n w at q room = Appends-nil (w.ctxs c) n q
accept-Appends c h (p ∷ ps) n w at q room =
    let x = w.ctxs c in
    let w' = take_one c (u32 (h + n)) p w in
    let x' = put_sqe x (u32 (x.sq_head + n)) (sqe_of w p) in
    let ring : w'.ctxs c ≡ x' =
      ring-take_one c (u32 (h + n)) p w ∙ ap (λ t. put_sqe x (u32 (t + n)) (sqe_of w p)) (sym at) in
    let y = (accept c (u32 (u32 (h + n) + 1)) ps w').ctxs c in
    let free : n < x.sq_ring_entries = omega arith in
    let q' = subst (λ z. IsQueue z (suc n)) (sym ring) (put_sqe-IsQueue x n (sqe_of w p) q free) in
    let tail : u32 (h + suc n) ≡ u32 (u32 (h + n) + 1) = omega arith in
    let rest =
      accept-Appends c h ps (suc n) w' (ap sq_head_of ring ∙ at) q'
        (omega (arith, ap sq_entries_of ring)) in
    let rest' =
      subst (λ t. Appends (w'.ctxs c) ((accept c t ps w').ctxs c) (suc n) (map (sqe_of w') ps)) tail
        rest in
    Appends-cons x y n (sqe_of w p) (map (sqe_of w) ps) q free (
      subst (λ z. Appends z y (suc n) (map (sqe_of w) ps)) ring
        (subst (Appends (w'.ctxs c) y (suc n))
          (map-congr (sqe_of w') (sqe_of w) ps (sqe_of-take_one c (u32 (h + n)) p w)) rest'))

-- One entry more.
pub put_sqe-Appends :
    (x : Context) (n : ℕ) (sqe : Sqe)
    → IsQueue x n
    → n < x.sq_ring_entries
    → Appends x (put_sqe x (u32 (x.sq_head + n)) sqe) n (sqe ∷ [])
put_sqe-Appends x n sqe q room =
    let y = put_sqe x (u32 (x.sq_head + n)) sqe in
    Appends-cons x y n sqe [] q room (Appends-nil y (suc n) (put_sqe-IsQueue x n sqe q room))

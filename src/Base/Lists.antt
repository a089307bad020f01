-- ===== src/Base/Lists.antt =====
-- Lists measured and indexed by native numbers, under the library's names.
use Prim.Native.Nat.{ℕ, zero, suc, ◌+◌, ◌≤◌, ◌<◌}
use mathlib.Core.Path.{◌≡◌, refl, ap}
use mathlib.Core.Logic.{inl, inr}
use mathlib.Core.List.{List, [], ◌∷◌, ◌++◌}
use native.Mathlib.Omega.{arith}
use caio.Base.Tests.{◌==◌, if◌then◌else◌, Bool-cases}

module _ {ℓ} {A : Type ℓ} where
  abbrev pub length : List A → ℕ
  length [] = 0
  length (x ∷ xs) = suc (length xs)

  abbrev pub take : ℕ → List A → List A
  take zero xs = []
  take (suc n) [] = []
  take (suc n) (x ∷ xs) = x ∷ take n xs

  abbrev pub drop : ℕ → List A → List A
  drop zero xs = xs
  drop (suc n) [] = []
  drop (suc n) (x ∷ xs) = drop n xs

  abbrev pub replicate : ℕ → A → List A
  replicate zero a = []
  replicate (suc n) a = a ∷ replicate n a

  pub length-append : (xs ys : List A) → length (xs ++ ys) ≡ length xs + length ys
  length-append [] ys = omega arith
  length-append (x ∷ xs) ys = omega (arith, length-append xs ys)

  pub take-length_self : (xs : List A) → take (length xs) xs ≡ xs
  take-length_self [] = refl
  take-length_self (x ∷ xs) = rw (take-length_self xs)

  pub take-length-append : (xs ys : List A) → take (length xs) (xs ++ ys) ≡ xs
  take-length-append [] ys = refl
  take-length-append (x ∷ xs) ys = rw (take-length-append xs ys)

pub length-take_le {ℓ} : {A : Type ℓ} (n : ℕ) (xs : List A) → length (take n xs) ≤ n
length-take_le zero xs = omega arith
length-take_le (suc n) [] = omega arith
length-take_le (suc n) (x ∷ xs) = omega (arith, length-take_le n xs)

pub length-take_le_all {ℓ} : {A : Type ℓ} (n : ℕ) (xs : List A) → length (take n xs) ≤ length xs
length-take_le_all zero xs = omega arith
length-take_le_all (suc n) [] = omega arith
length-take_le_all (suc n) (x ∷ xs) = omega (arith, length-take_le_all n xs)

-- How often a number stands in a list, and the list less its first occurrence.
abbrev pub count : ℕ → List ℕ → ℕ
count a [] = 0
count a (x ∷ xs) = if a == x then suc (count a xs) else count a xs

abbrev pub erase : ℕ → List ℕ → List ℕ
erase a [] = []
erase a (x ∷ xs) = if a == x then xs else x ∷ erase a xs

pub count-append : (a : ℕ) (xs ys : List ℕ) → count a (xs ++ ys) ≡ count a xs + count a ys
count-append a [] ys = omega arith
count-append a (x ∷ xs) ys = ground (arith, count-append a xs ys)

pub count-erase :
    (a b : ℕ) (xs : List ℕ)
    → 0 < count b xs
    → count a (erase b xs) + (if a == b then 1 else 0) ≡ count a xs
count-erase a b [] h = absurd (omega arith)
count-erase a b (x ∷ xs) h = ground (arith, count-erase a b xs)

pub count-take_le : (n q : ℕ) (xs : List ℕ) → count q (take n xs) ≤ count q xs
count-take_le zero q xs = omega arith
count-take_le (suc n) q [] = omega arith
count-take_le (suc n) q (x ∷ xs) = ground (arith, count-take_le n q xs)

-- A list around one of its members.
pub split_at_member :
    (p : ℕ) (ps : List ℕ) → 0 < count p ps → (js : List ℕ) × (ks : List ℕ) × (ps ≡ js ++ p ∷ ks)
split_at_member p [] h = absurd (omega arith)
split_at_member p (q ∷ ps) h = elim (Bool-cases (p == q)) [
  | inl e ↦ ([], ps, ap (λ r. r ∷ ps) (ground (arith, e)))
  | inr e ↦
      let (js, ks, split) = split_at_member p ps (ground (arith, e)) in
      (q ∷ js, ks, ap (λ l. q ∷ l) split)
]

-- ===== src/Uring/Ring.antt =====
-- The rings as windows: the entries from the consumer's index to the producer's, with indices of 32
-- bits that wrap around.
use caio.Base.{
  length, length-append, u32, ℕ, zero, suc, ◌+◌, ◌%◌, ◌^◌, ◌≤◌, ◌<◌, ◌≡◌, refl, sym, ◌∙◌, ◌≢◌, List,
  [], ◌∷◌, ◌++◌, arith,
}
use caio.Uring.State.{slot, distance}
use native.Mathlib.Nat.{mod-mod_of_dvd, div-add-mod}
use mathlib.Core.Path.{ap₂}
use Prim.Native.Nat.{◌∣◌}

-- The entries of a ring from the index `h` on, `n` of them, `f` giving the entry at an index.
abbrev pub window {ℓ} : {A : Type ℓ} → (ℕ → A) → ℕ → ℕ → List A
window f h zero = []
window f h (suc n) = window f h n ++ f (u32 (h + n)) ∷ []

pub window-congr {ℓ} :
    {A : Type ℓ} (f g : ℕ → A) (h n : ℕ)
    → ((i : ℕ) → i < n → f (u32 (h + i)) ≡ g (u32 (h + i)))
    → window f h n ≡ window g h n
window-congr f g h zero same = refl
window-congr f g h (suc n) same =
    ap₂ (λ xs y. xs ++ y ∷ []) (window-congr f g h n (λ i lt. same i (omega arith)))
      (same n (omega arith))

pub length-window {ℓ} : {A : Type ℓ} (f : ℕ → A) (h n : ℕ) → length (window f h n) ≡ n
length-window f h zero = refl
length-window f h (suc n) =
    omega (arith, length-append (window f h n) (f (u32 (h + n)) ∷ []), length-window f h n)

mod-ne : (a e i n : ℕ) → i < n → n < i + e → (a + i) % e ≢ (a + n) % e
mod-ne a e i n lo hi same = grind (arith, div-add-mod (a + i) e, div-add-mod (a + n) e)

-- Two indices of a window that is no longer than the ring use different slots.
pub slot-ne :
    (mask h i n : ℕ)
    → mask + 1 ∣ 2 ^ 32
    → i < n
    → n ≤ mask
    → slot (u32 (h + i)) mask ≢ slot (u32 (h + n)) mask
slot-ne mask h i n whole lo hi same =
    mod-ne h (mask + 1) i n lo (omega arith) (
      sym (mod-mod_of_dvd (mask + 1) (h + i) whole)
      ∙ same
      ∙ mod-mod_of_dvd (mask + 1) (h + n) whole)

-- The distance of the two ends of a window is its length.
pub distance-window : (h n : ℕ) → h < 2 ^ 32 → n < 2 ^ 32 → distance (u32 (h + n)) h ≡ n
distance-window h n small short = omega arith

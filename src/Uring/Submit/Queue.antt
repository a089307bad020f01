-- ===== src/Uring/Submit/Queue.antt =====
-- The submission ring as a queue: AIOContext_submit appends to it and overwrites nothing.
use caio.Base.{if◌then◌else◌, u32, ℕ, suc, ◌+◌, ◌^◌, ◌<◌, ◌≡◌, false, List, [], ◌∷◌, ◌++◌, arith}
use caio.Uring.State.{Sqe, Context, slot, distance}
use caio.Uring.Submit.{put_sqe}
use caio.Uring.Ring.{window, window-congr, slot-ne}
use mathlib.Core.Path.{ap₂}
use Prim.Native.Nat.{◌∣◌}

-- The entry that the kernel reads at an index.
abbrev pub entry : Context → ℕ → Sqe
entry x i =
    x.sqes (if x.no_sqarray then slot i x.sq_ring_mask else x.sq_array (slot i x.sq_ring_mask))

-- What is staged and not yet taken by the kernel, in order.
abbrev pub pending : Context → List Sqe
pending x = window (entry x) x.sq_head (distance x.sq_tail x.sq_head)

-- A submission ring with `n` entries from its head on. The kernel makes rings of 2^k entries.
pub record IsQueue (x : Context) (n : ℕ) : Type 0 where
  pub mask : x.sq_ring_mask + 1 ≡ x.sq_ring_entries
  pub whole : x.sq_ring_mask + 1 ∣ 2 ^ 32
  pub short : x.sq_ring_entries < 2 ^ 32
  pub small : x.sq_head < 2 ^ 32
  pub indexed :
      (i : ℕ)
      → i < n
      → x.no_sqarray ≡ false
      → x.sq_array (slot (u32 (x.sq_head + i)) x.sq_ring_mask)
        ≡ slot (u32 (x.sq_head + i)) x.sq_ring_mask

module _ (x : Context) (n : ℕ) (sqe : Sqe) (q : IsQueue x n) (room : n < x.sq_ring_entries) where
  abbrev grown : Context
  grown = put_sqe x (u32 (x.sq_head + n)) sqe

  -- The entries that were there stay.
  put_sqe-old : (i : ℕ) → i < n → entry grown (u32 (x.sq_head + i)) ≡ entry x (u32 (x.sq_head + i))
  unfolding put_sqe
  put_sqe-old i lt =
      let away = slot-ne x.sq_ring_mask x.sq_head i n q.whole lt (omega (arith, q.mask)) in
      ground (arith, away, q.indexed i lt)

  put_sqe-new : entry grown (u32 (x.sq_head + n)) ≡ sqe
  unfolding put_sqe
  put_sqe-new = ground arith

  pub put_sqe-IsQueue : IsQueue grown (suc n)
  unfolding put_sqe
  put_sqe-IsQueue = record {
    mask = q.mask;
    whole = q.whole;
    short = q.short;
    small = q.small;
    indexed = λ i lt listed. ground (arith, q.indexed i);
  }

  pub put_sqe-window :
      window (entry grown) x.sq_head (suc n) ≡ window (entry x) x.sq_head n ++ sqe ∷ []
  put_sqe-window =
      ap₂ (λ xs y. xs ++ y ∷ []) (window-congr (entry grown) (entry x) x.sq_head n put_sqe-old)
        put_sqe-new

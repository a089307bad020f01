-- ===== src/Aio/Events/Values.antt =====
-- What an operation of caio/linux_aio.c shows once its event was read, and what its callback is told.
use caio.Base.{
  take, ℤ, pos, negsuc, is_neg, neg_part, pos_part, u32, system_error, ok, raise, bytes, ℕ, suc,
  ◌^◌, ◌≤◌, ◌<◌, ◌≡◌, refl, ◌↔◌, false, some, arith,
}
use caio.Aio.State.{cmd_pread, World}
use caio.Aio.Operation.{get_value}
use caio.Aio.Events.{callback_arg, settle}

-- A read that completed with `n` bytes gives the first `n` bytes of its block.
pub settle-value_read :
    (p b n : ℕ) (w : World)
    → (w.ops p).iocb.opcode ≡ cmd_pread
    → (w.ops p).buffer ≡ some b
    → (w.ops p).error ≡ 0
    → n < 2 ^ 63
    → get_value p (settle p (pos n) w) ≡ ok (bytes (take n (w.blocks b)))
unfolding get_value settle
settle-value_read p b n w code buf fine small = ground (arith, code, buf, fine)

-- The callback is told the result itself exactly where that is not negative.
pub callback_arg-eq :
    (res : ℤ)
    → pos_part res < 2 ^ 63
    → neg_part res ≤ 2 ^ 63
    → (callback_arg res ≡ res) ↔ (is_neg res ≡ false)
unfolding callback_arg
callback_arg-eq (pos n) hi lo = (λ h. refl, λ h. ground arith)
callback_arg-eq (negsuc n) hi lo = (λ h. ground (arith, h), λ h. ground (arith, h))

-- An operation that completed with a negative result raises its error number.
pub settle-value_error :
    (p k : ℕ) (w : World)
    → suc k < 2 ^ 32
    → get_value p (settle p (negsuc k) w) ≡ raise (system_error (suc k))
unfolding get_value settle
settle-value_error p k w small = let low : u32 (suc k) ≡ suc k = omega arith in ground (arith, low)

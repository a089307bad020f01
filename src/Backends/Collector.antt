-- ===== src/Backends/Collector.antt =====
-- AIOOperation_traverse and AIOOperation_clear of the three backends, by which the collector of the
-- interpreter breaks cycles.
use caio.Thread.State as ThreadState
use caio.Thread.Operation as ThreadOperation
use caio.Uring.State as UringState
use caio.Uring.Operation as UringOperation
use caio.Aio.State as AioState
use caio.Aio.Operation as AioOperation
use caio.Base.{count, Ref, Counts, ◌-◌, ◌≡◌, List, [], arith}

-- What the collector relies on: clear gave up the references to the objects `shown`, each as often as
-- it was shown, and no other, and `left` to show there is nothing.
pub record GivesUp (shown left : List Ref) (before after : Counts) : Type 0 where
  pub dropped : (q : Ref) → after q ≡ before q - count q shown
  pub nothing_left : left ≡ []

thread-GivesUp :
    (p : Ref) (w : ThreadState.World)
    → (let w' = ThreadOperation.clear p w in
        GivesUp
          (ThreadOperation.traverse (w.ops p))
          (ThreadOperation.traverse (w'.ops p))
          w.refs
          w'.refs)
unfolding ThreadOperation.clear ThreadOperation.traverse
thread-GivesUp p w = record { dropped = λ q. ground arith; nothing_left = ground arith }

uring-GivesUp :
    (p : Ref) (w : UringState.World)
    → (let w' = UringOperation.clear p w in
        GivesUp
          (UringOperation.traverse (w.ops p))
          (UringOperation.traverse (w'.ops p))
          w.refs
          w'.refs)
unfolding UringOperation.clear UringOperation.traverse
uring-GivesUp p w = record { dropped = λ q. ground arith; nothing_left = ground arith }

aio-GivesUp :
    (p : Ref) (w : AioState.World)
    → (let w' = AioOperation.clear p w in
        GivesUp (AioOperation.traverse (w.ops p)) (AioOperation.traverse (w'.ops p)) w.refs w'.refs)
unfolding AioOperation.clear AioOperation.traverse
aio-GivesUp p w = record { dropped = λ q. ground arith; nothing_left = ground arith }

-- In each backend clear gives up just the references that traverse showed, and then traverse shows
-- nothing.
pub traverse-clear :
    (p : Ref) (t : ThreadState.World) (u : UringState.World) (a : AioState.World)
    → (let t' = ThreadOperation.clear p t in
        GivesUp
          (ThreadOperation.traverse (t.ops p))
          (ThreadOperation.traverse (t'.ops p))
          t.refs
          t'.refs)
      × (let u' = UringOperation.clear p u in
          GivesUp
            (UringOperation.traverse (u.ops p))
            (UringOperation.traverse (u'.ops p))
            u.refs
            u'.refs)
      × (let a' = AioOperation.clear p a in
          GivesUp
            (AioOperation.traverse (a.ops p))
            (AioOperation.traverse (a'.ops p))
            a.refs
            a'.refs)
traverse-clear p t u a = (thread-GivesUp p t, uring-GivesUp p u, aio-GivesUp p a)

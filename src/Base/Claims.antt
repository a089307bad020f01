-- ===== src/Base/Claims.antt =====
-- Which of the arguments of a call are still to be taken.
use mathlib.Core.Bool.{Bool, true}
use mathlib.Core.List.{List, [], ◌∷◌}
use caio.Base.Tests.{if◌then◌else◌}
use caio.Base.Store.{Ref, update}

-- The arguments not yet claimed, each once, in order.
unfoldable pub unclaimed : (Ref → Bool) → List Ref → List Ref
unclaimed claimed [] = []
unclaimed claimed (p ∷ ps) =
    let skip = unclaimed claimed ps in
    let take_it = p ∷ unclaimed (update claimed p true) ps in if claimed p then skip else take_it

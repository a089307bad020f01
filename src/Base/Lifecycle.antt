-- ===== src/Base/Lifecycle.antt =====
-- The life of an operation, as every backend promises it: the specification that the three systems
-- refine.
use mathlib.Core.Path.{◌≡◌, refl}
use mathlib.Core.Bool.{Bool, true, false}
use native.Mathlib.Omega.{arith}
use caio.Base.Store.{Ref}

-- Not submitted, on its way, and done.
pub data Stage : Type 0 where
  idle flying finished : Stage

-- What a step may do to one operation. An address whose object is gone may get a new one, where the
-- system makes objects.
pub data Move (reuse : Bool) : Stage → Stage → Type 0 where
  stays : {a : Stage} → Move reuse a a
  starts : Move reuse idle flying
  finishes : Move reuse flying finished
  renews : reuse ≡ true → Move reuse finished idle

abbrev pub StageMap : Type 0
StageMap = Ref → Stage

-- The runs of the specification: steps that each move any number of operations.
pub data Run (reuse : Bool) (f : StageMap) : StageMap → Type 0 where
  rest : Run reuse f f
  tick : {g h : StageMap} → Run reuse f g → ((p : Ref) → Move reuse (g p) (h p)) → Run reuse f h

-- The stage by the two fields of an operation.
abbrev pub stage_of : (in_progress done : Bool) → Stage
stage_of false done = idle
stage_of true false = flying
stage_of true true = finished

-- A step as the fields show it: no claim is taken back, nothing is undone, and what is done now was
-- claimed before.
pub record Goes (i d i' d' : Bool) : Type 0 where
  pub claim : i ≡ true → i' ≡ true
  pub done : d ≡ true → d' ≡ true
  pub first : d' ≡ true → i ≡ true

pub Goes-refl : (i d : Bool) → (i ≡ false → d ≡ false) → Goes i d i d
Goes-refl i d sound = record {
  claim = λ h. h;
  done = λ h. h;
  first = λ h. ground (arith, h, sound);
}

pub Goes-Move :
    (reuse i d i' d' : Bool) → Goes i d i' d' → Move reuse (stage_of i d) (stage_of i' d')
Goes-Move reuse false d false d' g = stays
Goes-Move reuse false d true false g = starts
Goes-Move reuse false d true true g = absurd (ground (arith, g.first refl))
Goes-Move reuse true d false d' g = absurd (ground (arith, g.claim refl))
Goes-Move reuse true false true false g = stays
Goes-Move reuse true false true true g = finishes
Goes-Move reuse true true true false g = absurd (ground (arith, g.done refl))
Goes-Move reuse true true true true g = stays

-- Where no address is used again, an operation that is done stays so.
pub finished_is_final :
    {f g : StageMap} → Run false f g → (p : Ref) → f p ≡ finished → g p ≡ finished
finished_is_final rest p h = h
finished_is_final (tick r m) p h = last (m p) (finished_is_final r p h)
  where
    last : {a b : Stage} → Move false a b → a ≡ finished → b ≡ finished
    last stays e = e
    last starts e = absurd (cc e)
    last finishes e = refl
    last (renews again) e = absurd (cc again)

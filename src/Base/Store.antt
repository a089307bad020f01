-- ===== src/Base/Store.antt =====
-- Memory as a function from addresses, and the reference counts of the Python objects.
use Prim.Native.Nat.{ℕ, ◌+◌, ◌-◌}
use mathlib.Core.Option.{Option, none, some}
use mathlib.Core.List.{List, [], ◌∷◌}
use caio.Base.Tests.{◌==◌, if◌then◌else◌}

-- The address of an object or of a block of memory.
abbrev pub Ref : Type 0
Ref = ℕ

abbrev pub update {ℓ} : {A : Type ℓ} → (Ref → A) → Ref → A → Ref → A
update f p a q = if q == p then a else f q

abbrev pub Counts : Type 0
Counts = Ref → ℕ

-- `Py_INCREF`, `Py_DECREF` and the two variants that skip NULL.
abbrev pub incref : Ref → Counts → Counts
incref p c = update c p (c p + 1)

abbrev pub decref : Ref → Counts → Counts
decref p c = update c p (c p - 1)

abbrev pub xincref : Option Ref → Counts → Counts
xincref none c = c
xincref (some p) c = incref p c

abbrev pub xdecref : Option Ref → Counts → Counts
xdecref none c = c
xdecref (some p) c = decref p c

-- `Py_VISIT`, which skips NULL.
abbrev pub visit : Option Ref → List Ref
visit none = []
visit (some p) = p ∷ []

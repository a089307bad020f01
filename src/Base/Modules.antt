-- ===== src/Base/Modules.antt =====
-- The creation of an extension module by the interpreter's functions.
use caio.Base.Python.{propagated, Result, ok, raise}
use Prim.Native.String.{String}
use mathlib.Core.Bool.{Bool, true, false}
use mathlib.Core.Option.{Option, none, some}
use mathlib.Core.List.{List, [], ◌∷◌}
use caio.Base.Tests.{◌==◌, if◌then◌else◌}
use caio.Base.Store.{Ref, update, Counts, incref, decref}

-- What the interpreter's functions answer: PyModule_Create, the declaration of a module that needs no
-- global lock, PyType_Ready and PyModule_AddObject, and the objects that PyBool_FromLong gives.
pub record Maker : Type 0 where
  pub create : Option Ref
  pub declares : Bool
  pub ready : Ref → Bool
  pub adds : String → Bool
  pub boolean : Bool → Ref

-- The counts of references, and the attributes of the new module, the latest first.
pub record Registry : Type 0 where
  pub refs : Counts
  pub attrs : List (String × Ref)

-- A new module has no attributes and one reference.
abbrev pub created : Ref → Registry → Registry
created m s = record { refs = update s.refs m 1; attrs = [] }

-- PyModule_AddObject takes over a reference, where it succeeds.
abbrev pub added : String → Ref → Registry → Registry
added name t s = record s { attrs = (name, t) ∷ s.attrs }

abbrev pub hold_type : Ref → Registry → Registry
hold_type t s = record s { refs = incref t s.refs }

abbrev pub give_up : List (String × Ref) → Counts → Counts
give_up [] c = c
give_up ((name, t) ∷ attrs) c = give_up attrs (decref t c)

-- `Py_DECREF` of the module, whose attributes go with its last reference.
abbrev pub discard : Ref → Registry → Registry
discard m s =
    if s.refs m == 1
    then record { refs = give_up s.attrs (decref m s.refs); attrs = [] }
    else record s { refs = decref m s.refs }

-- A type is added under a name; on failure its reference is dropped, and the module.
unfoldable pub add_type : Maker → Ref → String → Ref → Registry → Bool × Registry
add_type mk m name t s =
    let held = hold_type t s in
    if mk.adds name
    then (true, added name t held)
    else (false, discard m (record held { refs = decref t held.refs }))

-- The module and its declaration.
unfoldable pub new_module :
    Maker → (Ref → Registry → Result Ref × Registry) → Registry → Result Ref × Registry
new_module mk rest s = elim mk.create [
  | none ↦ (raise propagated, s)
  | some m ↦
      let s' = created m s in if mk.declares then rest m s' else (raise propagated, discard m s')
]

-- The types of a backend.
pub record Types : Type 0 where
  pub context_type : Ref
  pub operation_type : Ref

abbrev pub made : Ref → Bool × Registry → Result Ref × Registry
made m (fine, s) = (if fine then ok m else raise propagated, s)

-- The type of operations, after that of contexts.
abbrev pub then_operation :
    (Registry → Bool × Registry) → Ref → Bool × Registry → Result Ref × Registry
then_operation add m (false, s) = (raise propagated, s)
then_operation add m (true, s) = made m (add s)

-- A type that is not ready ends the import at once.
unfoldable pub register : Maker → Ref → String → Ref → Registry → Bool × Registry
unfolding add_type
register mk m name t s = if mk.ready t then add_type mk m name t s else (false, s)

-- The types made ready and added one after the other.
unfoldable pub register_types : Maker → Types → Ref → Registry → Result Ref × Registry
unfolding register
register_types mk types m s =
    then_operation (register mk m "Operation" types.operation_type) m
      (register mk m "Context" types.context_type s)

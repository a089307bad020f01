-- ===== src/Backends/Modules.antt =====
-- The modules that the three imports make.
use caio.Thread.Load as ThreadLoad
use caio.Uring.Load as UringLoad
use caio.Aio.Load as AioLoad
use caio.Base.{
  Bool-cases, Ref, Result, ok, raise, Maker, Registry, created, added, hold_type, add_type,
  new_module, Types, register, register_types, ◌+◌, String, ◌≡◌, refl, ◌≢◌, inl, inr, Bool, true,
  some, List, [], ◌∷◌, arith,
}

-- The objects of an import: the new module `m`, the two types, and a Boolean, at addresses of their
-- own.
pub record Apart (m b : Ref) (types : Types) : Type 0 where
  pub own_types : types.context_type ≢ types.operation_type
  pub module_context : m ≢ types.context_type
  pub module_operation : m ≢ types.operation_type
  pub boolean : m ≢ b
  pub boolean_context : b ≢ types.context_type
  pub boolean_operation : b ≢ types.operation_type

-- A module with its attributes, each held by one reference, or a failure after which every count but
-- that of the Boolean is what it was.
abbrev pub Imports :
    Ref → Ref → Types → List (String × Ref) → Registry → Result Ref × Registry → Type 0
Imports m b types others s (ok n, s') =
    (n ≡ m)
    × (s'.attrs ≡ ("Operation", types.operation_type) ∷ ("Context", types.context_type) ∷ others)
    × (s'.refs m ≡ 1)
    × (s'.refs types.context_type ≡ s.refs types.context_type + 1)
    × (s'.refs types.operation_type ≡ s.refs types.operation_type + 1)
Imports m b types others s (raise e, s') = (q : Ref) → q ≢ b → s'.refs q ≡ s.refs q

module _ (mk : Maker) (m b : Ref) (types : Types) (apart : Apart m b types) (s : Registry)
    (new : mk.create ≡ some m) (ready_context : mk.ready types.context_type ≡ true)
    (ready_operation : mk.ready types.operation_type ≡ true) where
  types-Imports : s.refs m ≡ 0 → Imports m b types [] s (register_types mk types m (created m s))
  unfolding register_types register add_type
  types-Imports unused = elim (Bool-cases (mk.adds "Context")) [
    | inr refused ↦
        rw (ready_context, refused)
          (λ q away. ground (arith, unused, apart.module_context, apart.module_operation))
    | inl first ↦ elim (Bool-cases (mk.adds "Operation")) [
      | inr refused ↦
          rw (ready_context, first, ready_operation, refused)
            (λ q away.
              ground (arith, unused, apart.own_types, apart.module_context, apart.module_operation))
      | inl second ↦
          rw (ready_context, first, ready_operation, second)
            (
              refl,
              refl,
              ground (arith, apart.module_context, apart.module_operation),
              ground (arith, apart.own_types, apart.module_context),
              ground (arith, apart.own_types, apart.module_operation),
            )
    ]
  ]

  new_module-Imports :
      (others : List (String × Ref)) (rest : Ref → Registry → Result Ref × Registry)
      → s.refs m ≡ 0
      → Imports m b types others s (rest m (created m s))
      → Imports m b types others s (new_module mk rest s)
  unfolding new_module
  new_module-Imports others rest unused then = elim (Bool-cases mk.declares) [
    | inl free ↦ rw (new, new_module, free) then
    | inr locked ↦ rw (new, new_module, locked) (λ q away. ground (arith, unused))
  ]

  ready-Imports :
      s.refs m ≡ 0
      → Imports m b types (("SQPOLL_ALLOWED", b) ∷ []) s (
          UringLoad.register_ready mk types m
            (added "SQPOLL_ALLOWED" b (hold_type b (created m s))))
  unfolding UringLoad.register_ready add_type
  ready-Imports unused = elim (Bool-cases (mk.adds "Context")) [
    | inr refused ↦
        rw (ready_context, ready_operation, refused)
          (λ q away. ground (
            arith, unused, away, apart.boolean, apart.module_context, apart.module_operation,
            apart.boolean_context,
          ))
    | inl first ↦ elim (Bool-cases (mk.adds "Operation")) [
      | inr refused ↦
          rw (ready_context, first, ready_operation, refused)
            (λ q away. ground (
              arith, unused, away, apart.boolean, apart.own_types, apart.module_context,
              apart.module_operation,
            ))
      | inl second ↦
          rw (ready_context, first, ready_operation, second)
            (
              refl,
              refl,
              ground (arith, apart.boolean, apart.module_context, apart.module_operation),
              ground (arith, apart.own_types, apart.module_context, apart.boolean_context),
              ground (arith, apart.own_types, apart.module_operation, apart.boolean_operation),
            )
    ]
  ]

  probe-Imports :
      (sqpoll : Bool)
      → mk.boolean sqpoll ≡ b
      → s.refs m ≡ 0
      → Imports m b types
          (("SQPOLL_ALLOWED", b) ∷ [])
          s
          (UringLoad.publish_probe mk types sqpoll m (created m s))
  unfolding UringLoad.publish_probe
  probe-Imports sqpoll is unused = elim (Bool-cases (mk.adds "SQPOLL_ALLOWED")) [
    | inl first ↦ rw (is, first) (ready-Imports unused)
    | inr refused ↦ rw (is, refused) (λ q away. ground (arith, unused, away, apart.boolean))
  ]

-- Where both types can be made ready, each import of a new module ends with the module, which has the
-- two types as attributes and one reference to each, and linux_uring's the answer of its probe too; or
-- it fails and leaves every count of references as it was, but that of the Boolean.
pub modules_made :
    (mk : Maker) (m : Ref) (sqpoll : Bool) (types : Types) (s : Registry)
    → let b = mk.boolean sqpoll in
      Apart m b types
      → mk.create ≡ some m
      → mk.ready types.context_type ≡ true
      → mk.ready types.operation_type ≡ true
      → s.refs m ≡ 0
      → Imports m b types [] s (ThreadLoad.load mk types s)
        × Imports m b types [] s (AioLoad.make_module mk types s)
        × Imports m b types (("SQPOLL_ALLOWED", b) ∷ []) s (UringLoad.make_module mk types sqpoll s)
unfolding ThreadLoad.load AioLoad.make_module UringLoad.make_module
modules_made mk m sqpoll types s apart new ready_context ready_operation unused =
    let b = mk.boolean sqpoll in
    let two_types =
      new_module-Imports mk m b types apart s new ready_context ready_operation []
        (register_types mk types) unused
        (types-Imports mk m b types apart s new ready_context ready_operation unused) in
    (
      two_types,
      two_types,
      new_module-Imports mk m b types apart s new ready_context ready_operation
          (("SQPOLL_ALLOWED", b) ∷ []) (UringLoad.publish_probe mk types sqpoll) unused
          (probe-Imports mk m b types apart s new ready_context ready_operation sqpoll refl unused),
    )

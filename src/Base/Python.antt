-- ===== src/Base/Python.antt =====
-- What a call from Python ends in: a value or an exception.
use Prim.Native.Nat.{ℕ}
use Prim.Native.String.{String}
use mathlib.Core.List.{List}
use mathlib.Core.Option.{Option}
use caio.Base.Int.{ℤ}
use caio.Base.Store.{Ref}

-- The exception classes that the sources set. The texts are those of the sources, less the values
-- formatted into them; `system_error` carries the error number whose text is set.
pub data PyErr : Type 0 where
  runtime_error value_error type_error overflow_error not_implemented : String → PyErr
  system_error : ℕ → PyErr
  system_error_text : String → PyErr
  memory_error blocking_io_error : PyErr
  import_error : String → PyErr
  -- set by the Python function that failed
  propagated : PyErr

pub data Result {ℓ} (A : Type ℓ) : Type ℓ where
  ok : A → Result A
  raise : PyErr → Result A

-- A Python value that a method returns.
pub data Value : Type 0 where
  py_none py_true : Value
  int : ℤ → Value
  -- a new bytes object with this content
  bytes : List ℕ → Value
  -- a new reference to an object
  object : Ref → Value

-- A member of the tuple of arguments: an Operation, or any other object.
pub data Arg : Type 0 where
  operation : Ref → Arg
  other : Arg

-- The numbers that the `repr` of an Operation prints. A `result` is not printed by every backend.
pub record Shown : Type 0 where
  pub mode : String
  pub fileno : ℤ
  pub offset : ℤ
  pub result : Option ℤ
  pub buffer : Option Ref

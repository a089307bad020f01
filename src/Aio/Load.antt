-- ===== src/Aio/Load.antt =====
-- PyInit_linux_aio.
use caio.Base.{
  ltb, leb, ◌==◌, if◌then◌else◌, Ref, import_error, Result, raise, Maker, Registry, new_module,
  Types, register_types, ℕ, Bool, ◌&&◌, ◌||◌, Option, none, some, List, [], ◌∷◌,
}
use caio.Aio.Context.{Opened, opened, refused}

-- The system: the two numbers that `sscanf` reads of the release, 0 where it reads none, or a failure
-- of `uname`; `io_setup` of one request; and `io_destroy`, `none` where it succeeds.
pub record Host : Type 0 where
  pub uname : Option (ℕ × ℕ)
  pub io_setup : Opened
  pub io_destroy : ℕ → Option ℕ

-- The handles that were got and given to io_destroy, the latest first.
pub record Handles : Type 0 where
  pub got : List ℕ
  pub given : List ℕ

abbrev pub no_handles : Handles
no_handles = record { got = []; given = [] }

-- 4.18 or later
abbrev pub supported : ℕ × ℕ → Bool
supported (major, minor) = ltb 4 major || (major == 4 && leb 18 minor)

-- `make` is the rest, which creates the module.
abbrev pub give : Option ℕ → Result Ref → Handles → Result Ref × Handles
give none make l = (make, l)
give (some e) make l = (raise (import_error "Error on io_destroy"), l)

abbrev pub probe : Host → Result Ref → Opened → Handles → Result Ref × Handles
probe h make (refused e) l = (raise (import_error "Error on io_setup"), l)
probe h make (opened c) l =
    give (h.io_destroy c) make (record { got = c ∷ l.got; given = c ∷ l.given })

-- PyInit_linux_aio
unfoldable pub load : Host → Result Ref → Handles → Result Ref × Handles
load h make l = elim h.uname [
  | none ↦ (raise (import_error "Can not detect linux kernel version"), l)
  | some release ↦
      let probed = probe h make h.io_setup l in
      if supported release
      then probed
      else (raise (import_error "Linux kernel supported since 4.18"), l)
]

-- The creation of the module.
unfoldable pub make_module : Maker → Types → Registry → Result Ref × Registry
unfolding new_module register_types
make_module mk types s = new_module mk (register_types mk types) s

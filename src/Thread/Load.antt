-- ===== src/Thread/Load.antt =====
-- PyInit_thread_aio.
use caio.Base.{Ref, Result, Maker, Registry, new_module, Types, register_types}

unfoldable pub load : Maker → Types → Registry → Result Ref × Registry
unfolding new_module register_types
load mk types s = new_module mk (register_types mk types) s

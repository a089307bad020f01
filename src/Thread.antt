-- ===== src/Thread.antt =====
-- caio/thread_aio.c: operations that a pool of threads carries out.
pub mod State
pub mod Operation
pub mod Members
pub mod Context
pub mod Submit
pub mod Worker
pub mod Load
pub mod System
pub mod Tests

-- ===== src/Aio.antt =====
-- caio/linux_aio.c: operations that the kernel carries out by io_submit.
pub mod State
pub mod Operation
pub mod Members
pub mod Context
pub mod Submit
pub mod Events
pub mod Load
pub mod System
mod Tests

-- ===== src/Uring.antt =====
-- caio/linux_uring.c: operations that the kernel carries out through two rings in shared memory.
pub mod State
pub mod Operation
pub mod Members
pub mod Ring
pub mod Submit
pub mod Drain
pub mod Calls
pub mod Files
pub mod Load
pub mod Setup
pub mod Events
pub mod System
mod Tests

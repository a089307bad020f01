-- ===== src/Backends.antt =====
-- The three backends side by side: caio/thread_aio.c, caio/linux_aio.c and caio/linux_uring.c.
pub mod Reads
pub mod Collector
pub mod Loading
pub mod Requests
pub mod Attributes
pub mod Modules
pub mod Lifecycle
mod Desks
mod Tests
mod CallTests
mod LifecycleTests

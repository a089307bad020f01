-- ===== src/Backends/LifecycleTests.antt =====
-- The specification at the concrete runs of the three systems.
use caio.Thread.System.Lifecycle as ThreadLife
use caio.Thread.Tests as ThreadTests
use caio.Uring.System.Lifecycle as UringLife
use caio.Uring.System.Tests as UringTests
use caio.Aio.System.Lifecycle as AioLife
use caio.Aio.System.Tests as AioTests

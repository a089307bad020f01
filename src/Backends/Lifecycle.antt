-- ===== src/Backends/Lifecycle.antt =====
-- The three systems against one specification, the life of an operation.
use caio.Thread.System as ThreadSystem
use caio.Thread.System.Lifecycle as ThreadLife
use caio.Thread.Worker as ThreadWorker
use caio.Uring.System as UringSystem
use caio.Uring.System.Safety as UringSafety
use caio.Uring.System.Lifecycle as UringLife
use caio.Uring.Calls as UringCalls
use caio.Uring.Drain as UringDrain
use caio.Aio.System as AioSystem
use caio.Aio.System.Safety as AioSafety
use caio.Aio.System.Lifecycle as AioLife
use caio.Aio.Events as AioEvents
use caio.Aio.Events.Delivery as AioDelivery

-- ===== src/Lib.antt =====
-- caio: the C extensions for asynchronous file input and output.
--
-- The program is a family of backends with one interface: an Operation describes a read, a write or a
-- sync, a Context takes operations by submit and reports each by its callback and get_value. Modelled
-- are caio/thread_aio.c, where a pool of threads carries the operations out, and caio/linux_uring.c,
-- where the kernel does, through two rings in shared memory; and caio/linux_aio.c, where the kernel does, by
-- io_submit and io_getevents.
--
-- Base: what both share. Python objects and blocks of memory are numbers, their addresses; a store is
-- a function from addresses; reference counts are a function too (Base/Store). Base/Words has the
-- conversions to the integer types of C, with their wrap-around; Base/Python what a method returns or
-- raises; Base/Claims which arguments of a call are not yet claimed; Base/Modules the interpreter's
-- functions by which the three PyInit make their modules.
--
-- Thread (caio/thread_aio.c):
--   Thread/State       AIOOperation, AIOContext and the world they live in
--   Thread/Operation   AIOOperation_read, _write, _fsync, _fdsync, _get_value, _payload_getter,
--                      _set_callback, _traverse, _clear, _dealloc
--   Thread/Context     AIOContext_init, _close, _close_pool, _dealloc, _cancel
--   Thread/Submit      AIOContext_submit: check_types is its first loop, dispatch its second
--   Thread/Worker      worker, as a whole and in the phases begin, perform, publish and retire
--   Thread/Members     the attributes, as the interpreter reads the fields, and what repr prints
--   Thread/Load        PyInit_thread_aio
--   Thread/System      calls from Python and phases of workers as interleaved steps
-- Uring (caio/linux_uring.c):
--   Uring/State        AIOOperation, AIOContext with the rings, submission and completion entries
--   Uring/Operation    the methods of Operation, as above
--   Uring/Files        AIOContext with its pointers as addresses, AIOContext_new and _dealloc; view is
--                      the context that the pointers lead to, which the modules below work on
--   Uring/Setup        AIOContext_init: probe is its loop over the tables of flags
--   Uring/Submit       AIOContext_submit: check_types is its first loop, stage its second
--   Uring/Drain        uring_drain_cq: scan is its first loop, deliver its second
--   Uring/Calls        AIOContext_flush, _cancel, _poll
--   Uring/Events       AIOContext_process_events: turn is the body of its loop
--   Uring/System       the calls from Python and the moves of the kernel as interleaved steps
--   Uring/Members      the attributes and repr
--   Uring/Load         PyInit_linux_uring
--   Uring/Ring         a ring read as the list of its entries
-- Aio (caio/linux_aio.c):
--   Aio/State          AIOOperation with its iocb, and AIOContext
--   Aio/Operation      the methods of Operation, as above
--   Aio/Context        AIOContext_new, _init, _dealloc, _poll
--   Aio/Submit         AIOContext_submit: check_types and claim_all are its first loops, unclaim_all
--                      those that roll back
--   Aio/Events         AIOContext_process_events, with deliver as its loop, and AIOContext_cancel
--   Aio/Members        the attributes and repr
--   Aio/System         the calls from Python and the moves of the kernel as interleaved steps
--   Aio/Load           PyInit_linux_aio
-- Backends: the three side by side: what each asks the kernel for a call of a class method and what it
-- then shows of it, what get_value shows of what the kernel did, what each shows to the collector of
-- the interpreter and gives up to it, the modules that the imports make, and the three systems against
-- one specification, the life of an operation (Base/Lifecycle).
-- The modules below these hold their lemmas and theorems; Tests has the theorems at concrete inputs.
--
-- What is not under the repository's C files is a parameter. The interpreter: its allocators by
-- what they answer, a callback by what the call does to the world in linux_uring and linux_aio, and
-- by a record of the calls in thread_aio. The kernel: the outcome of read, write, fsync, io_setup,
-- io_submit, io_getevents, io_cancel, eventfd, mmap, io_uring_setup, io_uring_enter,
-- io_uring_register, poll, uname and clock_gettime; of io_destroy, munmap and close, what they were
-- given. The pool of threads, a copy of another library: whether it takes a task, and which pools
-- were torn down. Reference counts are recorded; that an object ends when its count reaches 0 is
-- not followed. Words in memory are little-endian. An index of a ring is masked with one less than
-- a power of two, written as a remainder. A critical section is a step of its own.
--
-- In the systems of interleaved steps a callback of linux_uring may call the methods of the context
-- while the loop of uring_drain_cq runs (Uring/System/Callbacks); those of linux_aio run as steps of
-- their own. A worker's callback is a phase of its own.
--
-- Loops over arguments are recursion on their list. The loop of uring_drain_cq runs on the number of
-- completions in the ring, which it lowers at each turn. Those of flush and process_events run on
-- fuel, whose end is a result of its own: the theorems say how much is enough, and on which kernels.
--
-- Not modelled: the text that repr prints its numbers in, the tables by which the interpreter finds
-- the methods, and the calls around the system calls; the Python modules; the pool of threads.
pub mod Base
pub mod Thread
pub mod Uring
pub mod Aio
pub mod Backends

-- ===== src/Lib.antt =====
-- libpwq: pthread_workqueue for POSIX systems, a pool of threads that run work items from
-- workqueues of six priorities.
--
-- A client makes workqueues and adds items to them (src/api.c). The manager (src/posix/manager.c)
-- keeps two tables of workqueues, indexed by priority. Items of plain workqueues are run by a pool
-- of workers, which find the most urgent queue in `wqlist_mask` (wqlist_scan); a manager thread
-- sizes the pool (manager_main). Items of overcommit workqueues are run by threads of their own
-- (overcommit_worker_main). Items come from a cache (src/witem_cache.c).
--
-- The modules, with the functions that they model:
--   Prelude: numbers, lists, and `Outcome`, the result of a call that may return, end the process
--     (abort), wait with no more input, or follow a NULL pointer.
--   Word: 32-bit words, the bits of a mask (the atomic operations of src/posix/platform.h), ffs.
--   Workqueue: the structures of src/private.h and include/pthread_workqueue.h.
--   Manager: the static variables of src/posix/manager.c as one record. The heap of workqueues is a
--     list, and a pointer to a workqueue is an index of it.
--     Init (manager_init, manager_reinit), Create (manager_start, manager_workqueue_create),
--     Additem (manager_workqueue_additem), Scan (reset_queue_mask, wqlist_scan), Pool (worker_start,
--     worker_stop, the counters of worker_main), Worker (wqlist_scan_spin, wqlist_scan_wait, a round
--     of worker_main), Runqueue (get_runqueue_length), Overcommit (overcommit_worker_main), Ramp
--     (manager_main), Control (manager_suspend, manager_resume, manager_signal, manager_peek),
--     Limits (get_process_limit), Signals (sigmask_init); Invariant and Tables hold what all of them
--     keep, Backlog the view of the plain queues as one list of items, and Weigh the sums over the
--     items of the queues.
--   System: the threads of src/posix/manager.c at work together: `Step` interleaves the workers
--     (worker_main), clients (pthread_workqueue_create_np, manager_workqueue_additem), overcommit
--     threads and the worker_start and worker_stop of the manager thread in any order, and `Reach`
--     holds the states that they lead to from a manager with no workers and no items. What
--     manager_main, manager_suspend, manager_resume and manager_signal write in the scoreboard beside
--     the counters is one step, with any values. Counters, Items and Attention have what is kept,
--     Progress who can move. Course, Serve, Mutex, Keen and Drain are about runs in which the workers
--     and the clients finish what they do, with nothing new added, Rounds about the rounds of
--     manager_main among the steps, and Empty about a pool with no workers.
--   Pool: what a pool of threads promises its clients, as acts on bags of items (Pool.Bags, a quotient
--     of lists), with the interface of an implementation (Pool.Service) and the view of queues and
--     threads as a pool (Pool.View). System.Refine, Crew.Refine and Windows.Legacy.Scans.Refine are
--     its implementations.
--   Crew: the overcommit threads of src/posix/manager.c at work together (overcommit_worker_main,
--     manager_workqueue_additem), each section under `ocwq_mtx` a step, with the sections that touch
--     the plain queues in between. A pthread_cond_signal unblocks a thread that waits, if there is one,
--     and a thread may wake at its timeout or spuriously.
--   Witem: src/witem_cache.c without a cache (WITEM_CACHE_TYPE 1); Witem.Umem: with libumem (type
--     2); Witem.Cache: with the cache of each thread (type 3); Witem.Cache.Threads: the caches of
--     several threads over one heap, where any thread may free what another one allocated and a
--     thread that exits gives its cache back. What malloc holds to there, never to give a block
--     that is allocated, is `AreNew`.
--   Attr, Api: src/api.c; Api.Init has pthread_workqueue_init_np.
--   Linux, Solaris: what src/linux and src/solaris read of the load and the threads (Linux.Threads is
--     src/linux/thread_info.c), and the scheduling class of a worker (Solaris.Priority).
--   Windows: src/windows/manager.c, Legacy for Windows XP and Pools on thread pools; Legacy.Run has
--     the clients and the calls of worker_main together, a scan as one step, and Legacy.Scans has the
--     scans one workqueue at a time, several of them at once. Platform, Times and Semaphore are
--     platform.c, times.h and posix_semaphore.h there.
--   Kernel: kern/pthread_workqueue.c, the module for Linux.
--   Tests: the theorems at concrete inputs.
--
-- A section of code under a lock is one step. Calls of the system and of the thread library enter
-- as arguments: what malloc and pthread_create return is a list of results, and a loop that waits
-- for such a call runs over that list. What a thread does to others (signals, new threads) is a
-- list of effects. Where `scoreboard.idle` is read more than once with no lock, by manager_peek and where
-- manager_main stops workers, each read is an argument (Peeks, Idles); manager_round is a round in
-- which no worker changes it meanwhile. Counters of `unsigned int` wrap around at 2 ^ 32. The two loops on `wqlist_mask`
-- are given one round, since the operation itself sets or clears the bit that they test. The loop of
-- witem_cache_cleanup is given one round more than there are items. In System a number `n` bounds the
-- workers that are there at the same time, and in Crew the overcommit threads; how often a worker
-- spins is left open, since the limit on spinning threads only decides whether it spins;
-- worker_start is one step, and so is the exit of a worker from the unlock on. In Legacy.Scans `n`
-- bounds the threads of the pool of Windows, which runs worker_main once for each QueueUserWorkItem;
-- a workqueue is made while no thread scans, since that takes `wqlist_mtx` for writing. The spin lock of
-- a workqueue is initialised once more behind that, which would break a section of a scan that is
-- under it: a scan comes to the workqueue only after that call. A scan in
-- rounds is given one round more than there are workqueues. In Witem.Cache.Threads the thread
-- library calls witem_cache_cleanup with the value of the key, and clears the key.
--
-- Not modelled: the work functions; the number of processors and the load average, which the system
-- tells; the empty functions for priorities and threads on other systems; the thread library for
-- Windows, a copy of another project; the test programs.
pub mod Prelude
pub mod Word
pub mod Workqueue
pub mod Manager
pub mod Witem
pub mod Attr
pub mod Api
pub mod Windows
pub mod Linux
pub mod Solaris
pub mod Kernel
pub mod Pool
pub mod System
pub mod Crew
pub mod Tests

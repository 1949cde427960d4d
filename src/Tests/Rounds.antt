-- ===== src/Tests/Rounds.antt =====
-- The manager thread and the workers at concrete states of the threads.
use libpwq.Prelude.{◌++◌, ◌≡◌, refl, List, false, arith, sum_over}
use libpwq.Manager.{Manager}
use libpwq.Manager.Ramp.{Ramp}
use libpwq.System.Drain.{Drained, can_drain}
use libpwq.Pool.{Act}
use libpwq.Workqueue.{Work}
use libpwq.Word.{set_bit}
use libpwq.Manager.Additem.{enqueue}
use libpwq.System.{adds}
use libpwq.System.Refine.{worker_pool_refines}
use libpwq.System.Refine.Turns.{pool_of}
use libpwq.Tests.Fixtures.{plain_queue, work_64}
use libpwq.Tests.Threads.{
  two_queues-IsFresh, sleeping, sleeps_there, item_added, picks_item, picks_there,
}

can_drain_example : Drained two_queues-IsFresh picks_item
unfolding sum_over
can_drain_example = can_drain two_queues-IsFresh (picks_there false) (omega arith)

worker_pool_refines_example :
    (ws : List Work) × (item_added.added ≡ ws ++ sleeping.added)
    × Act (pool_of 2 sleeping) ws (pool_of 2 item_added)
unfolding enqueue set_bit
worker_pool_refines_example =
    worker_pool_refines false two_queues-IsFresh (sleeps_there false)
      (adds 0 plain_queue work_64 refl refl refl refl)

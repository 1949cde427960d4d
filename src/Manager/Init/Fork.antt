-- ===== src/Manager/Init/Fork.antt =====
-- manager_reinit of src/posix/manager.c in the child of a fork, and the handles of workqueues that
-- the parent made.
use libpwq.Prelude.{◌≡◌}
use libpwq.Workqueue.{Workqueue}
use libpwq.Manager.{Manager}
use libpwq.Manager.Init.{empty_table}

-- What is left after a fork: the heap as it was, empty tables and masks, and no workers.
record IsReset (m r : Manager) : Type 0 where
  heap : r.heap ≡ m.heap
  table : r.wqlist ≡ empty_table
  mask : r.wqlist_mask ≡ 0
  nobody : r.scoreboard.idle ≡ 0

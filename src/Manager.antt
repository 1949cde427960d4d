-- ===== src/Manager.antt =====
-- src/posix/manager.c: the static state of the manager. Its operations are in the child modules.
pub mod Init
pub mod Create
pub mod Additem
pub mod Scan
pub mod Pool
pub mod Overcommit
pub mod Control
pub mod Limits
pub mod Ramp
pub mod Backlog
pub mod Invariant
pub mod Tables
pub mod Worker
pub mod Runqueue
pub mod Signals
pub mod Weigh
use libpwq.Prelude.{ℕ, Option, List}
use libpwq.Workqueue.{Workqueue}

-- `scoreboard`; `sb_sem` is the value of the semaphore.
pub record Scoreboard : Type 0 where
  pub runqueue_length : ℕ
  pub count : ℕ
  pub about_to_wait : ℕ
  pub idle : ℕ
  pub sb_sem : ℕ
  pub sb_suspend : ℕ

-- The static variables of manager.c, with the heap that the workqueues are allocated in: a pointer
-- to a workqueue is an index of `heap`.
pub record Manager : Type 0 where
  pub cpu_count : ℕ
  pub worker_min : ℕ
  pub worker_idle_threshold : ℕ
  pub pending_thread_create : ℕ
  pub heap : List Workqueue
  pub ocwq : List (Option ℕ)
  pub ocwq_mask : ℕ
  pub ocwq_idle_threads : ℕ
  pub ocwq_signal_count : ℕ
  pub wqlist : List (Option ℕ)
  pub wqlist_mask : ℕ
  pub wqlist_has_manager : ℕ
  pub scoreboard : Scoreboard

-- The calls of the thread library through which one thread acts on others.
pub data Effect : Type 0 where
  signal_worker : Effect  -- pthread_cond_signal(&wqlist_has_work)
  signal_overcommit : Effect  -- pthread_cond_signal(&ocwq_has_work)
  create_overcommit : Effect  -- pthread_create(…, overcommit_worker_main, …)

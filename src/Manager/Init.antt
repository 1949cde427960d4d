-- ===== src/Manager/Init.antt =====
-- src/posix/manager.c: worker_idle_threshold_per_cpu, _manager_init_common, manager_init and
-- manager_reinit.
pub mod Laws
pub mod Fork
use libpwq.Prelude.{
  ℕ, ◌/◌, ◌<◌, ◌≡◌, Option, none, some, List, [], ◌∷◌, Bool, true, false, ◌==◌, ltb, ◌||◌,
  if◌then◌else◌, replicate, Outcome, ret, aborts,
}
use libpwq.Workqueue.{workqueue_max}
use libpwq.Manager.{Manager}

-- The switch on `cpu_count`.
unfoldable pub worker_idle_threshold_per_cpu : ℕ → ℕ
worker_idle_threshold_per_cpu cpus =
    if cpus == 0 || (cpus == 1 || (cpus == 2 || cpus == 4))
    then 2
    else if cpus == 6
    then 4
    else if cpus == 8 || cpus == 12
    then 6
    else if cpus == 16 || cpus == 24
    then 8
    else if cpus == 32 || cpus == 64
    then 12
    else cpus / 4

-- What _manager_init_common asks of its surroundings: PWQ_ACTIVE_CPU, thread_entitled_cpus(),
-- whether sem_init and pthread_atfork succeed, and PWQ_WMIN as atoi reads it (a C conversion to
-- `unsigned int`).
pub record Surroundings : Type 0 where
  pub active_cpu : ℕ
  pub entitled_cpus : ℕ
  pub sem_init : Bool
  pub atfork : Bool
  pub wmin : Option ℕ

unfoldable pub cpu_count_of : Surroundings → ℕ
cpu_count_of e = if ltb 0 e.active_cpu then e.active_cpu else e.entitled_cpus

-- The values that the library sets, over those that the variables had before. On failure of
-- sem_init the scoreboard and the thread limits stay as they were, and -1 (`false`) is returned.
unfoldable pub manager_init_common : Surroundings → Manager → Manager × Bool
unfolding cpu_count_of worker_idle_threshold_per_cpu
manager_init_common e m =
    let cpus = cpu_count_of e in
    let reset = record m {
      wqlist_has_manager = 0;
      wqlist_mask = 0;
      pending_thread_create = 0;
      ocwq_mask = 0;
      ocwq_idle_threads = 0;
      ocwq_signal_count = 0;
      cpu_count = cpus;
    } in
    if e.sem_init
    then (
      record reset {
        scoreboard = record {
          runqueue_length = m.scoreboard.runqueue_length;
          count = 0;
          about_to_wait = 0;
          idle = 0;
          sb_sem = 0;
          sb_suspend = 0;
        };
        worker_min = elim e.wmin [ some n ↦ n | none ↦ if ltb 1 cpus then cpus else 2 ];
        worker_idle_threshold =
            if ltb 0 e.active_cpu then e.active_cpu else worker_idle_threshold_per_cpu cpus;
      },
      true,
    )
    else (reset, false)

unfoldable pub manager_init : Surroundings → Manager → Manager × Bool
unfolding manager_init_common
manager_init e m =
    let (m', done) = manager_init_common e m in if done then (m', e.atfork) else (m', false)

abbrev pub empty_table : List (Option ℕ)
empty_table = replicate workqueue_max none

-- In the child of a fork.
unfoldable pub manager_reinit : Surroundings → Manager → Outcome Manager
unfolding manager_init_common
manager_reinit e m =
    let (m', done) = manager_init_common e m in
    if done then ret (record m' { wqlist = empty_table; ocwq = empty_table }) else aborts

-- The static variables before the library is initialised.
abbrev pub unset : Manager
unset = record {
  cpu_count = 0;
  worker_min = 0;
  worker_idle_threshold = 0;
  pending_thread_create = 0;
  heap = [];
  ocwq = empty_table;
  ocwq_mask = 0;
  ocwq_idle_threads = 0;
  ocwq_signal_count = 0;
  wqlist = empty_table;
  wqlist_mask = 0;
  wqlist_has_manager = 0;
  scoreboard = record {
    runqueue_length = 0;
    count = 0;
    about_to_wait = 0;
    idle = 0;
    sb_sem = 0;
    sb_suspend = 0;
  };
}

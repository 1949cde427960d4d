-- ===== src/Tests/ThreeCpus.antt =====
-- A run on three processors: the manager thread stops all workers, and an item comes.
use libpwq.Prelude.{
  ℕ, set, pos, ◌≡◌, ◌<◌, refl, none, some, [], ◌∷◌, true, subst, arith, sum_over, ret,
}
use libpwq.Word.{ffs, set_bit, clear_bit, bit}
use libpwq.Workqueue.{Work}
use libpwq.Api.{refuses, pthread_workqueue_create_np}
use libpwq.Manager.{Manager, signal_worker}
use libpwq.Manager.Additem.{enqueue, wake_worker}
use libpwq.Manager.Create.{manager_workqueue_create}
use libpwq.Manager.Init.{empty_table, Surroundings, manager_init, unset}
use libpwq.Manager.Init.Laws.{manager_init-Inv}
use libpwq.Manager.Invariant.{Inv}
use libpwq.Manager.Pool.{
  worker_start, worker_started, worker_begins, worker_ends, accept_item, force_wakeup, worker_stop,
}
use libpwq.Manager.Ramp.{Ramp, timeout, manager_round, manager_wakes}
use libpwq.Manager.Scan.{scan_queue}
use libpwq.Manager.Weigh.{weigh, total}
use libpwq.System.{
  begins, reads, no_item, gives_up, locks, takes, exits, System, nobody, moves, starts, stops_one,
  adds, checks, creates, Reach, start, later,
}
use libpwq.System.Counters.{is_worker}
use libpwq.System.Empty.{empty_pool_stays}
use libpwq.System.Items.{load}
use libpwq.System.Preserved.{IsFresh}
use libpwq.System.Wakeup.{queued}
use libpwq.Tests.Fixtures.{plain_queue, work_64, start_now}
use libpwq.Tests.Pool.{ramp, readings}
use libpwq.Tests.Threads.{mask_items, none_set}

abbrev three_cpus : Surroundings
three_cpus = record {
  active_cpu = 0;
  entitled_cpus = 3;
  sem_init = true;
  atfork = true;
  wmin = none;
}

-- After manager_init.
abbrev small : Manager
small = record unset { cpu_count = 3; worker_min = 3; worker_idle_threshold = 0 }

small_runs : manager_init three_cpus unset ≡ (small, true)
unfolding manager_init
small_runs = refl

small-Inv : Inv small
small-Inv = subst (λ r. Inv (r.0)) small_runs (manager_init-Inv three_cpus)

small-IsFresh : IsFresh 3 small
small-IsFresh = record {
  few = omega arith;
  valid = small-Inv;
  no_idle = refl;
  no_count = refl;
  no_pending = refl;
  no_items = λ j. mask_items small small-Inv none_set j;
}

-- A request to exit.
abbrev exit_item : ℕ → Work
exit_item handle = record work_64 { handle = handle; func = none }

-- One item, nobody who is to signal for it, and no worker.
abbrev IsForgotten : System → Type 0
IsForgotten s =
    (queued s.manager ≡ 1) × (s.checking ≡ 0) × (s.signalling ≡ 0) × (sum_over is_worker 3 s.pc ≡ 0)

-- The minimum of three workers is started, each is asked to exit, and then an item is added.
pool_gone : (s : System) × Reach 3 true small s × IsForgotten s
unfolding worker_start worker_started worker_begins worker_ends force_wakeup accept_item worker_stop
    enqueue wake_worker scan_queue set_bit clear_bit bit ffs sum_over load total weigh refuses
    pthread_workqueue_create_np manager_workqueue_create
pool_gone =
    let lt_0 : 0 < 3 = omega arith in
    let lt_1 : 1 < 3 = omega arith in
    let lt_2 : 2 < 3 = omega arith in
    let r1 = later start (creates none start_now refl tt refl refl) in
    let r2 = later r1 (starts 0 lt_0 refl) in
    let r3 = later r2 (starts 1 lt_1 refl) in
    let r4 = later r3 (starts 2 lt_2 refl) in
    let r5 = later r4 (moves 0 lt_0 begins) in
    let r6 = later r5 (moves 1 lt_1 begins) in
    let r7 = later r6 (moves 2 lt_2 begins) in
    -- Worker 0.
    let a1 = later r7 (stops_one (exit_item 192) refl refl refl refl (nobody refl)) in
    let a2 = later a1 (moves 0 lt_0 reads) in
    let a3 = later a2 (moves 0 lt_0 (no_item refl)) in
    let a4 = later a3 (moves 0 lt_0 gives_up) in
    let a5 = later a4 (moves 0 lt_0 (locks refl)) in
    let a6 = later a5 (moves 0 lt_0 reads) in
    let a7 = later a6 (moves 0 lt_0 (takes {w = exit_item 192} {prio = pos 1} refl)) in
    let a8 = later a7 (moves 0 lt_0 (exits refl)) in
    -- Worker 1.
    let b1 = later a8 (stops_one (exit_item 256) refl refl refl refl (nobody refl)) in
    let b2 = later b1 (moves 1 lt_1 reads) in
    let b3 = later b2 (moves 1 lt_1 (no_item refl)) in
    let b4 = later b3 (moves 1 lt_1 gives_up) in
    let b5 = later b4 (moves 1 lt_1 (locks refl)) in
    let b6 = later b5 (moves 1 lt_1 reads) in
    let b7 = later b6 (moves 1 lt_1 (takes {w = exit_item 256} {prio = pos 1} refl)) in
    let b8 = later b7 (moves 1 lt_1 (exits refl)) in
    -- Worker 2.
    let c1 = later b8 (stops_one (exit_item 320) refl refl refl refl (nobody refl)) in
    let c2 = later c1 (moves 2 lt_2 reads) in
    let c3 = later c2 (moves 2 lt_2 (no_item refl)) in
    let c4 = later c3 (moves 2 lt_2 gives_up) in
    let c5 = later c4 (moves 2 lt_2 (locks refl)) in
    let c6 = later c5 (moves 2 lt_2 reads) in
    let c7 = later c6 (moves 2 lt_2 (takes {w = exit_item 320} {prio = pos 1} refl)) in
    let c8 = later c7 (moves 2 lt_2 (exits refl)) in
    -- An item.
    let d1 = later c8 (adds 0 _ work_64 refl refl refl refl) in
    let d2 = later d1 (checks refl) in (_, d2, (refl, refl, refl, refl))

-- The manager thread asks a worker to exit even when it is the last one: here it has been the only
-- one for fifteen seconds.
abbrev lonely : Manager
lonely = record small {
  heap = plain_queue ∷ [];
  wqlist = set empty_table 1 (some 0);
  scoreboard = record (small.scoreboard) { idle = 1; count = 1 };
}

abbrev patient : Ramp
patient = record ramp { idle_accumulated = 14 }

last_asked :
    (ramp' : Ramp) × (m' : Manager) × (manager_round timeout readings patient lonely
      ≡ ret (ramp', m', signal_worker ∷ []))
unfolding manager_round worker_stop set_bit bit
last_asked = (_, _, refl)

empty_pool_stays_example :
    (ramp' : Ramp) × (manager_round timeout readings ramp pool_gone.0.manager
      ≡ ret (ramp', (manager_wakes timeout ramp pool_gone.0.manager).1, []))
unfolding pool_gone
empty_pool_stays_example =
    empty_pool_stays small-IsFresh (pool_gone.1) pool_gone.2.3 timeout readings ramp

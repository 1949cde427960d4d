-- ===== src/Tests/LostWakeup.antt =====
-- A run of two workers, with a request to exit and a more urgent workqueue that is created.
use libpwq.Prelude.{pos, ◌≡◌, ◌<◌, refl, none, some, [], ◌∷◌, true, arith, sum_over, set}
use libpwq.Word.{ffs, set_bit, clear_bit, bit}
use libpwq.Workqueue.{Work}
use libpwq.Api.{refuses, pthread_workqueue_create_np}
use libpwq.Manager.{Manager}
use libpwq.Manager.Additem.{enqueue, wake_worker}
use libpwq.Manager.Create.{manager_workqueue_create}
use libpwq.Manager.Pool.{
  worker_start, worker_started, worker_begins, worker_ends, accept_item, force_wakeup, worker_stop,
}
use libpwq.Manager.Scan.{scan_queue}
use libpwq.Manager.Init.{empty_table}
use libpwq.System.{
  absent, asleep, begins, reads, no_bit, no_item, gives_up, locks, sleeps, takes, goes_on, exits,
  calls, returns, System, nobody, moves, starts, stops_one, adds, checks, signals, creates, Reach,
  start, later,
}
use libpwq.Manager.Weigh.{weigh, total}
use libpwq.System.Items.{load}
use libpwq.System.Wakeup.{queued}
use libpwq.Tests.Fixtures.{fresh, plain_queue, work_64, work_128, start_now}

-- With one workqueue, of background priority.
abbrev background : Manager
background = record fresh {
  wqlist_has_manager = 1;
  heap = record plain_queue { queueprio = pos 3; wqlist_index = 3 } ∷ [];
  wqlist = set empty_table 3 (some 0);
}

-- The item that asks a worker to exit.
abbrev exit_item : Work
exit_item = record work_64 { handle = 192; func = none }

abbrev IsStranded : System → Type 0
IsStranded s =
    (s.pc 0 ≡ absent)
    × (s.pc 1 ≡ asleep)
    × (s.checking ≡ 0)
    × (s.signalling ≡ 0)
    × (queued s.manager ≡ 1)

-- With a request to exit a wake-up can be lost: there is a run after which an item is queued, the
-- only worker that is left sleeps, and no signal is on its way.
lost_wakeup : (s : System) × Reach 2 true background s × IsStranded s
unfolding worker_start worker_started worker_begins worker_ends force_wakeup accept_item worker_stop
    enqueue wake_worker scan_queue set_bit clear_bit bit ffs sum_over load total weigh refuses
    pthread_workqueue_create_np manager_workqueue_create
lost_wakeup =
    let zero_lt : 0 < 2 = omega arith in
    let one_lt : 1 < 2 = omega arith in
    -- Worker 1 waits for the mutex, and worker 0 is before its first scan.
    let r1 = later start (starts 0 zero_lt refl) in
    let r2 = later r1 (starts 1 one_lt refl) in
    let r3 = later r2 (moves 1 one_lt begins) in
    let r4 = later r3 (moves 1 one_lt reads) in
    let r5 = later r4 (moves 1 one_lt no_bit) in
    let r6 = later r5 (moves 1 one_lt gives_up) in
    let r7 = later r6 (moves 0 zero_lt begins) in
    -- A request to exit, and an item behind it, with nobody asleep.
    let r8 = later r7 (stops_one exit_item refl refl refl refl (nobody refl)) in
    let r9 = later r8 (adds 0 _ work_64 refl refl refl refl) in
    let r10 = later r9 (checks refl) in
    let r11 = later r10 (signals refl refl (nobody refl)) in
    -- A more urgent workqueue, with an item.
    let r12 = later r11 (creates none start_now refl tt refl refl) in
    let r13 = later r12 (adds 1 _ work_128 refl refl refl refl) in
    let r14 = later r13 (checks refl) in
    let r15 = later r14 (signals refl refl (nobody refl)) in
    -- Worker 1 picks its queue, worker 0 empties it, and worker 1 goes to sleep.
    let r16 = later r15 (moves 1 one_lt (locks refl)) in
    let r17 = later r16 (moves 1 one_lt reads) in
    let r18 = later r17 (moves 0 zero_lt reads) in
    let r19 = later r18 (moves 0 zero_lt (takes {w = work_128} {prio = pos 1} refl)) in
    let r20 = later r19 (moves 1 one_lt (no_item refl)) in
    let r21 = later r20 (moves 1 one_lt sleeps) in
    -- Worker 0 runs the item, finds the request to exit, and exits.
    let r22 = later r21 (moves 0 zero_lt goes_on) in
    let r23 = later r22 (moves 0 zero_lt calls) in
    let r24 = later r23 (moves 0 zero_lt returns) in
    let r25 = later r24 (moves 0 zero_lt reads) in
    let r26 = later r25 (moves 0 zero_lt (no_item refl)) in
    let r27 = later r26 (moves 0 zero_lt gives_up) in
    let r28 = later r27 (moves 0 zero_lt (locks refl)) in
    let r29 = later r28 (moves 0 zero_lt reads) in
    let r30 = later r29 (moves 0 zero_lt (takes {w = exit_item} {prio = pos 3} refl)) in
    let r31 = later r30 (moves 0 zero_lt (exits refl)) in (_, r31, (refl, refl, refl, refl, refl))

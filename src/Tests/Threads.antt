-- ===== src/Tests/Threads.antt =====
-- The threads at work: a worker goes to sleep, an item comes, and the worker wakes up and runs it.
use libpwq.Prelude.{
  Bool, ℕ, pos, ◌≡◌, ◌<◌, refl, sym, ◌∙◌, inl, inr, some, [], ◌∷◌, ◌++◌, ◌+◌, ◌≤◌, ◌⊎◌, false,
  arith, update, sum_over, ret,
}
use libpwq.Word.{ffs, set_bit, clear_bit, bit}
use libpwq.Workqueue.{is_null}
use libpwq.Manager.{Manager}
use libpwq.Manager.Additem.{enqueue, wake_worker}
use libpwq.Manager.Pool.{worker_start, worker_started, worker_begins, accept_item, force_wakeup}
use libpwq.Manager.Scan.{scan_queue}
use libpwq.System.{
  holds, first, wait, Pc, absent, created, scanning, picked, missed, got, blocked, asleep, ready,
  running, begins, reads, no_bit, gives_up, locks, sleeps, takes, accepts, calls, freed, System,
  woke, moves, starts, fails, adds, checks, signals, Reach, start, later,
}
use libpwq.Manager.Invariant.{Inv, pending_items, pending-lt}
use libpwq.Manager.Scan.Priority.{List-cases, nil_of_empty}
use libpwq.Word.Ffs.{ffs_zero}
use libpwq.System.Counters.{is_idle, is_worker}
use libpwq.Manager.Weigh.{weigh, total}
use libpwq.System.Items.{load, held}
use libpwq.System.Wakeup.{is_keen, IsTaking}
use libpwq.System.Safety.{scoreboard_counts, items_kept, running_has_function, failed_create_blocks}
use libpwq.System.Progress.{Mover, awake_moves}
use libpwq.System.Attention.{no_lost_wakeup}
use libpwq.Manager.Ramp.{wants_worker}
use libpwq.System.Preserved.{IsFresh}
use libpwq.Tests.Fixtures.{two_queues, two_queues-Inv, plain_queue, work_64, one_item}

-- Worker 0 makes a move.
abbrev pub worker_to : System → Manager → Pc → System
worker_to s m p = record s { manager = m; pc = update s.pc 0 p; done = freed (s.pc 0) p ++ s.done }

abbrev pub at_first : System
at_first = record {
  manager = two_queues;
  pc = λ i. absent;
  checking = 0;
  signalling = 0;
  failed = 0;
  added = [];
  done = [];
}

abbrev pub scored : Manager → ℕ → ℕ → ℕ → Manager
scored m idle count pending = record m {
  scoreboard = record m.scoreboard { idle = idle; count = count };
  pending_thread_create = pending;
}

abbrev pub one_created : System
one_created = record at_first {
  manager = scored two_queues 1 1 1;
  pc = update at_first.pc 0 created;
}

-- The manager with one worker, which is idle, or runs a function.
abbrev pub idle_manager : Manager
idle_manager = scored two_queues 1 1 0

abbrev pub first_scan : System
first_scan = worker_to one_created idle_manager (scanning first)

-- Nothing is queued while the mask is 0.
pub mask_items : (m : Manager) → Inv m → ffs m.wqlist_mask ≡ 0 → (j : ℕ) → pending_items m j ≡ []
mask_items m v e j = elim (List-cases (pending_items m j)) [
  | inl nil ↦ nil
  | inr (x, rest, holds) ↦
      let lt = pending-lt v j x rest holds in
      nil_of_empty (pending_items m j) (
        sym (v.normal.pending j (omega (arith, lt)))
        ∙ ffs_zero m.wqlist_mask j e (omega (arith, lt)))
]

pub none_set : ffs 0 ≡ 0
unfolding ffs
none_set = refl

second_set : ffs 2 ≡ 2
unfolding ffs
second_set = refl

pub two_queues-IsFresh : IsFresh 2 two_queues
two_queues-IsFresh = record {
  few = omega arith;
  valid = two_queues-Inv;
  no_idle = refl;
  no_count = refl;
  no_pending = refl;
  no_items = λ j. mask_items two_queues two_queues-Inv none_set j;
}

zero_lt : 0 < 2
zero_lt = omega arith

scans : (stops : Bool) → Reach 2 stops two_queues first_scan
unfolding worker_start worker_started
scans stops = later (later start (starts 0 (omega arith) refl)) (moves 0 zero_lt begins)

-- It finds nothing, waits for the mutex, finds nothing again and goes to sleep.
abbrev pub sleeping : System
sleeping =
    let reading = worker_to first_scan idle_manager (picked first 0) in
    let missing = worker_to reading idle_manager (missed first) in
    let waiting = worker_to missing idle_manager blocked in
    let holding = worker_to waiting idle_manager (scanning wait) in
    let looking = worker_to holding idle_manager (picked wait 0) in
    let finding = worker_to looking idle_manager (missed wait) in
    worker_to finding idle_manager asleep

pub sleeps_there : (stops : Bool) → Reach 2 stops two_queues sleeping
unfolding ffs sum_over
sleeps_there stops =
    let r1 = later (scans stops) (moves 0 zero_lt reads) in
    let r2 = later r1 (moves 0 zero_lt no_bit) in
    let r3 = later r2 (moves 0 zero_lt gives_up) in
    let r4 = later r3 (moves 0 zero_lt (locks refl)) in
    let r5 = later r4 (moves 0 zero_lt reads) in
    let r6 = later r5 (moves 0 zero_lt no_bit) in later r6 (moves 0 zero_lt sleeps)

-- A client adds an item and signals, and the worker picks its queue.
abbrev pub item_manager : Manager
item_manager = scored one_item 1 1 0

abbrev pub item_added : System
item_added = record sleeping { manager = item_manager; checking = 1; added = work_64 ∷ [] }

abbrev pub picks_item : System
picks_item =
    let woken = record item_added {
      checking = 0;
      signalling = 0;
      pc = update sleeping.pc 0 blocked;
    } in
    let holding = worker_to woken item_manager (scanning wait) in
    worker_to holding item_manager (picked wait 2)

adds_there : (stops : Bool) → Reach 2 stops two_queues item_added
unfolding enqueue set_bit
adds_there stops = later (sleeps_there stops) (adds 0 plain_queue work_64 refl refl refl refl)

pub picks_there : (stops : Bool) → Reach 2 stops two_queues picks_item
unfolding ffs sum_over wake_worker
picks_there stops =
    let r1 = later (adds_there stops) (checks refl) in
    let r2 = later r1 (signals refl refl (woke 0 zero_lt refl)) in
    let r3 = later r2 (moves 0 zero_lt (locks refl)) in later r3 (moves 0 zero_lt reads)

-- It takes the item and calls its function.
abbrev pub runs_item : System
runs_item =
    let taking = worker_to picks_item idle_manager (got wait work_64) in
    let accepting = worker_to taking (force_wakeup idle_manager) (ready work_64) in
    worker_to accepting (worker_begins (force_wakeup idle_manager)) (running work_64)

scans_item : scan_queue item_manager 1 false ≡ ret (idle_manager, some (work_64, pos 1))
unfolding scan_queue clear_bit bit
scans_item = refl

pub runs_there : (stops : Bool) → Reach 2 stops two_queues runs_item
unfolding accept_item force_wakeup worker_begins
runs_there stops =
    let r1 = later (picks_there stops) (moves 0 zero_lt (takes scans_item)) in
    let r2 = later r1 (moves 0 zero_lt (accepts refl)) in later r2 (moves 0 zero_lt calls)

-- And a pthread_create fails beside it.
abbrev pub after_failure : System
after_failure = record runs_item { manager = (worker_start false runs_item.manager).0; failed = 1 }

fails_there : (stops : Bool) → Reach 2 stops two_queues after_failure
fails_there stops = later (runs_there stops) fails

scoreboard_counts_example :
    (runs_item.manager.scoreboard.idle ≡ sum_over is_idle 2 runs_item.pc)
    × (runs_item.manager.scoreboard.count ≡ sum_over is_worker 2 runs_item.pc)
    × (runs_item.manager.scoreboard.idle ≤ runs_item.manager.scoreboard.count)
    × (runs_item.manager.scoreboard.count ≤ 2)
scoreboard_counts_example = scoreboard_counts two_queues-IsFresh (runs_there false)

items_kept_example :
    weigh (λ w. w.handle) (work_64 ∷ [])
    ≡ load (λ w. w.handle) runs_item.manager
      + sum_over (held (λ w. w.handle)) 2 runs_item.pc
      + weigh (λ w. w.handle) []
items_kept_example = items_kept two_queues-IsFresh (runs_there false) (λ w. w.handle)

running_has_function_example : is_null work_64.func ≡ false
running_has_function_example =
    running_has_function two_queues-IsFresh (runs_there false) 0 work_64 refl

failed_create_blocks_example : wants_worker (worker_start false runs_item.manager).0 ≡ false
failed_create_blocks_example =
    failed_create_blocks two_queues-IsFresh (fails_there false) (omega arith) (omega arith)

no_lost_wakeup_example :
    (0 < sum_over is_keen 2 picks_item.pc + 0 + 0) ⊎ IsTaking 2 item_manager picks_item.pc
unfolding load total weigh sum_over
no_lost_wakeup_example =
    no_lost_wakeup two_queues-IsFresh (picks_there false) (omega arith) (omega arith)

awake_moves_example : Mover 2 picks_item 0
awake_moves_example = awake_moves two_queues-IsFresh (picks_there false) 0 (omega arith) refl refl

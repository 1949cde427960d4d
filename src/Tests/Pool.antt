-- ===== src/Tests/Pool.antt =====
-- The pool of workers at concrete states.
use libpwq.Prelude.{ℕ, arith, ◌+◌, ◌≤◌, ◌≡◌, refl, some, List, true, length, ret}
use libpwq.Manager.{Manager, Effect}
use libpwq.Manager.Invariant.{Inv}
use libpwq.Manager.Pool.{first_workqueue}
use libpwq.Manager.Control.{Peeks, manager_peek}
use libpwq.Manager.Control.Laws.{peek_lem}
use libpwq.Manager.Ramp.{Idles, accumulate, Ramp, Readings, ramp_up, ramp_down}
use libpwq.Manager.Ramp.Laws.{SamePool, ramp_up_lem, ramp_down_lem}
use libpwq.Manager.Init.{empty_table}
use libpwq.Tests.Fixtures.{two_queues, staffed, staffed-Inv}

abbrev three_cpus : ℕ
three_cpus = 3

-- A timeout after four idle workers were counted for many seconds.
abbrev pub ramp : Ramp
ramp = record {
  worker_max = 100;
  runqueue_length_max = 4;
  threads_total = 9;
  current_thread_count = 2;
  idle_accumulated = 40;
  timed_out = true;
}

abbrev pub readings : Readings
readings = record {
  runnable = some (2, 9);
  runqueue = 1;
  idle_again = 0;
  spawn = true;
  alloc = λ i. 256 + i;
}

-- Of four idle workers one takes an item before the surplus is read.
abbrev idles : Idles
idles = record { tested = 4; summed = 4; for_surplus = 3; before_stop = λ i. 3 }

ramp_down_lem_example :
    (ramp' : Ramp) × (m' : Manager) × (effects : List Effect) × (ramp_down idles readings ramp
        staffed
      ≡ ret (ramp', m', effects))
    × (length effects ≤ 2)
    × (length effects ≤ 1)
    × Inv m'
    × SamePool staffed m'
unfolding first_workqueue accumulate
ramp_down_lem_example =
    ramp_down_lem idles readings ramp 0 staffed-Inv refl (omega arith) (omega arith)

-- All five workers are busy.
abbrev strained : Manager
strained = record staffed { scoreboard = record (staffed.scoreboard) { idle = 0 } }

ramp_up_lem_example :
    let m' = (ramp_up readings ramp strained).1 in
    (5 ≤ m'.scoreboard.count) × (m'.scoreboard.count ≤ 6)
ramp_up_lem_example = ramp_up_lem readings ramp strained (omega arith) (omega arith)

-- And one pthread_create failed before.
abbrev stuck : Manager
stuck = record strained { pending_thread_create = 1 }

stuck-Inv : Inv stuck
stuck-Inv = record {
  normal = staffed-Inv.normal;
  over = staffed-Inv.over;
  registered = staffed-Inv.registered;
}

-- A worker takes an item between the two reads.
abbrev peeks : Peeks
peeks = record { read = 4; tested = 3; tested_again = 3 }

peek_lem_example :
    (n k : ℕ) × (manager_peek peeks staffed "idle" ≡ ret n)
    × (manager_peek peeks staffed "ocomm_idle" ≡ ret k)
    × (manager_peek peeks staffed "combined_idle" ≡ ret (n + k))
    × (n ≤ 4)
    × (n + 2 ≡ 4)
peek_lem_example = peek_lem peeks staffed (omega arith) (omega arith) (omega arith) (omega arith)

-- And here three workers become idle between the two reads.
abbrev later_peeks : Peeks
later_peeks = record { read = 1; tested = 4; tested_again = 4 }

-- The child of a fork, in which the plain workqueue of the parent is in no table.
abbrev child : Manager
child = record two_queues { wqlist_has_manager = 0; wqlist = empty_table; ocwq = empty_table }

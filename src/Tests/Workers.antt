-- ===== src/Tests/Workers.antt =====
-- A round of a worker, and the loads that the manager reads, at concrete inputs.
use libpwq.Prelude.{
  ℕ, [], ◌∷◌, ◌≡◌, refl, arith, none, some, false, Option, List, Bool, get_elem?, ◌==◌,
  if◌then◌else◌,
}
use libpwq.Linux.Threads.{File, read_file, threads_runnable}
use libpwq.Linux.Threads.Laws.{
  Thread, IsThread, all, file_of, Listing, ends, shows, hides, running, threads_runnable_counts,
}
use libpwq.Windows.Legacy.{Legacy, wqlist_scan}
use libpwq.Windows.Legacy.Laws.{TakesFirst, legacy_scan_refines}
use libpwq.Manager.Worker.{Seen, worker_round}
use libpwq.Manager.Worker.Rounds.{RoundResult, worker_round-RoundResult}
use libpwq.Tests.Fixtures.{
  plain_queue, work_64, work_128, two_queues, two_queues-Inv, loaded, loaded-Inv,
}

-- The worker finds nothing at first, does not spin, and is woken when there is an item.
abbrev woken_once : Seen
woken_once = record { first = two_queues; spin = []; wait = two_queues ∷ loaded ∷ [] }

worker_round-RoundResult_example : RoundResult 0 0 woken_once (worker_round 0 0 woken_once)
worker_round-RoundResult_example =
    worker_round-RoundResult 0 0 woken_once two_queues-Inv tt (two_queues-Inv, (loaded-Inv, tt))

-- The text "p", a new line, "procs_running 42", a new line.
-- A directory with ".", the file of which cannot be opened, "..", which leads to that of the process
-- itself, and the thread "11".
abbrev leader : Thread
leader = record {
  digit = 57;
  digits = [];
  letter = 40;
  letters = 97 ∷ 41 ∷ [];
  state = 82;
  more = [];
}

abbrev thread_11 : Thread
thread_11 = record leader { digit = 49; digits = 49 ∷ []; state = 83; more = 32 ∷ [] }

abbrev char_is : Option ℕ → ℕ → Bool
char_is none c = false
char_is (some d) c = d == c

abbrev proc : List ℕ → File
proc path =
    if char_is (get_elem? path 17) 46
    then file_of leader
    else if char_is (get_elem? path 17) 49
    then file_of thread_11
    else record { opens = false; nonblocking = false; bytes = none }

proc-Listing :
    Listing proc ((46 ∷ []) ∷ (46 ∷ 46 ∷ []) ∷ (49 ∷ 49 ∷ []) ∷ []) (leader ∷ thread_11 ∷ [])
unfolding all read_file
proc-Listing = hides refl (shows refl valid (shows refl valid' ends))
  where
    valid : IsThread leader
    valid = record { number = refl; plain = refl; shown = refl }

    valid' : IsThread thread_11
    valid' = record { number = refl; plain = refl; shown = refl }

threads_runnable_counts_example :
    threads_runnable proc (some ((46 ∷ []) ∷ (46 ∷ 46 ∷ []) ∷ (49 ∷ 49 ∷ []) ∷ [])) ≡ some (1, 2)
unfolding running
threads_runnable_counts_example = threads_runnable_counts proc-Listing (omega arith)

-- An empty workqueue, and one with two items.
abbrev legacy : Legacy
legacy = record {
  wqlist =
      ((16, plain_queue) ∷ [])
      ∷ ((32, record plain_queue { item_listhead = work_64 ∷ work_128 ∷ [] }) ∷ [])
      ∷ [];
}

legacy_scan_refines_example : TakesFirst legacy (wqlist_scan legacy)
legacy_scan_refines_example = legacy_scan_refines legacy

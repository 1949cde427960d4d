-- ===== src/Manager/Worker.antt =====
-- src/posix/manager.c: wqlist_scan_spin, wqlist_scan_wait, and one round of the loop of
-- worker_main. Other threads change the manager between two scans of a worker, so a loop of scans
-- runs over the states that its scans find.
pub mod Laws
pub mod Rounds
use libpwq.Prelude.{
  ℕ, ℤ, Option, none, some, List, [], ◌∷◌, Bool, true, false, ◌&&◌, leb, if◌then◌else◌, Outcome,
  ret, waits, ◌>>=◌,
}
use libpwq.Word.{inc32, dec32}
use libpwq.Workqueue.{Work}
use libpwq.Manager.{Manager}
use libpwq.Manager.Scan.{wqlist_scan}
use libpwq.Manager.Pool.{force_wakeup, accept_item, worker_begins}

-- The manager after a scan, the item, and the priority of its queue.
pub record Taken : Type 0 where
  pub manager : Manager
  pub work : Work
  pub prio : ℤ

-- `while ((witem = wqlist_scan(…)) == NULL)`, over the states that the scans find.
unfoldable pub scan_until : Bool → List Manager → Outcome Taken
scan_until skip [] = waits
scan_until skip (m ∷ rest) = do
  (m', found) ← wqlist_scan m skip
  elim found [
    | none ↦ scan_until skip rest
    | some (w, prio) ↦ ret (record { manager = m'; work = w; prio = prio })
  ]

-- `spinning` is current_threads_spinning, which is returned as this thread leaves it, and `limit`
-- is PWQ_SPIN_THREADS.
unfoldable pub wqlist_scan_spin : ℕ → ℕ → List Manager → Outcome (ℕ × Option Taken)
unfolding scan_until force_wakeup
wqlist_scan_spin limit spinning seen =
    if leb (inc32 spinning) limit
    then (do
      t ← scan_until true seen
      ret (dec32 (inc32 spinning), some (record t { manager = force_wakeup t.manager })))
    else ret (dec32 (inc32 spinning), none)

-- The item with which the worker goes on, or `none` if it exits.
unfoldable pub wqlist_scan_wait : List Manager → Outcome (Manager × Option Taken)
unfolding scan_until accept_item
wqlist_scan_wait seen = do
  t ← scan_until false seen
  let (m, stays) = accept_item t.manager t.work
  ret (m, if stays then some (record t { manager = m }) else none)

-- What a worker finds in one round: at its first scan, while it spins, and while it waits.
pub record Seen : Type 0 where
  pub first : Manager
  pub spin : List Manager
  pub wait : List Manager

-- How a round ends: the worker calls the function of its item, or its thread exits.
pub data Round : Type 0 where
  runs : Taken → Round
  exits : Manager → Round

-- The item of one round, and the exit of the thread.
unfoldable pub find_item : ℕ → ℕ → Seen → Outcome Round
unfolding wqlist_scan_spin wqlist_scan_wait
find_item limit spinning s = do
  (m, found) ← wqlist_scan s.first true
  elim found [
    | some (w, prio) ↦ ret (runs (record { manager = m; work = w; prio = prio }))
    | none ↦ do
      (spinning', spun) ← wqlist_scan_spin limit spinning s.spin
      elim spun [
        | some t ↦ ret (runs t)
        | none ↦ do
          (m', waited) ← wqlist_scan_wait s.wait
          ret (elim waited [ none ↦ exits m' | some t ↦ runs t ])
      ]
  ]

-- One round up to the call of the work function.
unfoldable pub worker_round : ℕ → ℕ → Seen → Outcome Round
unfolding find_item worker_begins
worker_round limit spinning s = do
  r ← find_item limit spinning s
  ret (elim r [
    | exits m ↦ exits m
    | runs t ↦ runs (record t { manager = worker_begins t.manager })
  ])

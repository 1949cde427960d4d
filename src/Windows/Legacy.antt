-- ===== src/Windows/Legacy.antt =====
-- src/windows/manager.c with PROVIDE_LEGACY_XP_SUPPORT. For each priority there is a list of
-- workqueues (sys/queue.h LIST), the newest one first; a workqueue is known by its address.
pub mod Laws
pub mod Sums
pub mod Run
pub mod Scans
use libpwq.Prelude.{
  ℕ, pos, negsuc, Option, none, some, List, [], ◌∷◌, ◌++◌, Bool, ◌==◌, if◌then◌else◌, replicate,
  get_elem?, set, Outcome, ret, aborts, faults, ◌>>=◌, or_fault,
}
use libpwq.Workqueue.{Work, Workqueue, num_prioqueue}
use libpwq.Manager.Additem.{insert_tail}

-- `wqlist`, with the workqueues that its entries lead to in place.
pub record Legacy : Type 0 where
  pub wqlist : List (List (ℕ × Workqueue))

unfoldable pub manager_init : Legacy
manager_init = record { wqlist = replicate num_prioqueue [] }

-- LIST_INSERT_HEAD(&wqlist[workq->queueprio], workq, wqlist_entry), under `wqlist_mtx`. The call of
-- pthread_spin_init behind it is a step of its own in Legacy.Scans.
unfoldable pub manager_workqueue_create : Legacy → ℕ → Workqueue → Outcome Legacy
manager_workqueue_create s a q = elim q.queueprio [
  | pos prio ↦ do
    queues ← or_fault (get_elem? s.wqlist prio)
    ret (record { wqlist = set s.wqlist prio ((a, q) ∷ queues) })
  | negsuc n ↦ faults
]

-- LIST_FOREACH over the workqueues of a priority: the first item of the first one that has any,
-- with the list as it is left.
unfoldable pub scan_list : List (ℕ × Workqueue) → Option (Work × List (ℕ × Workqueue))
scan_list [] = none
scan_list ((a, q) ∷ rest) = elim q.item_listhead [
  | [] ↦ elim (scan_list rest) [ none ↦ none | some (w, rest') ↦ some (w, (a, q) ∷ rest') ]
  | w ∷ items ↦ some (w, (a, record q { item_listhead = items }) ∷ rest)
]

-- The loop over the priorities.
unfoldable pub scan_lists :
    List (List (ℕ × Workqueue)) → Option (Work × List (List (ℕ × Workqueue)))
unfolding scan_list
scan_lists [] = none
scan_lists (queues ∷ rest) =
    let later = scan_lists rest in
    elim (scan_list queues) [
      | some (w, queues') ↦ some (w, queues' ∷ rest)
      | none ↦ elim later [ none ↦ none | some (w, rest') ↦ some (w, queues ∷ rest') ]
    ]

unfoldable pub wqlist_scan : Legacy → Legacy × Option Work
unfolding scan_lists
wqlist_scan s = elim (scan_lists s.wqlist) [
  | none ↦ (s, none)
  | some (w, lists) ↦ (record { wqlist = lists }, some w)
]

-- The function that worker_main calls, if the scan finds an item; it frees the item.
unfoldable pub worker_main : Legacy → Outcome (Legacy × Option ℕ)
unfolding wqlist_scan
worker_main s =
    let (s', found) = wqlist_scan s in
    elim found [
      | none ↦ ret (s', none)
      | some w ↦ elim w.func [ none ↦ faults | some f ↦ ret (s', some f) ]
    ]

-- STAILQ_INSERT_TAIL on the workqueue at an address.
unfoldable pub insert_at : ℕ → Work → List (ℕ × Workqueue) → List (ℕ × Workqueue)
unfolding insert_tail
insert_at a w [] = []
insert_at a w ((b, q) ∷ rest) =
    let rest' = insert_at a w rest in
    if a == b then (b, insert_tail q w) ∷ rest' else (b, q) ∷ rest'

unfoldable pub insert_in : ℕ → Work → List (List (ℕ × Workqueue)) → List (List (ℕ × Workqueue))
unfolding insert_at
insert_in a w [] = []
insert_in a w (queues ∷ rest) = insert_at a w queues ∷ insert_in a w rest

-- `queued` says whether QueueUserWorkItem succeeds.
unfoldable pub manager_workqueue_additem : Bool → Legacy → ℕ → Work → Outcome Legacy
unfolding insert_in
manager_workqueue_additem queued s a w =
    if queued then ret (record { wqlist = insert_in a w s.wqlist }) else aborts

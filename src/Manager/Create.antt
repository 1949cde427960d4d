-- ===== src/Manager/Create.antt =====
-- src/posix/manager.c: manager_start and manager_workqueue_create.
pub mod Start
pub mod Store
pub mod Laws
use libpwq.Prelude.{
  ℕ, ℤ, pos, negsuc, to_index, is_nonzero, Option, none, some, List, [], ◌∷◌, not, ◌&&◌, ◌==◌,
  if◌then◌else◌, get_elem?, set, Outcome, ret, aborts, waits, faults, ◌>>=◌, or_fault,
}
use libpwq.Workqueue.{Workqueue}
use libpwq.Manager.{Manager}

-- The result of one pthread_create: 0, EAGAIN, or another error.
pub data Spawn : Type 0 where
  created eagain refused : Spawn

-- The loop of manager_start, over the results that pthread_create gives: it sleeps on EAGAIN, so
-- with no further result it is still waiting.
unfoldable pub manager_start : List Spawn → Manager → Outcome Manager
manager_start [] m = waits
manager_start (created ∷ rest) m = ret (record m { wqlist_has_manager = 1 })
manager_start (eagain ∷ rest) m = manager_start rest m
manager_start (refused ∷ rest) m = aborts

-- `table[queueprio]` for an `int` index.
unfoldable pub table_get : List (Option ℕ) → ℤ → Outcome (Option ℕ)
table_get table (pos i) = or_fault (get_elem? table i)
table_get table (negsuc i) = faults

-- The branch on `workq->overcommit`: each table takes one workqueue for a priority, else abort().
unfoldable pub store_workqueue : Manager → ℕ → Workqueue → Outcome Manager
unfolding table_get
store_workqueue m a q =
    let prio = to_index q.queueprio in
    let heap' = set m.heap a (record q { wqlist_index = prio }) in
    if is_nonzero q.overcommit
    then (table_get m.ocwq q.queueprio >>= elim [
      | none ↦ ret (record m { ocwq = set m.ocwq prio (some a); heap = heap' })
      | some _ ↦ aborts
    ])
    else (table_get m.wqlist q.queueprio >>= elim [
      | none ↦ ret (record m { wqlist = set m.wqlist prio (some a); heap = heap' })
      | some _ ↦ aborts
    ])

unfoldable pub manager_workqueue_create : List Spawn → Manager → ℕ → Outcome Manager
unfolding manager_start store_workqueue
manager_workqueue_create spawns m a = do
  q ← or_fault (get_elem? m.heap a)
  m' ←
      if not (is_nonzero q.overcommit) && (m.wqlist_has_manager == 0)
      then manager_start spawns m
      else ret m
  store_workqueue m' a q

-- ===== src/Manager/Pool.antt =====
-- src/posix/manager.c: worker_start, worker_stop, and what a worker thread does to the scoreboard.
pub mod Laws
use libpwq.Prelude.{
  ℕ, ◌+◌, Option, none, some, List, [], ◌∷◌, Bool, true, false, ◌==◌, if◌then◌else◌, get_elem?, set,
  Outcome, ret, aborts, ◌>>=◌, or_fault,
}
use libpwq.Word.{inc32, dec32}
use libpwq.Workqueue.{Work, is_null}
use libpwq.Manager.{Manager, Effect, signal_worker}
use libpwq.Manager.Additem.{insert_tail, set_queue_mask, mask_rounds}

-- atomic_inc and atomic_dec of `scoreboard.idle`
abbrev pub inc_idle : Manager → Manager
inc_idle m = record m { scoreboard = record (m.scoreboard) { idle = inc32 m.scoreboard.idle } }

abbrev pub dec_idle : Manager → Manager
dec_idle m = record m { scoreboard = record (m.scoreboard) { idle = dec32 m.scoreboard.idle } }

abbrev pub inc_count : Manager → Manager
inc_count m = record m { scoreboard = record (m.scoreboard) { count = inc32 m.scoreboard.count } }

abbrev pub dec_count : Manager → Manager
dec_count m = record m { scoreboard = record (m.scoreboard) { count = dec32 m.scoreboard.count } }

-- sem_post(&scoreboard.sb_sem)
abbrev pub post : Manager → Manager
post m = record m { scoreboard = record (m.scoreboard) { sb_sem = m.scoreboard.sb_sem + 1 } }

-- `success` says whether pthread_create returns 0; the result is false for -1.
unfoldable pub worker_start : Bool → Manager → Manager × Bool
worker_start success m =
    let m' =
      inc_count (inc_idle (record m { pending_thread_create = inc32 m.pending_thread_create })) in
    if success then (m', true) else (dec_count (dec_idle m'), false)

-- The first statements of worker_main.
unfoldable pub worker_started : Manager → Manager
worker_started m = record m { pending_thread_create = dec32 m.pending_thread_create }

-- Around the call of the work function.
unfoldable pub worker_begins : Manager → Manager
worker_begins m = dec_idle m

unfoldable pub worker_ends : Manager → Manager
worker_ends m = inc_idle m

-- "Force the manager thread to wakeup if we are the last idle one", after an item was found by
-- wqlist_scan_spin or wqlist_scan_wait.
unfoldable pub force_wakeup : Manager → Manager
force_wakeup m = if m.scoreboard.idle == 1 then post m else m

-- The end of wqlist_scan_wait: true if the worker goes on with the item, false if it exits.
unfoldable pub accept_item : Manager → Work → Manager × Bool
unfolding force_wakeup
accept_item m w =
    let m' = force_wakeup m in
    if is_null w.func then (dec_count (dec_idle m'), false) else (m', true)

-- The loop of worker_stop over `wqlist`: the first workqueue there is, NULL entries left out.
unfoldable pub first_workqueue : List (Option ℕ) → Option ℕ
first_workqueue [] = none
first_workqueue (none ∷ rest) = first_workqueue rest
first_workqueue (some a ∷ rest) = some a

-- `w` is the work item that witem_alloc(NULL, NULL) returned.
unfoldable pub worker_stop : Manager → Work → Outcome (Manager × List Effect)
unfolding first_workqueue set_queue_mask insert_tail
worker_stop m w = elim (first_workqueue m.wqlist) [
  | none ↦ aborts
  | some a ↦ do
    q ← or_fault (get_elem? m.heap a)
    mask ← set_queue_mask mask_rounds m.wqlist_mask q.wqlist_index
    ret (record m { wqlist_mask = mask; heap = set m.heap a (insert_tail q w) }, signal_worker ∷ [])
]

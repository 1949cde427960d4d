-- ===== src/Manager/Additem.antt =====
-- src/posix/manager.c: manager_workqueue_additem, and the loop that sets a bit of `wqlist_mask`.
pub mod Laws
use libpwq.Prelude.{
  ℕ, zero, suc, ◌-◌, is_nonzero, List, [], ◌∷◌, ◌++◌, Bool, true, false, not, ◌==◌, ltb,
  if◌then◌else◌, get_elem?, set, is_empty, bit_and, Outcome, ret, waits, ◌>>=◌, or_fault,
}
use libpwq.Word.{index_bit, inc32, set_bit}
use libpwq.Workqueue.{Work, Workqueue}
use libpwq.Manager.{Manager, Effect, signal_worker, signal_overcommit, create_overcommit}

-- STAILQ_INSERT_TAIL(&workq->item_listhead, witem, item_entry)
unfoldable pub insert_tail : Workqueue → Work → Workqueue
insert_tail q w = record q { item_listhead = q.item_listhead ++ w ∷ [] }

-- `new_mask & wqlist_index_bit`, as a condition
abbrev pub has_bit : ℕ → ℕ → Bool
has_bit mask i = not (bit_and mask (index_bit i) == 0)

-- `do atomic_or … while (!(new_mask & bit))`: the rounds that the loop may take, and the mask that
-- it leaves. With no round left it is still looping.
unfoldable pub set_queue_mask : ℕ → ℕ → ℕ → Outcome ℕ
set_queue_mask zero mask i = waits
set_queue_mask (suc rounds) mask i = elim (has_bit (set_bit mask i) i) [
  | true ↦ ret (set_bit mask i)
  | false ↦ set_queue_mask rounds (set_bit mask i) i
]

-- The rounds given to the two loops on `wqlist_mask`.
abbrev pub mask_rounds : ℕ
mask_rounds = 1

-- The section under the queue's spin lock, for a queue with no overcommit.
unfoldable pub enqueue : Manager → ℕ → Workqueue → Work → Outcome Manager
unfolding set_queue_mask insert_tail
enqueue m a q w = do
  mask ←
      if is_empty q.item_listhead
      then set_queue_mask mask_rounds m.wqlist_mask q.wqlist_index
      else ret m.wqlist_mask
  ret (record m { wqlist_mask = mask; heap = set m.heap a (insert_tail q w) })

-- What follows that section: a signal, if some worker is idle.
unfoldable pub wake_worker : Manager → List Effect
wake_worker m = if ltb 0 m.scoreboard.idle then signal_worker ∷ [] else []

-- The section under `ocwq_mtx`, for a queue with overcommit.
unfoldable pub enqueue_overcommit : Manager → ℕ → Workqueue → Work → Manager × List Effect
unfolding insert_tail
enqueue_overcommit m a q w =
    let m' = record m {
      heap = set m.heap a (insert_tail q w);
      ocwq_mask = set_bit m.ocwq_mask q.wqlist_index;
    } in
    if ltb 0 m.ocwq_idle_threads
    then (
      record m' {
        ocwq_idle_threads = m.ocwq_idle_threads - 1;
        ocwq_signal_count = inc32 m.ocwq_signal_count;
      },
      signal_overcommit ∷ [],
    )
    else (m', create_overcommit ∷ [])

unfoldable pub manager_workqueue_additem : Manager → ℕ → Work → Outcome (Manager × List Effect)
unfolding enqueue wake_worker enqueue_overcommit
manager_workqueue_additem m a w = do
  q ← or_fault (get_elem? m.heap a)
  if is_nonzero q.overcommit
      then ret (enqueue_overcommit m a q w)
      else (enqueue m a q w >>= λ m'. ret (m', wake_worker m'))

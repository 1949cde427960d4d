-- ===== src/Manager/Scan.antt =====
-- src/posix/manager.c: reset_queue_mask and wqlist_scan.
pub mod Laws
pub mod Queue
pub mod Priority
pub mod Stale
use libpwq.Prelude.{
  ℕ, ℤ, zero, suc, Option, none, some, List, [], ◌∷◌, Bool, true, false, ◌&&◌, if◌then◌else◌,
  get_elem?, set, is_empty, Outcome, ret, waits, ◌>>=◌, or_fault,
}
use libpwq.Word.{clear_bit, ffs}
use libpwq.Workqueue.{Work, Workqueue, is_null, slot}
use libpwq.Manager.{Manager}
use libpwq.Manager.Additem.{has_bit, mask_rounds}

-- The loop that clears a bit of `wqlist_mask`: the rounds it may take, and the mask it leaves.
unfoldable pub reset_queue_mask : ℕ → ℕ → ℕ → Outcome ℕ
reset_queue_mask zero mask i = waits
reset_queue_mask (suc rounds) mask i = elim (has_bit (clear_bit mask i) i) [
  | true ↦ reset_queue_mask rounds (clear_bit mask i) i
  | false ↦ ret (clear_bit mask i)
]

-- What a scan gives: the manager, and an item with the priority of its queue.
abbrev pub Scanned : Type 0
Scanned = Manager × Option (Work × ℤ)

-- STAILQ_REMOVE_HEAD, and the mask if the queue is empty then.
unfoldable pub remove_head : Manager → ℕ → Workqueue → Work → List Work → Outcome Scanned
unfolding reset_queue_mask
remove_head m a q w rest = do
  mask ←
      if is_empty rest
      then reset_queue_mask mask_rounds m.wqlist_mask q.wqlist_index
      else ret m.wqlist_mask
  ret (
    record m { wqlist_mask = mask; heap = set m.heap a (record q { item_listhead = rest }) },
    some (w, q.queueprio),
  )

-- The section under the spin lock of the queue at address `a`. `skip` is skip_thread_exit_events.
unfoldable pub take_first : Manager → ℕ → Workqueue → Bool → Outcome Scanned
unfolding remove_head
take_first m a q skip = elim q.item_listhead [
  | [] ↦ ret (m, none)
  | w ∷ rest ↦ if skip && is_null w.func then ret (m, none) else remove_head m a q w rest
]

-- The part after `idx = ffs(wqlist_mask)`, for `idx - 1`.
unfoldable pub scan_queue : Manager → ℕ → Bool → Outcome Scanned
unfolding take_first
scan_queue m i skip = do
  a ← or_fault (slot m.wqlist i)
  q ← or_fault (get_elem? m.heap a)
  take_first m a q skip

unfoldable pub wqlist_scan : Manager → Bool → Outcome Scanned
unfolding scan_queue
wqlist_scan m skip = elim (ffs m.wqlist_mask) [ zero ↦ ret (m, none) | suc i ↦ scan_queue m i skip ]

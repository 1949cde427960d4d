-- ===== src/Manager/Overcommit.antt =====
-- src/posix/manager.c: overcommit_worker_main, cut at the points where it gives up `ocwq_mtx`.
pub mod Laws
pub mod Accounts
use libpwq.Prelude.{
  zero, suc, ◌+◌, ◌-◌, Option, none, some, [], ◌∷◌, ◌==◌, ltb, if◌then◌else◌, get_elem?, set,
  is_empty, Outcome, ret, aborts, ◌>>=◌, or_fault,
}
use libpwq.Word.{inc32, dec32, clear_bit, ffs}
use libpwq.Workqueue.{Work, slot}
use libpwq.Manager.{Manager}

-- The head of the loop: an item to run with the mutex released, or `none` to wait.
unfoldable pub take_overcommit : Manager → Outcome (Manager × Option Work)
take_overcommit m = elim (ffs m.ocwq_mask) [
  | zero ↦ ret (m, none)
  | suc i ↦ do
    a ← or_fault (slot m.ocwq i)
    q ← or_fault (get_elem? m.heap a)
    elim q.item_listhead [
      | [] ↦ ret (m, none)
      | w ∷ rest ↦ ret (
        record m {
          heap = set m.heap a (record q { item_listhead = rest });
          ocwq_mask = if is_empty rest then clear_bit m.ocwq_mask q.wqlist_index else m.ocwq_mask;
        },
        some w,
      )
    ]
]

-- Before pthread_cond_timedwait.
unfoldable pub begin_wait : Manager → Manager
begin_wait m = record m { ocwq_idle_threads = inc32 m.ocwq_idle_threads }

-- What pthread_cond_timedwait returns: 0, ETIMEDOUT, or another error.
pub data Wait : Type 0 where
  woken timed_out failed : Wait

-- What the thread does after the wait: another round of the loop, or it exits.
pub data Next : Type 0 where
  again exits : Next

unfoldable pub end_wait : Manager → Wait → Outcome (Manager × Next)
end_wait m r =
    if ltb 0 m.ocwq_signal_count
    then ret (record m { ocwq_signal_count = m.ocwq_signal_count - 1 }, again)
    else elim r [
      | failed ↦ aborts
      | _ ↦ ret (record m { ocwq_idle_threads = dec32 m.ocwq_idle_threads }, exits)
    ]

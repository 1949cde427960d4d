-- ===== src/Attr.antt =====
-- src/api.c: the attributes of a workqueue. A call that stores through its pointer argument returns
-- the value that it stores, and one that changes the attributes returns the new ones.
pub mod Laws
use libpwq.Prelude.{ℕ, ℤ, pos, negsuc, Option, none, some, Bool, false, ◌==◌, ◌||◌, if◌then◌else◌}
use libpwq.Workqueue.{
  workqueue_attr_sig, high_prioqueue, default_prioqueue, low_prioqueue, bg_prioqueue,
  bg_prioqueue_conditional, high_prioqueue_conditional,
}

-- The results of the calls: 0, EINVAL and ENOMEM.
pub data Status : Type 0 where
  ok einval enomem : Status

-- `pthread_workqueue_attr_t`
pub record Attr : Type 0 where
  pub sig : ℕ
  pub queueprio : ℤ
  pub overcommit : ℤ

abbrev has_sig : Attr → Bool
has_sig attr = attr.sig == workqueue_attr_sig

unfoldable pub attr_init : Attr → Attr × Status
attr_init attr =
    (record { sig = workqueue_attr_sig; queueprio = pos default_prioqueue; overcommit = pos 0 }, ok)

unfoldable pub attr_destroy : Attr → Status
attr_destroy attr = if has_sig attr then ok else einval

unfoldable pub attr_getovercommit : Attr → Status × Option ℤ
attr_getovercommit attr = if has_sig attr then (ok, some attr.overcommit) else (einval, none)

unfoldable pub attr_setovercommit : Attr → ℤ → Attr × Status
attr_setovercommit attr ocomm =
    if has_sig attr then (record attr { overcommit = ocomm }, ok) else (attr, einval)

unfoldable pub attr_getqueuepriority : Attr → Status × Option ℤ
attr_getqueuepriority attr = if has_sig attr then (ok, some attr.queueprio) else (einval, none)

-- The cases of the switch in pthread_workqueue_attr_setqueuepriority_np.
unfoldable pub is_queue_priority : ℤ → Bool
is_queue_priority (negsuc n) = false
is_queue_priority (pos n) =
    n == high_prioqueue
    || (n == default_prioqueue
        || (n == low_prioqueue
            || (n == bg_prioqueue
                || (n == bg_prioqueue_conditional || n == high_prioqueue_conditional))))

unfoldable pub attr_setqueuepriority : Attr → ℤ → Attr × Status
unfolding is_queue_priority
attr_setqueuepriority attr qprio =
    if has_sig attr
    then (if is_queue_priority qprio
        then (record attr { queueprio = qprio }, ok)
        else (attr, einval))
    else (attr, einval)

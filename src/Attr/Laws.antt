-- ===== src/Attr/Laws.antt =====
-- Setting, getting, and what a client can reach with the attribute calls.
use libpwq.Prelude.{
  ℤ, ◌≡◌, ◌≢◌, none, some, List, [], ◌∷◌, false, is_negative, at_least, arith, if◌then◌else◌,
}
use libpwq.Workqueue.{workqueue_attr_sig, num_prioqueue}
use libpwq.Attr.{
  Attr, ok, einval, attr_init, attr_destroy, attr_getovercommit, attr_setovercommit,
  attr_getqueuepriority, attr_setqueuepriority, is_queue_priority,
}

-- The calls that change attributes.
pub data Call : Type 0 where
  init : Call
  set_overcommit : ℤ → Call
  set_queue_priority : ℤ → Call

unfoldable pub run_call : Attr → Call → Attr
unfolding attr_init attr_setovercommit attr_setqueuepriority
run_call attr init = (attr_init attr).0
run_call attr (set_overcommit z) = (attr_setovercommit attr z).0
run_call attr (set_queue_priority z) = (attr_setqueuepriority attr z).0

unfoldable pub run_calls : Attr → List Call → Attr
unfolding run_call
run_calls attr [] = attr
run_calls attr (c ∷ rest) = run_calls (run_call attr c) rest

-- What pthread_workqueue_create_np wants of attributes.
pub record IsUsable (attr : Attr) : Type 0 where
  pub signed : attr.sig ≡ workqueue_attr_sig
  pub not_negative : is_negative attr.queueprio ≡ false
  pub in_range : at_least attr.queueprio num_prioqueue ≡ false

-- On attributes with the signature a setter succeeds for any overcommit value and for the six
-- priorities, the getters then return what was set, and the other attribute is as before.
pub attr_set_get :
    (attr : Attr) (ocomm qprio : ℤ)
    → attr.sig ≡ workqueue_attr_sig
    → (attr_getovercommit (attr_setovercommit attr ocomm).0 ≡ (ok, some ocomm))
      × (attr_getqueuepriority (attr_setovercommit attr ocomm).0 ≡ (ok, some attr.queueprio))
      × (attr_getqueuepriority (attr_setqueuepriority attr qprio).0
          ≡ (ok, some (if is_queue_priority qprio then qprio else attr.queueprio)))
      × ((attr_setqueuepriority attr qprio).1 ≡ (if is_queue_priority qprio then ok else einval))
      × (attr_getovercommit (attr_setqueuepriority attr qprio).0 ≡ (ok, some attr.overcommit))
unfolding attr_getovercommit attr_setovercommit attr_getqueuepriority attr_setqueuepriority
attr_set_get attr ocomm qprio s = ground arith

-- Without the signature every call but attr_init returns EINVAL, stores nothing and changes
-- nothing.
pub attr_unsigned :
    (attr : Attr) (z : ℤ)
    → attr.sig ≢ workqueue_attr_sig
    → (attr_destroy attr ≡ einval)
      × (attr_getovercommit attr ≡ (einval, none))
      × (attr_getqueuepriority attr ≡ (einval, none))
      × (attr_setovercommit attr z ≡ (attr, einval))
      × (attr_setqueuepriority attr z ≡ (attr, einval))
unfolding attr_destroy attr_getovercommit attr_setovercommit attr_getqueuepriority
    attr_setqueuepriority
attr_unsigned attr z s = ground arith

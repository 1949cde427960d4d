-- ===== src/Workqueue.antt =====
-- src/private.h and include/pthread_workqueue.h: work items, workqueues and the limits on them.
-- A pointer is an address, and NULL is `none`. The tail queue of a workqueue (sys/queue.h of the C
-- library) is the list of its items, first item first; the spin lock of a workqueue is not a field,
-- since each section that holds it is one step of the model.
use libpwq.Prelude.{ℕ, ℤ, Option, none, some, List, [], Bool, true, false, get_elem?}

-- `struct work`; `handle` is its address.
pub record Work : Type 0 where
  pub handle : ℕ
  pub func : Option ℕ
  pub func_arg : ℕ
  pub flags : ℕ
  pub gencount : ℕ

-- `struct _pthread_workqueue`
pub record Workqueue : Type 0 where
  pub sig : ℕ
  pub flags : ℕ
  pub queueprio : ℤ
  pub overcommit : ℤ
  pub wqlist_index : ℕ
  pub item_listhead : List Work

-- PTHREAD_WORKQUEUE_MAX
abbrev pub workqueue_max : ℕ
workqueue_max = 31

-- WORKQ_NUM_PRIOQUEUE
abbrev pub num_prioqueue : ℕ
num_prioqueue = 6

-- PTHREAD_WORKQUEUE_SIG
abbrev pub workqueue_sig : ℕ
workqueue_sig = 0xbebebebe

-- PTHREAD_WORKQUEUE_ATTR_SIG
abbrev pub workqueue_attr_sig : ℕ
workqueue_attr_sig = 0xbebebebe

-- The WORKQ_*_PRIOQUEUE constants.
abbrev pub high_prioqueue : ℕ
high_prioqueue = 0

abbrev pub default_prioqueue : ℕ
default_prioqueue = 1

abbrev pub low_prioqueue : ℕ
low_prioqueue = 2

abbrev pub bg_prioqueue : ℕ
bg_prioqueue = 3

abbrev pub bg_prioqueue_conditional : ℕ
bg_prioqueue_conditional = 4

abbrev pub high_prioqueue_conditional : ℕ
high_prioqueue_conditional = 5

-- Is the function pointer of a work item NULL? Such an item asks a worker to exit.
abbrev pub is_null : Option ℕ → Bool
is_null none = true
is_null (some f) = false

-- The entry of a table of workqueues, NULL where nothing was stored.
abbrev pub slot : List (Option ℕ) → ℕ → Option ℕ
slot table i = elim (get_elem? table i) [ none ↦ none | some entry ↦ entry ]

-- What a pointer to a workqueue leads to.
abbrev pub deref : List Workqueue → Option ℕ → Option Workqueue
deref heap none = none
deref heap (some a) = get_elem? heap a

abbrev pub items_of : Option Workqueue → List Work
items_of none = []
items_of (some q) = q.item_listhead

-- ===== src/Api.antt =====
-- src/api.c: the calls on workqueues. A pointer argument that may be NULL is an option, and what a
-- call stores through a pointer is part of its result.
pub mod Additem
pub mod Create
pub mod Init
use libpwq.Prelude.{
  ℕ, pos, is_negative, at_least, Option, none, some, List, [], ◌∷◌, ◌++◌, Bool, false, not, ◌&&◌,
  ◌||◌, ◌==◌, if◌then◌else◌, length, get_elem?, Outcome, ret, ◌>>=◌, or_fault,
}
use libpwq.Workqueue.{
  Workqueue, num_prioqueue, workqueue_sig, workqueue_attr_sig, default_prioqueue, is_null,
}
use libpwq.Attr.{Attr, Status, ok, einval, enomem}
use libpwq.Witem.{witem_alloc}
use libpwq.Manager.{Manager, Effect}
use libpwq.Manager.Create.{Spawn, manager_workqueue_create}
use libpwq.Manager.Additem.{manager_workqueue_additem}

unfoldable pub valid_workq : Workqueue → Bool
valid_workq q = q.sig == workqueue_sig

-- The test of pthread_workqueue_create_np on `attr`: true if the call refuses it.
unfoldable pub refuses : Option Attr → Bool
refuses none = false
refuses (some attr) =
    not (attr.sig == workqueue_attr_sig)
    || (is_negative attr.queueprio || at_least attr.queueprio num_prioqueue)

-- The workqueue that calloc and the assignments after it make.
unfoldable pub new_workqueue : Option Attr → Workqueue
new_workqueue none = record {
  sig = workqueue_sig;
  flags = 0;
  queueprio = pos default_prioqueue;
  overcommit = pos 0;
  wqlist_index = 0;
  item_listhead = [];
}
new_workqueue (some attr) = record {
  sig = workqueue_sig;
  flags = 0;
  queueprio = attr.queueprio;
  overcommit = attr.overcommit;
  wqlist_index = 0;
  item_listhead = [];
}

-- What a call returns, with the handle that it stores through its pointer argument.
pub record Created : Type 0 where
  pub manager : Manager
  pub status : Status
  pub workq : Option ℕ

-- `memory` says whether calloc succeeds, and `spawns` what pthread_create returns.
unfoldable pub pthread_workqueue_create_np :
    Bool → List Spawn → Manager → Option Attr → Outcome Created
unfolding refuses new_workqueue
pthread_workqueue_create_np memory spawns m attr =
    if refuses attr
    then ret (record { manager = m; status = einval; workq = none })
    else if not memory
    then ret (record { manager = m; status = enomem; workq = none })
    else (do
      let a = length m.heap
      m' ← manager_workqueue_create spawns (record m { heap = m.heap ++ new_workqueue attr ∷ [] }) a
      ret (record { manager = m'; status = ok; workq = some a }))

pub record Added : Type 0 where
  pub manager : Manager
  pub effects : List Effect
  pub status : Status
  pub itemhandle : Option ℕ
  pub gencount : Option ℕ

-- `mallocs` are the results of malloc; the flags say whether `itemhandlep` and `gencountp` are
-- given.
unfoldable pub pthread_workqueue_additem_np :
    List (Option ℕ) → Manager → ℕ → Option ℕ → ℕ → Bool → Bool → Outcome Added
unfolding valid_workq
pthread_workqueue_additem_np mallocs m a func func_arg handlep gencountp = do
  q ← or_fault (get_elem? m.heap a)
  if not (valid_workq q) || is_null func
      then ret (record {
        manager = m;
        effects = [];
        status = einval;
        itemhandle = none;
        gencount = none;
      })
      else (do
        w ← witem_alloc mallocs func func_arg
        (m', effects) ← manager_workqueue_additem m a w
        ret (record {
          manager = m';
          effects = effects;
          status = ok;
          itemhandle = if handlep then some w.handle else none;
          gencount = if gencountp then some w.gencount else none;
        }))

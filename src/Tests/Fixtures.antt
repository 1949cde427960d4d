-- ===== src/Tests/Fixtures.antt =====
-- The states that the tests start from: after initialisation, with a workqueue, with items.
use libpwq.Prelude.{
  pos, ◌≡◌, refl, sym, ap, ◌∙◌, Option, none, some, List, [], ◌∷◌, true, false, set, Outcome, ret,
  aborts, waits, faults, subst,
}
use libpwq.Word.{set_bit}
use libpwq.Workqueue.{Work, Workqueue, workqueue_sig, workqueue_attr_sig, slot}
use libpwq.Manager.{Manager, Effect, create_overcommit}
use libpwq.Manager.Invariant.{Inv, table_of}
use libpwq.Manager.Init.{Surroundings, manager_init, unset, empty_table}
use libpwq.Manager.Init.Laws.{manager_init-Inv}
use libpwq.Manager.Create.{Spawn, created, manager_workqueue_create}
use libpwq.Manager.Additem.{manager_workqueue_additem}
use libpwq.Manager.Additem.Laws.{additem_normal, additem_overcommit}
use libpwq.Attr.{Attr, ok}
use libpwq.Api.{Created, refuses, new_workqueue, pthread_workqueue_create_np}
use libpwq.Api.Create.{prio_of, create_ok}

abbrev pub four_cpus : Surroundings
four_cpus = record {
  active_cpu = 0;
  entitled_cpus = 4;
  sem_init = true;
  atfork = true;
  wmin = none;
}

-- After manager_init on four processors.
abbrev pub fresh : Manager
fresh = record unset { cpu_count = 4; worker_min = 4; worker_idle_threshold = 2 }

fresh_runs : manager_init four_cpus unset ≡ (fresh, true)
unfolding manager_init
fresh_runs = refl

pub fresh-Inv : Inv fresh
fresh-Inv = subst (λ r. Inv (r.0)) fresh_runs (manager_init-Inv four_cpus)

abbrev pub plain_queue : Workqueue
plain_queue = record {
  sig = workqueue_sig;
  flags = 0;
  queueprio = pos 1;
  overcommit = pos 0;
  wqlist_index = 1;
  item_listhead = [];
}

-- With a workqueue of default attributes.
abbrev pub one_queue : Manager
one_queue = record fresh {
  wqlist_has_manager = 1;
  heap = plain_queue ∷ [];
  wqlist = set empty_table 1 (some 0);
}

abbrev pub start_now : List Spawn
start_now = created ∷ []

pub one_queue_runs :
    pthread_workqueue_create_np true start_now fresh none
    ≡ ret (record { manager = one_queue; status = ok; workq = some 0 })
unfolding pthread_workqueue_create_np manager_workqueue_create
one_queue_runs = refl

-- Attributes for an overcommit queue of low priority.
abbrev pub over_attr : Attr
over_attr = record { sig = workqueue_attr_sig; queueprio = pos 2; overcommit = pos 1 }

-- With that queue beside it.
abbrev pub two_queues : Manager
two_queues = record one_queue {
  heap =
      plain_queue
      ∷ record plain_queue { queueprio = pos 2; overcommit = pos 1; wqlist_index = 2 }
      ∷ [];
  ocwq = set empty_table 2 (some 1);
}

two_queues_runs :
    pthread_workqueue_create_np true start_now one_queue (some over_attr)
    ≡ ret (record { manager = two_queues; status = ok; workq = some 1 })
unfolding pthread_workqueue_create_np manager_workqueue_create
two_queues_runs = refl

-- What a call that succeeds leaves is well formed.
created-Inv :
    (m : Manager) (attr : Option Attr) (c : Created)
    → Inv m
    → refuses attr ≡ false
    → slot (table_of m (new_workqueue attr)) (prio_of attr) ≡ none
    → pthread_workqueue_create_np true start_now m attr ≡ ret c
    → Inv c.manager
created-Inv m attr c v accepted vacant call =
    let (m', a, call', made) = create_ok v attr start_now accepted tt vacant in
    let same : m' ≡ c.manager = ap manager_of (sym call' ∙ call) in subst Inv same made.valid
  where
    manager_of : Outcome Created → Manager
    manager_of (ret d) = d.manager
    manager_of aborts = m
    manager_of waits = m
    manager_of faults = m

pub one_queue-Inv : Inv one_queue
unfolding refuses new_workqueue
one_queue-Inv = created-Inv fresh none _ fresh-Inv refl refl one_queue_runs

pub two_queues-Inv : Inv two_queues
unfolding refuses new_workqueue
two_queues-Inv = created-Inv one_queue (some over_attr) _ one_queue-Inv refl refl two_queues_runs

-- Two items: at address 64 with the function 7 and the argument 8, and at 128 with 9 and 1.
abbrev pub work_64 : Work
work_64 = record { handle = 64; func = some 7; func_arg = 8; flags = 0; gencount = 0 }

abbrev pub work_128 : Work
work_128 = record { handle = 128; func = some 9; func_arg = 1; flags = 0; gencount = 0 }

abbrev pub over_queue : Workqueue
over_queue = record plain_queue { queueprio = pos 2; overcommit = pos 1; wqlist_index = 2 }

-- With the first item in the default queue.
abbrev pub one_item : Manager
one_item = record two_queues {
  heap = record plain_queue { item_listhead = work_64 ∷ [] } ∷ over_queue ∷ [];
  wqlist_mask = 2;
}

-- And the second one in the overcommit queue.
abbrev pub loaded : Manager
loaded = record one_item {
  heap =
      record plain_queue { item_listhead = work_64 ∷ [] }
      ∷ record over_queue { item_listhead = work_128 ∷ [] }
      ∷ [];
  ocwq_mask = 4;
}

-- With five workers, four of them idle.
abbrev pub staffed : Manager
staffed = record loaded {
  scoreboard = record {
    runqueue_length = 1;
    count = 5;
    about_to_wait = 0;
    idle = 4;
    sb_sem = 0;
    sb_suspend = 0;
  };
}

one_item_runs : manager_workqueue_additem two_queues 0 work_64 ≡ ret (one_item, [])
unfolding manager_workqueue_additem set_bit
one_item_runs = refl

loaded_runs : manager_workqueue_additem one_item 1 work_128 ≡ ret (loaded, create_overcommit ∷ [])
unfolding manager_workqueue_additem set_bit
loaded_runs = refl

manager_in : Outcome (Manager × List Effect) → Manager → Manager
manager_in (ret (m, _)) _ = m
manager_in aborts m = m
manager_in waits m = m
manager_in faults m = m

pub loaded-Inv : Inv loaded
unfolding manager_in
loaded-Inv =
    let (m1, call1, v1, _, _) = additem_normal two_queues-Inv 0 plain_queue work_64 refl refl in
    let same1 : m1 ≡ one_item = ap (λ r. manager_in r m1) (sym call1 ∙ one_item_runs) in
    let (m2, _, call2, v2, _, _, _) =
      additem_overcommit (subst Inv same1 v1) 1 over_queue work_128 refl refl in
    let same2 : m2 ≡ loaded = ap (λ r. manager_in r m2) (sym call2 ∙ loaded_runs) in
    subst Inv same2 v2

pub staffed-Inv : Inv staffed
staffed-Inv = record {
  normal = loaded-Inv.normal;
  over = loaded-Inv.over;
  registered = loaded-Inv.registered;
}

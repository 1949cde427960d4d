-- ===== src/Tests/Calls.antt =====
-- The calls of api.c at concrete inputs.
use libpwq.Prelude.{
  ℕ, pos, ◌≡◌, refl, some, none, [], ◌∷◌, true, false, ret, aborts, waits, if◌then◌else◌,
}
use libpwq.Workqueue.{Workqueue}
use libpwq.Manager.{Manager}
use libpwq.Manager.Create.{created, eagain}
use libpwq.Attr.{Attr, ok}
use libpwq.Witem.{new_witem}
use libpwq.Api.{
  Added, refuses, new_workqueue, pthread_workqueue_create_np, pthread_workqueue_additem_np,
}
use libpwq.Api.Create.{IsCreated, create_ok, create_twice}
use libpwq.Api.Additem.{IsAdded, first_block, additem_ok, additem_waits}
use libpwq.Api.Init.{Environment, Settings, pthread_workqueue_init_np, init_np_idempotent}
use libpwq.Manager.Invariant.{Inv}
use libpwq.Manager.Init.{unset}
use libpwq.Tests.Fixtures.{
  four_cpus, fresh, fresh-Inv, one_queue, one_queue-Inv, one_queue_runs, over_attr, start_now,
  plain_queue, work_64, loaded, loaded-Inv,
}

abbrev full_plain : Workqueue
full_plain = record plain_queue { item_listhead = work_64 ∷ [] }

create_ok_example :
    (m' : Manager) × (a : ℕ) × (pthread_workqueue_create_np true start_now one_queue
        (some over_attr)
      ≡ ret (record { manager = m'; status = ok; workq = some a }))
    × IsCreated (some over_attr) one_queue m' a
unfolding refuses new_workqueue
create_ok_example = create_ok one_queue-Inv (some over_attr) start_now refl tt refl

create_twice_example :
    pthread_workqueue_create_np true (eagain ∷ created ∷ []) one_queue none ≡ aborts
unfolding refuses
create_twice_example =
    create_twice fresh none start_now (eagain ∷ created ∷ []) _ fresh-Inv refl tt tt one_queue_runs

additem_ok_example :
    (c : Added) × (pthread_workqueue_additem_np
        (none ∷ some 192 ∷ [])
        loaded
        0
        (some 5)
        6
        true
        false
      ≡ ret c)
    × (c.status ≡ ok)
    × (c.itemhandle ≡ some 192)
    × (c.gencount ≡ none)
    × IsAdded loaded c.manager full_plain (new_witem 192 (some 5) 6)
unfolding first_block
additem_ok_example =
    additem_ok (none ∷ some 192 ∷ []) loaded 0 full_plain true false refl 5 6 192 loaded-Inv refl
      refl

additem_waits_example :
    pthread_workqueue_additem_np (none ∷ none ∷ []) loaded 0 (some 5) 6 true true ≡ waits
unfolding first_block
additem_waits_example =
    additem_waits (none ∷ none ∷ []) loaded 0 full_plain true true refl 5 6 refl refl

-- Attributes with a priority that no queue has.
abbrev bad_attr : Attr
bad_attr = record over_attr { queueprio = pos 6 }

-- Attributes that were never initialised.
abbrev raw_attr : Attr
raw_attr = record over_attr { sig = 0 }

-- No variable is set but PWQ_ACTIVE_CPU.
abbrev environment : Environment
environment = record {
  pwq_debug = false;
  pwq_rt_threads = false;
  pwq_active_cpu = some 8;
  pwq_spin_threads = none;
}

abbrev settings : Settings
settings = record {
  initialized = false;
  debug = false;
  rt_threads = false;
  active_cpu = 0;
  spin_threads = 0;
}

init_np_idempotent_example :
    let (s', m', done) = pthread_workqueue_init_np true environment four_cpus settings unset in
    Inv m'
    × (s'.initialized ≡ done)
    × (if done
        then pthread_workqueue_init_np false environment four_cpus s' m' ≡ (s', m', true)
        else s'.initialized ≡ false)
init_np_idempotent_example =
    init_np_idempotent true false environment environment four_cpus four_cpus settings refl

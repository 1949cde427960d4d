-- ===== src/Crew.antt =====
-- The overcommit threads of src/posix/manager.c at work together (overcommit_worker_main), with the
-- clients that add items to overcommit queues. A step is one section under `ocwq_mtx`, which
-- pthread_cond_timedwait gives up; the sections of the plain queues come in between.
pub mod Weights
pub mod Adding
pub mod Invariant
pub mod Turns
pub mod Safety
pub mod Drain
pub mod Refine
use libpwq.Prelude.{
  ℕ, ℤ, ◌+◌, ◌<◌, ◌≡◌, ◌≢◌, Option, none, some, List, [], ◌∷◌, Bool, true, false, is_nonzero,
  get_elem?, update, Outcome, ret, ◌>>=◌,
}
use libpwq.Workqueue.{Work, Workqueue, slot}
use libpwq.Attr.{Attr}
use libpwq.Api.{Created, refuses, pthread_workqueue_create_np}
use libpwq.Manager.{Manager, signal_overcommit, create_overcommit}
use libpwq.Manager.Create.{Spawn}
use libpwq.Manager.Create.Start.{CanStart}
use libpwq.Manager.Additem.{enqueue, enqueue_overcommit}
use libpwq.Manager.Scan.{scan_queue}
use libpwq.Manager.Overcommit.{take_overcommit, begin_wait, Wait, again, exits, end_wait}

-- Where an overcommit thread stands.
pub data Place : Type 0 where
  absent : Place  -- there is no such thread: not yet created, or it has exited
  looking : Place  -- before pthread_mutex_lock: created, or its function has returned
  busy : Work → Place  -- in the work function, with the mutex released
  waiting : Place  -- in pthread_cond_timedwait
  roused : Place  -- unblocked there by a pthread_cond_signal, before it has the mutex again

-- From the head of the loop to the place where the thread gives up the mutex.
unfoldable pub look : Manager → Outcome (Manager × Place)
unfolding take_overcommit begin_wait
look m = do
  (m', found) ← take_overcommit m
  elim found [ some w ↦ ret (m', busy w) | none ↦ ret (begin_wait m', waiting) ]

-- From the return of pthread_cond_timedwait on.
unfoldable pub wake_up : Manager → Wait → Outcome (Manager × Place)
unfolding look end_wait
wake_up m r = do (m', next) ← end_wait m r; elim next [ again ↦ look m' | exits ↦ ret (m', absent) ]

-- `failed` counts the calls of pthread_create that failed; `added` and `done` are the items that were
-- put in an overcommit queue and those whose function has returned.
pub record Crew : Type 0 where
  pub manager : Manager
  pub place : ℕ → Place
  pub failed : ℕ
  pub added : List Work
  pub done : List Work

-- `n` bounds the indices of the threads. pthread_cond_signal unblocks a thread that waits, if there is
-- one; a thread may also wake by itself, at its timeout or spuriously.
pub data Step (n : ℕ) (c : Crew) : Crew → Type 0 where
  looks :
      (i : ℕ) {m' : Manager} {p' : Place}
      → i < n
      → c.place i ≡ looking
      → look c.manager ≡ ret (m', p')
      → Step n c (record c { manager = m'; place = update c.place i p' })
  wakes :
      (i : ℕ) (r : Wait) {m' : Manager} {p' : Place}
      → i < n
      → c.place i ≡ roused
      → wake_up c.manager r ≡ ret (m', p')
      → Step n c (record c { manager = m'; place = update c.place i p' })
  wakes_alone :
      (i : ℕ) (r : Wait) {m' : Manager} {p' : Place}
      → i < n
      → c.place i ≡ waiting
      → wake_up c.manager r ≡ ret (m', p')
      → Step n c (record c { manager = m'; place = update c.place i p' })
  returns :
      (i : ℕ) (w : Work)
      → i < n
      → c.place i ≡ busy w
      → Step n c (record c { place = update c.place i looking; done = w ∷ c.done })
  adds :
      (a i : ℕ) (q : Workqueue) (w : Work)
      → get_elem? c.manager.heap a ≡ some q
      → is_nonzero q.overcommit ≡ true
      → (enqueue_overcommit c.manager a q w).1 ≡ signal_overcommit ∷ []
      → i < n
      → c.place i ≡ waiting
      → Step n c (record c {
        manager = (enqueue_overcommit c.manager a q w).0;
        place = update c.place i roused;
        added = w ∷ c.added;
      })
  adds_unheard :
      (a : ℕ) (q : Workqueue) (w : Work)
      → get_elem? c.manager.heap a ≡ some q
      → is_nonzero q.overcommit ≡ true
      → (enqueue_overcommit c.manager a q w).1 ≡ signal_overcommit ∷ []
      → ((i : ℕ) → i < n → c.place i ≢ waiting)
      → Step n c
          (record c { manager = (enqueue_overcommit c.manager a q w).0; added = w ∷ c.added })
  adds_silently :
      (a : ℕ) (q : Workqueue) (w : Work)
      → get_elem? c.manager.heap a ≡ some q
      → is_nonzero q.overcommit ≡ true
      → (enqueue_overcommit c.manager a q w).1 ≡ []
      → Step n c
          (record c { manager = (enqueue_overcommit c.manager a q w).0; added = w ∷ c.added })
  adds_thread :
      (a i : ℕ) (q : Workqueue) (w : Work)
      → get_elem? c.manager.heap a ≡ some q
      → is_nonzero q.overcommit ≡ true
      → (enqueue_overcommit c.manager a q w).1 ≡ create_overcommit ∷ []
      → i < n
      → c.place i ≡ absent
      → Step n c (record c {
        manager = (enqueue_overcommit c.manager a q w).0;
        place = update c.place i looking;
        added = w ∷ c.added;
      })
  adds_alone :
      (a : ℕ) (q : Workqueue) (w : Work)
      → get_elem? c.manager.heap a ≡ some q
      → is_nonzero q.overcommit ≡ true
      → (enqueue_overcommit c.manager a q w).1 ≡ create_overcommit ∷ []
      → Step n c (record c {
        manager = (enqueue_overcommit c.manager a q w).0;
        failed = c.failed + 1;
        added = w ∷ c.added;
      })
  creates :
      (attr : Option Attr) (spawns : List Spawn) {d : Created}
      → refuses attr ≡ false
      → CanStart spawns
      → pthread_workqueue_create_np true spawns c.manager attr ≡ ret d
      → Step n c (record c { manager = d.manager })
  adds_plain :
      (a : ℕ) (q : Workqueue) (w : Work) {m' : Manager}
      → get_elem? c.manager.heap a ≡ some q
      → is_nonzero q.overcommit ≡ false
      → enqueue c.manager a q w ≡ ret m'
      → Step n c (record c { manager = m' })
  takes_plain :
      (i a : ℕ) (skip : Bool) (x : Option (Work × ℤ)) {m' : Manager}
      → slot c.manager.wqlist i ≡ some a
      → scan_queue c.manager i skip ≡ ret (m', x)
      → Step n c (record c { manager = m' })

-- The states that can be reached from one in which there are no overcommit threads and items.
pub data Reach (n : ℕ) (m0 : Manager) : Crew → Type 0 where
  start :
      Reach n m0 (record { manager = m0; place = λ i. absent; failed = 0; added = []; done = [] })
  later : {c d : Crew} → Reach n m0 c → Step n c d → Reach n m0 d

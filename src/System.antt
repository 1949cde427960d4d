-- ===== src/System.antt =====
-- The threads of src/posix/manager.c at work together: workers (worker_main), clients that create
-- workqueues and add items, and the starting and stopping of workers by the manager thread,
-- interleaved in any order. One step of a thread is one shared access or one section under a lock.
-- `wqlist_mtx` is held by the worker whose place says so; a section of another thread under it is one
-- step, while it is free.
pub mod Tally
pub mod Counters
pub mod Items
pub mod Outside
pub mod Invariant
pub mod Preserved
pub mod Safety
pub mod Refine
pub mod Wakeup
pub mod Attention
pub mod Progress
pub mod Drain
pub mod Rounds
pub mod Empty
pub mod Serve
pub mod Mutex
pub mod Keen
pub mod Course
use libpwq.Prelude.{
  ℕ, ℤ, suc, ◌+◌, ◌<◌, ◌≡◌, Option, none, some, List, [], ◌∷◌, ◌++◌, Bool, true, false, ◌==◌,
  is_nonzero, get_elem?, length, update, sum_over, ret,
}
use libpwq.Word.{ffs}
use libpwq.Workqueue.{Work, Workqueue, is_null}
use libpwq.Manager.{Manager, Effect}
use libpwq.Manager.Additem.{enqueue, wake_worker, enqueue_overcommit}
use libpwq.Manager.Scan.{scan_queue}
use libpwq.Manager.Pool.{
  worker_start, worker_started, worker_begins, worker_ends, force_wakeup, accept_item, worker_stop,
}
use libpwq.Attr.{Attr}
use libpwq.Manager.Create.{Spawn}
use libpwq.Manager.Create.Start.{CanStart}
use libpwq.Api.{Created, refuses, pthread_workqueue_create_np}
use libpwq.Manager.Overcommit.{take_overcommit}

-- The three calls of wqlist_scan: in worker_main, in wqlist_scan_spin and in wqlist_scan_wait.
pub data Call : Type 0 where
  first spin wait : Call

-- `skip_thread_exit_events`
abbrev pub skips : Call → Bool
skips first = true
skips spin = true
skips wait = false

-- Where a worker stands, with the local variables that are live there.
pub data Pc : Type 0 where
  absent : Pc  -- there is no such thread: not yet created, or it has exited
  created : Pc  -- before the first statement of worker_main
  scanning : Call → Pc  -- before `ffs(wqlist_mask)`
  picked : Call → ℕ → Pc  -- with the result of ffs
  missed : Call → Pc  -- wqlist_scan returned NULL
  got : Call → Work → Pc  -- wqlist_scan returned an item
  blocked : Pc  -- waits for `wqlist_mtx`: at its lock, or on the return of pthread_cond_wait
  asleep : Pc  -- in pthread_cond_wait
  ready : Work → Pc  -- before `atomic_dec(&scoreboard.idle)`
  running : Work → Pc  -- in the work function

-- One step of one worker on the manager; `free` says whether `wqlist_mtx` is free. Whether a worker
-- spins, and how often, is left open.
pub data Move (m : Manager) (free : Bool) : Pc → Manager → Pc → Type 0 where
  begins : Move m free created (worker_started m) (scanning first)
  reads : {c : Call} → Move m free (scanning c) m (picked c (ffs m.wqlist_mask))
  no_bit : {c : Call} → Move m free (picked c 0) m (missed c)
  no_item :
      {c : Call} {i : ℕ} {m' : Manager}
      → scan_queue m i (skips c) ≡ ret (m', none)
      → Move m free (picked c (suc i)) m' (missed c)
  takes :
      {c : Call} {i : ℕ} {m' : Manager} {w : Work} {prio : ℤ}
      → scan_queue m i (skips c) ≡ ret (m', some (w, prio))
      → Move m free (picked c (suc i)) m' (got c w)
  spins : Move m free (missed first) m (scanning spin)
  spins_on : Move m free (missed spin) m (scanning spin)
  gives_up : Move m free (missed first) m blocked
  locks : free ≡ true → Move m free blocked m (scanning wait)
  sleeps : Move m free (missed wait) m asleep
  wakes_up : Move m free asleep m blocked  -- POSIX allows it at any time
  goes_on : {w : Work} → Move m free (got first w) m (ready w)
  spun : {w : Work} → Move m free (got spin w) (force_wakeup m) (ready w)
  accepts :
      {w : Work} {m' : Manager}
      → accept_item m w ≡ (m', true)
      → Move m free (got wait w) m' (ready w)
  exits :
      {w : Work} {m' : Manager} → accept_item m w ≡ (m', false) → Move m free (got wait w) m' absent
  calls : {w : Work} → Move m free (ready w) (worker_begins m) (running w)
  returns : {w : Work} → Move m free (running w) (worker_ends m) (scanning first)

-- The item that a step frees: its function has returned, or it made the thread exit.
abbrev pub freed : Pc → Pc → List Work
freed (running w) p = w ∷ []
freed (got wait w) absent = w ∷ []
freed _ _ = []

-- Does the worker hold `wqlist_mtx`? The unlock and the test of the item are one step.
abbrev pub holds : Pc → ℕ
holds (scanning wait) = 1
holds (picked wait k) = 1
holds (missed wait) = 1
holds (got wait w) = 1
holds _ = 0

abbrev pub is_asleep : Pc → ℕ
is_asleep asleep = 1
is_asleep _ = 0

-- The state: the threads that add items stand between their section under the lock of the queue and
-- the read of `scoreboard.idle` (`checking`), or before their signal (`signalling`). `failed` counts
-- the calls of pthread_create that failed; `added` and `done` are the items that were put in a queue
-- and those that were freed.
pub record System : Type 0 where
  pub manager : Manager
  pub pc : ℕ → Pc
  pub checking : ℕ
  pub signalling : ℕ
  pub failed : ℕ
  pub added : List Work
  pub done : List Work

-- `n` bounds the indices of the workers.
abbrev pub is_free : ℕ → (ℕ → Pc) → Bool
is_free n pc = sum_over holds n pc == 0

-- pthread_cond_signal(&wqlist_has_work): it wakes one thread that waits, if there is any.
pub data Signalled (n : ℕ) (pc : ℕ → Pc) : (ℕ → Pc) → Type 0 where
  woke : (j : ℕ) → j < n → pc j ≡ asleep → Signalled n pc (update pc j blocked)
  nobody : sum_over is_asleep n pc ≡ 0 → Signalled n pc pc

-- After writes to what the workers do not read in the scoreboard.
abbrev pub retuned : ℕ → ℕ → ℕ → ℕ → Manager → Manager
retuned runqueue about sem suspend m = record m {
  scoreboard = record (m.scoreboard) {
    runqueue_length = runqueue;
    about_to_wait = about;
    sb_sem = sem;
    sb_suspend = suspend;
  };
}

-- `stops` says whether the manager thread may ask workers to exit.
pub data Step (n : ℕ) (stops : Bool) (s : System) : System → Type 0 where
  moves :
      (i : ℕ) {m' : Manager} {p' : Pc}
      → i < n
      → Move s.manager (is_free n s.pc) (s.pc i) m' p'
      → Step n stops s
          (record s { manager = m'; pc = update s.pc i p'; done = freed (s.pc i) p' ++ s.done })
  starts :
      (i : ℕ)
      → i < n
      → s.pc i ≡ absent
      → Step n stops s
          (record s { manager = (worker_start true s.manager).0; pc = update s.pc i created })
  fails :
      Step n stops s
        (record s { manager = (worker_start false s.manager).0; failed = s.failed + 1 })
  stops_one :
      {m' : Manager} {effects : List Effect} {pc' : ℕ → Pc} (w : Work)
      → stops ≡ true
      → is_null w.func ≡ true
      → is_free n s.pc ≡ true
      → worker_stop s.manager w ≡ ret (m', effects)
      → Signalled n s.pc pc'
      → Step n stops s (record s { manager = m'; pc = pc'; added = w ∷ s.added })
  adds :
      (a : ℕ) (q : Workqueue) (w : Work) {m' : Manager}
      → get_elem? s.manager.heap a ≡ some q
      → is_nonzero q.overcommit ≡ false
      → is_null w.func ≡ false
      → enqueue s.manager a q w ≡ ret m'
      → Step n stops s (record s { manager = m'; checking = s.checking + 1; added = w ∷ s.added })
  checks :
      {k : ℕ}
      → s.checking ≡ suc k
      → Step n stops s
          (record s { checking = k; signalling = length (wake_worker s.manager) + s.signalling })
  signals :
      {k : ℕ} {pc' : ℕ → Pc}
      → s.signalling ≡ suc k
      → is_free n s.pc ≡ true
      → Signalled n s.pc pc'
      → Step n stops s (record s { signalling = k; pc = pc' })
  creates :
      (attr : Option Attr) (spawns : List Spawn) {c : Created}
      → refuses attr ≡ false
      → CanStart spawns
      → is_free n s.pc ≡ true
      → pthread_workqueue_create_np true spawns s.manager attr ≡ ret c
      → Step n stops s (record s { manager = c.manager })
  adds_over :
      (a : ℕ) (q : Workqueue) (w : Work)
      → get_elem? s.manager.heap a ≡ some q
      → is_nonzero q.overcommit ≡ true
      → Step n stops s (record s { manager = (enqueue_overcommit s.manager a q w).0 })
  takes_over :
      {m' : Manager} (item : Option Work)
      → take_overcommit s.manager ≡ ret (m', item)
      → Step n stops s (record s { manager = m' })
  tunes :
      (runqueue about sem suspend : ℕ)
      → Step n stops s (record s { manager = retuned runqueue about sem suspend s.manager })

-- The states that can be reached from one in which there are no workers and no items.
pub data Reach (n : ℕ) (stops : Bool) (m0 : Manager) : System → Type 0 where
  start : Reach n stops m0 (record {
    manager = m0;
    pc = λ i. absent;
    checking = 0;
    signalling = 0;
    failed = 0;
    added = [];
    done = [];
  })
  later : {s t : System} → Reach n stops m0 s → Step n stops s t → Reach n stops m0 t

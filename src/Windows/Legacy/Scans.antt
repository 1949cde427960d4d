-- ===== src/Windows/Legacy/Scans.antt =====
-- The manager for Windows XP (src/windows/manager.c) with its scans in small steps: several threads
-- scan at a time, since a scan only reads `wqlist_mtx`, and each of them locks one workqueue after
-- the other, so that clients and other scans change the workqueues that it passed.
-- manager_workqueue_create initialises the spin lock of a workqueue after it gave up `wqlist_mtx`: in
-- between, the workqueue is being made. A section under a spin lock is one step; that holds as long as
-- its lock is not initialised meanwhile, so no scan comes here to a workqueue that is being made.
pub mod Rest
pub mod Safety
pub mod Alone
pub mod Finds
pub mod Refine
use libpwq.Prelude.{
  some, Bool, true, ◌++◌, get_elem?, ℕ, zero, suc, ◌+◌, ◌<◌, ◌≡◌, List, [], ◌∷◌, false, ltb,
  if◌then◌else◌, update, sum_over, ret,
}
use libpwq.Workqueue.{Work, Workqueue, is_null}
use libpwq.Windows.Legacy.{Legacy, manager_init, manager_workqueue_create, insert_in}
use libpwq.Windows.Legacy.Sums.{sum_all, is_at}

-- The workqueues in the order of a scan.
abbrev pub addresses_in : List (ℕ × Workqueue) → List ℕ
addresses_in [] = []
addresses_in ((a, q) ∷ rest) = a ∷ addresses_in rest

abbrev pub addresses : List (List (ℕ × Workqueue)) → List ℕ
addresses [] = []
addresses (queues ∷ rest) = addresses_in queues ++ addresses rest

-- What a scan finds at the workqueue that it comes to: no item, the first item, with the workqueues as
-- they are left, or that there is no further workqueue, with the number of those still to be passed.
pub data Look (A : Type 0) : Type 0 where
  empty_here : Look A
  found : Work → A → Look A
  at_end : ℕ → Look A

-- The body of LIST_FOREACH in the list of a priority, at the workqueue behind `m` others.
unfoldable pub look_list : ℕ → List (ℕ × Workqueue) → Look (List (ℕ × Workqueue))
look_list m [] = at_end m
look_list zero ((a, q) ∷ rest) = elim q.item_listhead [
  | [] ↦ empty_here
  | w ∷ items ↦ found w ((a, record q { item_listhead = items }) ∷ rest)
]
look_list (suc m) (e ∷ rest) = elim (look_list m rest) [
  | empty_here ↦ empty_here
  | found w rest' ↦ found w (e ∷ rest')
  | at_end k ↦ at_end k
]

-- In the lists of all priorities, one after the other.
unfoldable pub look_lists : ℕ → List (List (ℕ × Workqueue)) → Look (List (List (ℕ × Workqueue)))
unfolding look_list
look_lists m [] = at_end m
look_lists m (queues ∷ rest) = elim (look_list m queues) [
  | empty_here ↦ empty_here
  | found w queues' ↦ found w (queues' ∷ rest)
  | at_end k ↦ elim (look_lists k rest) [
    | empty_here ↦ empty_here
    | found w rest' ↦ found w (queues ∷ rest')
    | at_end j ↦ at_end j
  ]
]

-- A thread of the pool of Windows: outside worker_main, in wqlist_scan behind the workqueues that it
-- passed, or in the function of an item.
pub data PoolThread : Type 0 where
  resting : PoolThread
  scanning : ℕ → PoolThread
  running : Work → PoolThread

-- One round of the loops of wqlist_scan, under the spin lock of the workqueue; at the end worker_main
-- returns.
unfoldable pub scan_on : ℕ → Legacy → Legacy × PoolThread
unfolding look_lists
scan_on m s = elim (look_lists m s.wqlist) [
  | empty_here ↦ (s, scanning (suc m))
  | found w lists ↦ (record { wqlist = lists }, running w)
  | at_end k ↦ (s, resting)
]

-- Whether a thread is in a scan that passed `k` workqueues or more; with 0, whether it reads
-- `wqlist_mtx`.
abbrev pub is_past : ℕ → PoolThread → ℕ
is_past k (scanning m) = if ltb m k then 0 else 1
is_past k _ = 0

-- `callbacks` counts the calls of worker_main that are queued, and `adding` the clients between
-- STAILQ_INSERT_TAIL and QueueUserWorkItem; `added` and `done` are the items so far.
pub record Scans : Type 0 where
  pub manager : Legacy
  pub making : ℕ → Bool
  pub callbacks : ℕ
  pub adding : ℕ
  pub thread : ℕ → PoolThread
  pub added : List Work
  pub done : List Work

pub data Step (n : ℕ) (r : Scans) : Scans → Type 0 where
  creates :
      (a : ℕ) (q : Workqueue) {s : Legacy}
      → sum_over (is_past 0) n r.thread ≡ 0
      → sum_all (is_at a) r.manager.wqlist ≡ 0
      → q.item_listhead ≡ []
      → manager_workqueue_create r.manager a q ≡ ret s
      → Step n r (record r { manager = s; making = update r.making a true })
  makes : (a : ℕ) → r.making a ≡ true → Step n r (record r { making = update r.making a false })
  inserts :
      (a : ℕ) (w : Work)
      → r.making a ≡ false
      → 0 < sum_all (is_at a) r.manager.wqlist
      → is_null w.func ≡ false
      → Step n r (record r {
        manager = record { wqlist = insert_in a w r.manager.wqlist };
        adding = r.adding + 1;
        added = w ∷ r.added;
      })
  queues_call :
      {k : ℕ} → r.adding ≡ suc k → Step n r (record r { adding = k; callbacks = r.callbacks + 1 })
  begins :
      (i : ℕ) {k : ℕ}
      → i < n
      → r.thread i ≡ resting
      → r.callbacks ≡ suc k
      → Step n r (record r { callbacks = k; thread = update r.thread i (scanning 0) })
  looks :
      (i m : ℕ) {s : Legacy} {t : PoolThread}
      → i < n
      → r.thread i ≡ scanning m
      → ((a : ℕ) → get_elem? (addresses r.manager.wqlist) m ≡ some a → r.making a ≡ false)
      → scan_on m r.manager ≡ (s, t)
      → Step n r (record r { manager = s; thread = update r.thread i t })
  ends :
      (i : ℕ) (w : Work)
      → i < n
      → r.thread i ≡ running w
      → Step n r (record r { thread = update r.thread i resting; done = w ∷ r.done })

abbrev pub at_rest : Scans
at_rest = record {
  manager = manager_init;
  making = λ a. false;
  callbacks = 0;
  adding = 0;
  thread = λ i. resting;
  added = [];
  done = [];
}

pub data Reach (n : ℕ) : Scans → Type 0 where
  start : Reach n at_rest
  later : {r t : Scans} → Reach n r → Step n r t → Reach n t

-- ===== src/Manager/Overcommit/Accounts.antt =====
-- The counters of the overcommit threads: those that wait are idle or about to be woken.
use libpwq.Prelude.{
  ℕ, suc, ◌+◌, ◌<◌, ◌≡◌, refl, sym, ap, ◌∙◌, Option, true, is_nonzero, arith, Outcome, ret, aborts,
  waits, faults,
}
use libpwq.Word.{u32_mod}
use libpwq.Workqueue.{Work, Workqueue}
use libpwq.Manager.{Manager}
use libpwq.Manager.Additem.{enqueue_overcommit}
use libpwq.Manager.Invariant.{Inv}
use libpwq.Manager.Overcommit.Laws.{nothing, took, take_overcommit-TakeResult}
use libpwq.Manager.Overcommit.{
  Wait, woken, timed_out, failed, Next, take_overcommit, begin_wait, end_wait,
}

-- The manager, and the number of threads inside pthread_cond_timedwait.
pub record Crowd : Type 0 where
  pub manager : Manager
  pub waiting : ℕ

-- What the overcommit threads and the clients do, one critical section at a time.
pub data OcStep (c : Crowd) : Crowd → Type 0 where
  sleeps :
      c.waiting + 1 < u32_mod
      → OcStep c (record { manager = begin_wait c.manager; waiting = c.waiting + 1 })
  wakes :
      (r : Wait) (next : Next) {m' : Manager} {n : ℕ}
      → c.waiting ≡ suc n
      → end_wait c.manager r ≡ ret (m', next)
      → OcStep c (record { manager = m'; waiting = n })
  takes :
      {m' : Manager} (found : Option Work)
      → Inv c.manager
      → take_overcommit c.manager ≡ ret (m', found)
      → OcStep c (record { manager = m'; waiting = c.waiting })
  adds :
      (a : ℕ) (q : Workqueue) (w : Work)
      → is_nonzero q.overcommit ≡ true
      → OcStep c (record { manager = (enqueue_overcommit c.manager a q w).0; waiting = c.waiting })

pub record IsAccounted (c : Crowd) : Type 0 where
  pub total : c.manager.ocwq_idle_threads + c.manager.ocwq_signal_count ≡ c.waiting
  pub bounded : c.waiting < u32_mod

-- Taking an item leaves the counters alone.
SameCounters : Manager → Manager → Type 0
SameCounters m m' =
    (m'.ocwq_idle_threads ≡ m.ocwq_idle_threads) × (m'.ocwq_signal_count ≡ m.ocwq_signal_count)

manager_in : Manager → Outcome (Manager × Option Work) → Manager
manager_in m (ret (m', found)) = m'
manager_in m aborts = m
manager_in m waits = m
manager_in m faults = m

take_overcommit-SameCounters :
    {m m' : Manager} (found : Option Work)
    → Inv m
    → take_overcommit m ≡ ret (m', found)
    → SameCounters m m'
unfolding SameCounters manager_in
take_overcommit-SameCounters {m} {m'} found v call = elim (take_overcommit-TakeResult v) [
  | nothing idle e ↦ let same : m' ≡ m = ap (manager_in m) (sym call ∙ e) in rw same (refl, refl)
  | took i w rest n t e ↦
      let same : m' ≡ n = ap (manager_in m) (sym call ∙ e) in
      rw same (
        ap (λ (x : Manager). x.ocwq_idle_threads) t.frame,
        ap (λ (x : Manager). x.ocwq_signal_count) t.frame,
      )
]

-- Every step keeps the account: the idle threads and the signals not yet received make up the
-- waiting threads, so neither counter wraps round.
pub OcStep-IsAccounted : {c d : Crowd} → OcStep c d → IsAccounted c → IsAccounted d
unfolding begin_wait end_wait enqueue_overcommit SameCounters
OcStep-IsAccounted (sleeps room) h = record { total = ground arith; bounded = room }
OcStep-IsAccounted (wakes woken next some_wait e) h = ground arith
OcStep-IsAccounted (wakes timed_out next some_wait e) h = ground arith
OcStep-IsAccounted (wakes failed next some_wait e) h = ground arith
OcStep-IsAccounted (takes found v call) h =
    let (idle, signals) = take_overcommit-SameCounters found v call in
    record { total = rw (idle, signals) (h.total); bounded = h.bounded }
OcStep-IsAccounted (adds a q w oc) h = ground arith

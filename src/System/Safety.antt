-- ===== src/System/Safety.antt =====
-- What the invariant says of worker_main and its counters, locks and items.
use libpwq.Prelude.{
  ℕ, ℤ, pos, subst, none, some, sum_over-le, sum_over_mono, suc, ◌+◌, ◌<◌, ◌≤◌, ◌≡◌, ◌≢◌, Option,
  [], ◌∷◌, Bool, false, ret, arith, sum_over, sum_over-member, sum_over-pair,
}
use libpwq.Word.{u32_mod}
use libpwq.Workqueue.{Work, is_null}
use libpwq.Manager.{Manager, signal_worker}
use libpwq.Manager.Additem.{wake_worker}
use libpwq.Manager.Ramp.{wants_worker}
use libpwq.Manager.Scan.{scan_queue}
use libpwq.Manager.Scan.Queue.{empty, held_back, took, scan_queue-QueueResult}
use libpwq.System.{Call, skips, picked, running, holds, System, Reach}
use libpwq.System.Counters.{is_idle, is_worker, is_created}
use libpwq.Manager.Weigh.{weigh}
use libpwq.System.Items.{load, held}
use libpwq.System.Invariant.{IsCallable, IsPlaced, SystemInv}
use libpwq.System.Preserved.{IsFresh, Reach-SystemInv}

module _ {n : ℕ} {stops : Bool} {m0 : Manager} {s : System} (fresh : IsFresh n m0)
    (r : Reach n stops m0 s) where
  abbrev inv : SystemInv n s
  inv = Reach-SystemInv fresh r

  -- In every state that the threads reach from a manager with no workers and no items, with fewer
  -- than 2 ^ 32 workers at a time, `scoreboard.idle` is the number of workers outside of a work
  -- function, `scoreboard.count` is the number of workers, and neither has wrapped round.
  pub scoreboard_counts :
      (s.manager.scoreboard.idle ≡ sum_over is_idle n s.pc)
      × (s.manager.scoreboard.count ≡ sum_over is_worker n s.pc)
      × (s.manager.scoreboard.idle ≤ s.manager.scoreboard.count)
      × (s.manager.scoreboard.count ≤ n)
  scoreboard_counts =
      let fewer = sum_over_mono is_idle is_worker n s.pc (λ p. ground arith) in
      let most = sum_over-le is_worker (λ p. ground arith) n s.pc in
      (
        inv.counted.idle,
        inv.counted.count,
        omega (arith, inv.counted.idle, inv.counted.count, fewer),
        omega (arith, inv.counted.count, most),
      )

  -- In every state that the threads reach from a manager with no workers and no items, no item is
  -- lost and none is run twice: for every weight of items, those that were put in a plain queue
  -- weigh as much as those that are in one, that a worker has, and that were freed after their
  -- function returned or their request to exit was followed.
  pub items_kept :
      (f : Work → ℕ)
      → weigh f s.added ≡ load f s.manager + sum_over (held f) n s.pc + weigh f s.done
  items_kept f = inv.kept f

  -- In every state that the threads reach from a manager with no workers and no items, a worker
  -- never calls a NULL function: the item that it runs has one.
  pub running_has_function : (i : ℕ) (w : Work) → s.pc i ≡ running w → is_null w.func ≡ false
  running_has_function i w at = subst IsCallable at (inv.callable i)

  -- In every state that the threads reach from a manager with no workers and no items, two workers
  -- never hold `wqlist_mtx` at the same time: while one holds it, no other does.
  pub mutex_exclusive : (i j : ℕ) → i < n → j < n → i ≢ j → holds (s.pc i) ≡ 1 → holds (s.pc j) ≡ 0
  mutex_exclusive i j i_lt j_lt ne i_holds =
      let pair = sum_over-pair holds n s.pc i j i_lt j_lt ne in
      omega (arith, pair, i_holds, inv.counted.one)

  -- In every state that the threads reach from a manager with no workers and no items, a worker
  -- that read the mask never follows a NULL entry of the table: whatever the other threads did
  -- since, its section under the lock of the queue that it picked returns.
  pub picked_returns :
      (i k : ℕ) (c : Call)
      → s.pc i ≡ picked c (suc k)
      → (m' : Manager) × (x : Option (Work × ℤ)) × (scan_queue s.manager k (skips c) ≡ ret (m', x))
  picked_returns i k c at =
      let (a, own) = subst (IsPlaced s.manager) at (inv.placed i) in
      elim (scan_queue-QueueResult inv.valid k a own (skips c)) [
        | empty nil call ↦ (s.manager, none, call)
        | held_back w rest ask lt there call ↦ (s.manager, none, call)
        | took w rest m' runs removed call ↦ (m', some (w, pos k), call)
      ]

  -- In every state that the threads reach from a manager with no workers and no items, while some
  -- worker is outside of a work function, a client that added an item finds `idle` positive and
  -- signals.
  pub idle_worker_signalled :
      (i : ℕ) → i < n → is_idle (s.pc i) ≡ 1 → wake_worker s.manager ≡ signal_worker ∷ []
  unfolding wake_worker
  idle_worker_signalled i lt idle =
      let some_idle = sum_over-member is_idle n s.pc i lt in
      ground (arith, inv.counted.idle, some_idle, idle)

  -- In every state that the threads reach from a manager with no workers and no items, once a
  -- pthread_create for a worker failed, the manager thread never wants another worker, in whatever
  -- state it looks, unless 2 ^ 32 calls or so failed.
  pub failed_create_blocks : 0 < s.failed → s.failed + n < u32_mod → wants_worker s.manager ≡ false
  failed_create_blocks some_failed few =
      let le = sum_over-le is_created (λ p. ground arith) n s.pc in
      ground (arith, inv.counted.pending, le)

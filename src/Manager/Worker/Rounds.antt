-- ===== src/Manager/Worker/Rounds.antt =====
-- How a round of a worker ends.
use libpwq.Prelude.{
  ℕ, ℤ, ◌≡◌, refl, ◌∙◌, Option, none, some, inl, inr, Bool, true, false, leb, if◌then◌else◌,
  Outcome, ret, waits, Bool-cases,
}
use libpwq.Word.{inc32}
use libpwq.Workqueue.{Work, is_null}
use libpwq.Manager.{Manager}
use libpwq.Manager.Invariant.{Inv}
use libpwq.Manager.Scan.{wqlist_scan}
use libpwq.Manager.Pool.{worker_begins}
use libpwq.Manager.Backlog.{backlog}
use libpwq.Manager.Backlog.Refine.{Takes, next_item, scan_refines}
use libpwq.Manager.Worker.{Taken, Seen, Round, runs, exits, scan_until, worker_round}
use libpwq.Manager.Worker.Laws.{
  Each, IsFirst, IsIdle, LoopResult, found, still, scan_until-LoopResult, not_null-next_item, begun,
  begun-Inv, backlog-begun, worker_begins-Inv, backlog-worker_begins, left, left-Inv, backlog-left,
  first_runs, spin_call, spin_waits, wait_runs, wait_exits, wait_waits,
}

-- The state in which the worker found its item: that of its first scan, or the first one with an item
-- of those that it saw while it spun, or while it waited.
pub data IsSeen (limit spinning : ℕ) (s : Seen) : Bool → Manager → Type 0 where
  at_first : IsSeen limit spinning s true s.first
  at_spin :
      {m : Manager}
      → IsIdle true s.first
      → leb (inc32 spinning) limit ≡ true
      → IsFirst true m s.spin
      → IsSeen limit spinning s true m
  at_wait :
      {m : Manager}
      → IsIdle true s.first
      → leb (inc32 spinning) limit ≡ false
      → IsFirst false m s.wait
      → IsSeen limit spinning s false m

-- How a round ends: the worker calls a function, which is not NULL, of an item that was the next
-- one of the state in which it found it; or it took a request to exit and is gone; or it still spins or waits, and
-- none of the states that it found has an item for it.
pub data RoundResult (limit spinning : ℕ) (s : Seen) (r : Outcome Round) : Type 0 where
  works :
      (skip : Bool) (m : Manager) (t : Taken)
      → IsSeen limit spinning s skip m
      → Inv t.manager
      → next_item skip (backlog m) ≡ some (t.work, backlog t.manager)
      → is_null t.work.func ≡ false
      → r ≡ ret (runs t)
      → RoundResult limit spinning s r
  leaves :
      (m m' : Manager) (w : Work)
      → IsSeen limit spinning s false m
      → Inv m'
      → next_item false (backlog m) ≡ some (w, backlog m')
      → is_null w.func ≡ true
      → r ≡ ret (exits m')
      → RoundResult limit spinning s r
  waiting :
      IsIdle true s.first
      → (if leb (inc32 spinning) limit
          then Each (IsIdle true) s.spin
          else Each (IsIdle false) s.wait)
      → r ≡ waits
      → RoundResult limit spinning s r

module _ (limit spinning : ℕ) (s : Seen) (idle : IsIdle true s.first)
    (call : wqlist_scan s.first true ≡ ret (s.first, none)) where
  -- After a first scan with no item, a thread that may spin ends like this.
  spin-RoundResult :
      leb (inc32 spinning) limit ≡ true
      → LoopResult true s.spin (scan_until true s.spin)
      → RoundResult limit spinning s (worker_round limit spinning s)
  spin-RoundResult spins (found m t first vt takes e) =
      works true m (record t { manager = begun t.manager }) (at_spin idle spins first)
        (begun-Inv t.manager vt) (rw (backlog-begun t.manager) takes)
        (not_null-next_item (backlog m) (backlog t.manager) t.work takes)
        (spin_call limit spinning s idle call t spins e)
  spin-RoundResult spins (still none_there e) =
      waiting idle (rw spins none_there) (spin_waits limit spinning s idle call spins e)

  -- And one that may not spin like this.
  wait-RoundResult :
      leb (inc32 spinning) limit ≡ false
      → LoopResult false s.wait (scan_until false s.wait)
      → RoundResult limit spinning s (worker_round limit spinning s)
  wait-RoundResult sleeps (found m t first vt takes e) = elim (Bool-cases (is_null t.work.func)) [
    | inl null ↦
        leaves m (left t.manager) t.work (at_wait idle sleeps first) (left-Inv t.manager vt)
          (rw (backlog-left t.manager) takes) null
          (wait_exits limit spinning s idle call t sleeps e null)
    | inr plain ↦
        works false m (record t { manager = begun t.manager }) (at_wait idle sleeps first)
          (begun-Inv t.manager vt) (rw (backlog-begun t.manager) takes) plain
          (wait_runs limit spinning s idle call t sleeps e plain)
  ]
  wait-RoundResult sleeps (still none_there e) =
      waiting idle (rw sleeps none_there) (wait_waits limit spinning s idle call sleeps e)

-- One round of a worker, whatever states its scans find: it never fails, it never calls a NULL
-- function, its item or request to exit was the next one of the state of its first scan, or of the
-- first state with one of those that it saw while it spun or waited, and a worker that waits or spins
-- has found no state with an item for it.
pub worker_round-RoundResult :
    (limit spinning : ℕ) (s : Seen)
    → Inv s.first
    → Each Inv s.spin
    → Each Inv s.wait
    → RoundResult limit spinning s (worker_round limit spinning s)
worker_round-RoundResult limit spinning s v vs vw = go (scan_refines true v)
  where
    go :
        ((m' : Manager) × (got : Option (Work × ℤ)) × (wqlist_scan s.first true ≡ ret (m', got))
          × Inv m'
          × Takes true s.first m' got)
        → RoundResult limit spinning s (worker_round limit spinning s)
    go (m', some (w, prio), call, v', takes) =
        works true s.first (record { manager = worker_begins m'; work = w; prio = prio }) at_first
          (worker_begins-Inv m' v') (rw (backlog-worker_begins m') takes)
          (not_null-next_item (backlog s.first) (backlog m') w takes)
          (first_runs limit spinning s m' w prio call)
    go (m', none, call, v', (idle, same)) =
        let call' : wqlist_scan s.first true ≡ ret (s.first, none) = call ∙ rw same refl in
        elim (Bool-cases (leb (inc32 spinning) limit)) [
          | inl spins ↦
              spin-RoundResult limit spinning s idle call' spins
                (scan_until-LoopResult true s.spin vs)
          | inr sleeps ↦
              wait-RoundResult limit spinning s idle call' sleeps
                (scan_until-LoopResult false s.wait vw)
        ]

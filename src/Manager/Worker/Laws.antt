-- ===== src/Manager/Worker/Laws.antt =====
-- The loops of scans of a worker, and the calls of one round.
use libpwq.Prelude.{
  ◌⊎◌, ℕ, ℤ, ◌+◌, ◌≡◌, refl, ap, Option, none, some, List, [], ◌∷◌, inl, inr, Bool, true, false,
  leb, arith, Outcome, ret, waits, Bool-cases, ◌==◌,
}
use libpwq.Word.{inc32}
use libpwq.Workqueue.{Work, is_null}
use libpwq.Manager.{Manager, Scoreboard}
use libpwq.Manager.Invariant.{Inv}
use libpwq.Manager.Scan.{wqlist_scan}
use libpwq.Manager.Pool.{force_wakeup, accept_item, worker_begins, dec_idle, dec_count}
use libpwq.Manager.Backlog.{backlog}
use libpwq.Manager.Backlog.Refine.{Takes, next_item, scan_refines}
use libpwq.Manager.Worker.{
  Taken, Seen, runs, exits, scan_until, wqlist_scan_spin, wqlist_scan_wait, find_item, worker_round,
}

abbrev pub Each : (Manager → Type 0) → List Manager → Type 0
Each P [] = Unit {0}
Each P (m ∷ rest) = P m × Each P rest

-- A scan of `m` has nothing to take.
abbrev pub IsIdle : Bool → Manager → Type 0
IsIdle skip m = next_item skip (backlog m) ≡ none

-- `m` is the first of these states that has something to take.
abbrev pub IsFirst : Bool → Manager → List Manager → Type 0
IsFirst skip m [] = ⊥
IsFirst skip m (k ∷ rest) = (m ≡ k) ⊎ (IsIdle skip k × IsFirst skip m rest)

-- How a loop of scans over `seen` ends: it took the next item of the first of these states that has
-- one, or none has one to take and it is still waiting.
pub data LoopResult (skip : Bool) (seen : List Manager) (r : Outcome Taken) : Type 0 where
  found :
      (m : Manager) (t : Taken)
      → IsFirst skip m seen
      → Inv t.manager
      → next_item skip (backlog m) ≡ some (t.work, backlog t.manager)
      → r ≡ ret t
      → LoopResult skip seen r
  still : Each (IsIdle skip) seen → r ≡ waits → LoopResult skip seen r

pub scan_until-LoopResult :
    (skip : Bool) (seen : List Manager)
    → Each Inv seen
    → LoopResult skip seen (scan_until skip seen)
unfolding scan_until
scan_until-LoopResult skip [] v = still tt refl
scan_until-LoopResult skip (m ∷ rest) (v, vs) =
    go (scan_refines skip v) (scan_until-LoopResult skip rest vs)
  where
    go :
        ((m' : Manager) × (got : Option (Work × ℤ)) × (wqlist_scan m skip ≡ ret (m', got))
          × Inv m'
          × Takes skip m m' got)
        → LoopResult skip rest (scan_until skip rest)
        → LoopResult skip (m ∷ rest) (scan_until skip (m ∷ rest))
    go (m', some (w, prio), call, v', takes) later =
        found m (record { manager = m'; work = w; prio = prio }) (inl refl) v' takes (rw call refl)
    go (m', none, call, v', (idle, same)) (found m0 t first vt takes e) =
        found m0 t (inr (idle, first)) vt takes (rw call e)
    go (m', none, call, v', (idle, same)) (still none_there e) =
        still (idle, none_there) (rw call e)

pub Inv-rescored : {m : Manager} (sb : Scoreboard) → Inv m → Inv (record m { scoreboard = sb })
Inv-rescored sb v = record { normal = v.normal; over = v.over; registered = v.registered }

-- The wake-up of the manager thread changes the scoreboard at most.
force_wakeup_lem :
    (m : Manager) → (sb : Scoreboard) × (force_wakeup m ≡ record m { scoreboard = sb })
unfolding force_wakeup
force_wakeup_lem m = elim (Bool-cases (m.scoreboard.idle == 1)) [
  | inl last ↦ (record (m.scoreboard) { sb_sem = m.scoreboard.sb_sem + 1 }, rw last refl)
  | inr more ↦ (m.scoreboard, rw more refl)
]

pub not_null-next_item :
    (xs rest : List Work) (w : Work) → next_item true xs ≡ some (w, rest) → is_null w.func ≡ false
unfolding next_item
not_null-next_item [] rest w h = cc
not_null-next_item (x ∷ xs) rest w h = elim (Bool-cases (is_null x.func)) [
  | inl null ↦ absurd (ground (arith, h, null))
  | inr plain ↦ ground (arith, h, plain)
]

-- The manager as the work function is called.
abbrev pub begun : Manager → Manager
begun m = worker_begins (force_wakeup m)

pub begun-Inv : (m : Manager) → Inv m → Inv (begun m)
unfolding worker_begins
begun-Inv m v = let (sb, woken) = force_wakeup_lem m in rw woken (Inv-rescored _ v)

pub backlog-begun : (m : Manager) → backlog (begun m) ≡ backlog m
unfolding worker_begins
backlog-begun m = let (sb, woken) = force_wakeup_lem m in rw woken refl

pub worker_begins-Inv : (m : Manager) → Inv m → Inv (worker_begins m)
unfolding worker_begins
worker_begins-Inv m v = Inv-rescored _ v

pub backlog-worker_begins : (m : Manager) → backlog (worker_begins m) ≡ backlog m
unfolding worker_begins
backlog-worker_begins m = refl

-- The manager when a worker is gone.
abbrev pub left : Manager → Manager
left m = dec_count (dec_idle (force_wakeup m))

pub left-Inv : (m : Manager) → Inv m → Inv (left m)
left-Inv m v = let (sb, woken) = force_wakeup_lem m in rw woken (Inv-rescored _ v)

pub backlog-left : (m : Manager) → backlog (left m) ≡ backlog m
backlog-left m = let (sb, woken) = force_wakeup_lem m in rw woken refl

accept_null : (m : Manager) (w : Work) → is_null w.func ≡ true → accept_item m w ≡ (left m, false)
unfolding accept_item
accept_null m w null = rw null refl

pub first_runs :
    (limit spinning : ℕ) (s : Seen) (m' : Manager) (w : Work) (prio : ℤ)
    → wqlist_scan s.first true ≡ ret (m', some (w, prio))
    → worker_round limit spinning s
      ≡ ret (runs (record { manager = worker_begins m'; work = w; prio = prio }))
unfolding worker_round
first_runs limit spinning s m' w prio call = rw call refl

module _ (limit spinning : ℕ) (s : Seen) (idle : IsIdle true s.first)
    (call : wqlist_scan s.first true ≡ ret (s.first, none)) where
  pub spin_call :
      (t : Taken)
      → leb (inc32 spinning) limit ≡ true
      → scan_until true s.spin ≡ ret t
      → worker_round limit spinning s ≡ ret (runs (record t { manager = begun t.manager }))
  unfolding worker_round find_item wqlist_scan_spin
  spin_call t spins e = rw (call, spins) (rw e refl)

  pub spin_waits :
      leb (inc32 spinning) limit ≡ true
      → scan_until true s.spin ≡ waits
      → worker_round limit spinning s ≡ waits
  unfolding worker_round find_item wqlist_scan_spin
  spin_waits spins e = rw (call, spins) (rw e refl)

  pub wait_runs :
      (t : Taken)
      → leb (inc32 spinning) limit ≡ false
      → scan_until false s.wait ≡ ret t
      → is_null t.work.func ≡ false
      → worker_round limit spinning s ≡ ret (runs (record t { manager = begun t.manager }))
  unfolding worker_round find_item wqlist_scan_spin wqlist_scan_wait accept_item
  wait_runs t sleeps e plain = rw (call, sleeps) (rw e (rw plain refl))

  pub wait_exits :
      (t : Taken)
      → leb (inc32 spinning) limit ≡ false
      → scan_until false s.wait ≡ ret t
      → is_null t.work.func ≡ true
      → worker_round limit spinning s ≡ ret (exits (left t.manager))
  unfolding worker_round find_item wqlist_scan_spin wqlist_scan_wait
  wait_exits t sleeps e null =
      rw (call, sleeps)
        (rw e (
          rw (accept_null t.manager t.work null)
            (ap (λ r. ret (exits (r.0))) (accept_null t.manager t.work null))))

  pub wait_waits :
      leb (inc32 spinning) limit ≡ false
      → scan_until false s.wait ≡ waits
      → worker_round limit spinning s ≡ waits
  unfolding worker_round find_item wqlist_scan_spin wqlist_scan_wait
  wait_waits sleeps e = rw (call, sleeps) (rw e refl)

-- ===== src/System/Items.antt =====
-- The items in the queues of src/posix/manager.c and with its workers, weighed: what a step of a
-- worker takes and frees.
use libpwq.Prelude.{
  ℕ, ℤ, ◌+◌, ◌<◌, ◌≡◌, refl, ap, Option, none, some, List, Bool, ◌==◌, arith, Bool-cases, inl, inr,
}
use libpwq.Workqueue.{Work, workqueue_max}
use libpwq.Manager.{Manager, Scoreboard}
use libpwq.Manager.Invariant.{Inv, pending_items}
use libpwq.Manager.Scan.Queue.{Removed}
use libpwq.Manager.Additem.Laws.{append_at}
use libpwq.Manager.Pool.{
  worker_started, worker_begins, worker_ends, force_wakeup, dec_idle, dec_count,
}
use libpwq.Manager.Weigh.{weigh, total, total-congr, total-taken, total-append_at}
use libpwq.System.{
  Call, Pc, got, ready, running, Move, begins, no_item, takes, spun, accepts, exits, calls, returns,
  freed,
}
use libpwq.System.Tally.{Section, nothing, removed, scan_queue-Section, accepts_lem, exits_lem}

pub Inv-rescored :
    {m : Manager} (sb : Scoreboard) (p : ℕ)
    → Inv m
    → Inv (record m { scoreboard = sb; pending_thread_create = p })
Inv-rescored sb p v = record { normal = v.normal; over = v.over; registered = v.registered }

-- Two managers with the same tables of plain queues and the same memory.
pub record SameQueues (m m' : Manager) : Type 0 where
  pub items : (j : ℕ) → pending_items m' j ≡ pending_items m j
  pub valid : Inv m'

pub same-queues : {m : Manager} → Inv m → SameQueues m m
same-queues v = record { items = λ j. refl; valid = v }

pub force_wakeup-SameQueues : (m : Manager) → Inv m → SameQueues m (force_wakeup m)
unfolding force_wakeup
force_wakeup-SameQueues m v = elim (Bool-cases (m.scoreboard.idle == 1)) [
  | inl last ↦ rw last (record { items = λ j. refl; valid = Inv-rescored _ _ v })
  | inr more ↦ rw more (same-queues v)
]

left-SameQueues : (m : Manager) → Inv m → SameQueues m (dec_count (dec_idle (force_wakeup m)))
left-SameQueues m v =
    let same = force_wakeup-SameQueues m v in
    record { items = same.items; valid = Inv-rescored _ _ same.valid }

started-SameQueues : (m : Manager) → Inv m → SameQueues m (worker_started m)
unfolding worker_started
started-SameQueues m v = record { items = λ j. refl; valid = Inv-rescored _ _ v }

begun-SameQueues : (m : Manager) → Inv m → SameQueues m (worker_begins m)
unfolding worker_begins
begun-SameQueues m v = record { items = λ j. refl; valid = Inv-rescored _ _ v }

ended-SameQueues : (m : Manager) → Inv m → SameQueues m (worker_ends m)
unfolding worker_ends
ended-SameQueues m v = record { items = λ j. refl; valid = Inv-rescored _ _ v }

Section-Inv :
    {m m' : Manager} {i : ℕ} {skip : Bool} {x : Option (Work × ℤ)}
    → Inv m
    → Section m i skip m' x
    → Inv m'
Section-Inv v (nothing same gone) = rw same v
Section-Inv v (removed w rest runs r there) = r.valid

-- Every step of a worker keeps the invariant of the tables and masks.
pub Move-Inv : {m m' : Manager} {free : Bool} {p p' : Pc} → Inv m → Move m free p m' p' → Inv m'
Move-Inv v (no_item call) = Section-Inv v (scan_queue-Section none v call)
Move-Inv v (takes {w} {prio} call) = Section-Inv v (scan_queue-Section (some (w, prio)) v call)
Move-Inv {m} v spun = (force_wakeup-SameQueues m v).valid
Move-Inv {m} v (accepts {w} e) =
    let (is, plain) = accepts_lem m _ w e in rw is (force_wakeup-SameQueues m v).valid
Move-Inv {m} v (exits {w} e) =
    let (is, null) = exits_lem m _ w e in rw is (left-SameQueues m v).valid
Move-Inv {m} v begins = (started-SameQueues m v).valid
Move-Inv {m} v calls = (begun-SameQueues m v).valid
Move-Inv {m} v returns = (ended-SameQueues m v).valid
Move-Inv v mv = v

module _ (f : Work → ℕ) where
  -- The items of all plain queues.
  unfoldable pub load : Manager → ℕ
  load m = total f (pending_items m)

  -- The item that a worker has.
  abbrev pub held : Pc → ℕ
  held (got c w) = f w
  held (ready w) = f w
  held (running w) = f w
  held _ = 0

  pub load-congr : {m m' : Manager} → SameQueues m m' → load m' ≡ load m
  unfolding load
  load-congr {m} {m'} same = total-congr f (pending_items m) (pending_items m') same.items

  load-Removed :
      {m m' : Manager} {i : ℕ} {w : Work} {rest : List Work}
      → Removed m m' i w rest
      → load m' + f w ≡ load m
  unfolding load
  load-Removed {m} {m'} {i} {w} {rest} r =
      total-taken f (pending_items m) (pending_items m') i w rest r.index_lt r.found r.left

  pub load-added :
      (m m' : Manager) (i : ℕ) (w : Work)
      → i < workqueue_max
      → ((j : ℕ) → pending_items m' j ≡ append_at (pending_items m) i w j)
      → load m' ≡ load m + f w
  unfolding load
  load-added m m' = total-append_at f (pending_items m) (pending_items m')

  load-Section :
      {m m' : Manager} {i : ℕ} {skip : Bool} (c : Call)
      → Inv m
      → Section m i skip m' none
      → load m' ≡ load m
  load-Section c v (nothing same gone) = ap load same
  load-Section c v (removed w rest runs r there) = cc

  load-taken :
      {m m' : Manager} {i : ℕ} {skip : Bool} (w : Work) (prio : ℤ)
      → Section m i skip m' (some (w, prio))
      → load m' + f w ≡ load m
  load-taken w prio (nothing same gone) = cc
  load-taken w prio (removed u rest runs r there) =
      let one : w ≡ u = ground (arith, there) in rw one (load-Removed r)

  -- One step of a worker: what it takes out of a queue it has, and what it had it has or frees.
  pub Move-kept :
      {m m' : Manager} {free : Bool} {p p' : Pc}
      → Inv m
      → Move m free p m' p'
      → load m' + held p' + weigh f (freed p p') ≡ load m + held p
  unfolding weigh
  Move-kept v (no_item {c} call) =
      let same = load-Section c v (scan_queue-Section none v call) in omega (arith, same)
  Move-kept v (takes {w} {prio} call) =
      let moved = load-taken w prio (scan_queue-Section (some (w, prio)) v call) in
      omega (arith, moved)
  Move-kept {m} v spun = let same = load-congr (force_wakeup-SameQueues m v) in omega (arith, same)
  Move-kept {m} v (accepts {w} e) =
      let (is, plain) = accepts_lem m _ w e in
      let same = load-congr (force_wakeup-SameQueues m v) in omega (arith, ap load is, same)
  Move-kept {m} v (exits {w} e) =
      let (is, null) = exits_lem m _ w e in
      let same = load-congr (left-SameQueues m v) in omega (arith, ap load is, same)
  Move-kept {m} v begins = let same = load-congr (started-SameQueues m v) in omega (arith, same)
  Move-kept {m} v calls = let same = load-congr (begun-SameQueues m v) in omega (arith, same)
  Move-kept {m} v returns = let same = load-congr (ended-SameQueues m v) in omega (arith, same)
  Move-kept v mv = ground arith

-- ===== src/System/Tally.antt =====
-- What a step of a worker does to the counters of the manager and to the queues.
use libpwq.Prelude.{
  ℕ, ℤ, pos, ◌≡◌, refl, sym, ap, subst, ◌∙◌, Option, none, some, List, [], Bool, true, false, ◌&&◌,
  Outcome, ret, arith, inl, inr, Option-cases, Bool-cases,
}
use libpwq.Word.{inc32, dec32}
use libpwq.Workqueue.{Work, is_null, slot}
use libpwq.Manager.{Manager, Scoreboard}
use libpwq.Manager.Invariant.{Inv, pending_items}
use libpwq.Manager.Scan.{Scanned, scan_queue}
use libpwq.Manager.Scan.Queue.{empty, held_back, took, Removed, scan_queue-QueueResult}
use libpwq.Manager.Pool.{
  worker_started, worker_begins, worker_ends, force_wakeup, accept_item, dec_idle, dec_count,
}
use libpwq.System.{
  Call, wait, Pc, absent, created, picked, got, ready, running, Move, no_item, takes, spun, accepts,
  exits,
}

-- A section under the lock of a queue that has returned `x`: it found nothing and changed nothing, or
-- it took the head of the queue.
pub data Section (m : Manager) (i : ℕ) (skip : Bool) (m' : Manager) (x : Option (Work × ℤ))
    : Type 0 where
  nothing : m' ≡ m → x ≡ none → Section m i skip m' x
  removed :
      (w : Work) (rest : List Work)
      → (skip && is_null w.func) ≡ false
      → Removed m m' i w rest
      → x ≡ some (w, pos i)
      → Section m i skip m' x

manager_of : Manager → Outcome Scanned → Manager
manager_of m (ret (m', x)) = m'
manager_of m _ = m

item_of : Outcome Scanned → Option (Work × ℤ)
item_of (ret (m', x)) = x
item_of _ = none

scan_slot :
    (m : Manager) (i : ℕ) (skip : Bool) {r : Scanned}
    → scan_queue m i skip ≡ ret r
    → (a : ℕ) × (slot m.wqlist i ≡ some a)
unfolding scan_queue
scan_slot m i skip call = elim (Option-cases (slot m.wqlist i)) [
  | inl e ↦ absurd (ground (arith, call, e))
  | inr (a, e) ↦ (a, e)
]

same_result :
    (m : Manager) {m' n : Manager} {x y : Option (Work × ℤ)} {r : Outcome Scanned}
    → r ≡ ret (m', x)
    → r ≡ ret (n, y)
    → (m' ≡ n) × (x ≡ y)
unfolding manager_of item_of
same_result m e f = (ap (manager_of m) (sym e ∙ f), ap item_of (sym e ∙ f))

pub scan_queue-Section :
    {m m' : Manager} {i : ℕ} {skip : Bool} (x : Option (Work × ℤ))
    → Inv m
    → scan_queue m i skip ≡ ret (m', x)
    → Section m i skip m' x
scan_queue-Section {m} {m'} {i} {skip} x v call =
    let (a, own) = scan_slot m i skip call in
    elim (scan_queue-QueueResult v i a own skip) [
      | empty nil e ↦ let (same, gone) = same_result m call e in nothing same gone
      | held_back w rest ask lt at e ↦ let (same, gone) = same_result m call e in nothing same gone
      | took w rest n runs r e ↦
          let (same, there) = same_result m call e in
          removed w rest runs (subst (λ k. Removed m k i w rest) (sym same) r) there
    ]

-- The scan of a worker that does not skip requests to exit finds nothing only in an empty queue.
pub missed_empty :
    {m m' : Manager} (i : ℕ)
    → Inv m
    → scan_queue m i false ≡ ret (m', none)
    → pending_items m i ≡ []
missed_empty {m} {m'} i v call =
    let (a, own) = scan_slot m i false call in
    elim (scan_queue-QueueResult v i a own false) [
      | empty nil e ↦ nil
      | held_back w rest ask lt at e ↦ absurd (ground (arith, ask))
      | took w rest n runs r e ↦
          let (same, there) = same_result m call e in absurd (ground (arith, there))
    ]

-- The counters after a step from one place to another.
abbrev pub idle_after : Pc → Pc → ℕ → ℕ
idle_after (running w) p' x = inc32 x
idle_after (ready w) p' x = dec32 x
idle_after (got wait w) absent x = dec32 x
idle_after p p' x = x

abbrev pub count_after : Pc → Pc → ℕ → ℕ
count_after (got wait w) absent x = dec32 x
count_after p p' x = x

abbrev pub pending_after : Pc → ℕ → ℕ
pending_after created x = dec32 x
pending_after p x = x

pub record Tallied (m m' : Manager) (p p' : Pc) : Type 0 where
  pub idle : m'.scoreboard.idle ≡ idle_after p p' m.scoreboard.idle
  pub count : m'.scoreboard.count ≡ count_after p p' m.scoreboard.count
  pub pending : m'.pending_thread_create ≡ pending_after p m.pending_thread_create

-- What the sections that change a queue leave alone: the counters and the table of plain queues.
pub record SameRest (m m' : Manager) : Type 0 where
  pub scoreboard : m'.scoreboard ≡ m.scoreboard
  pub pending : m'.pending_thread_create ≡ m.pending_thread_create
  pub table : m'.wqlist ≡ m.wqlist

pub Section-SameRest :
    {m m' : Manager} {i : ℕ} {skip : Bool} {x : Option (Work × ℤ)}
    → Section m i skip m' x
    → SameRest m m'
Section-SameRest (nothing same gone) =
    rw same (record { scoreboard = refl; pending = refl; table = refl })
Section-SameRest (removed w rest runs r there) = record {
  scoreboard = ap (λ (k : Manager). k.scoreboard) r.frame;
  pending = ap (λ (k : Manager). k.pending_thread_create) r.frame;
  table = ap (λ (k : Manager). k.wqlist) r.frame;
}

-- The wake-up of the manager thread changes none of the counters.
force_wakeup-Tallied :
    (m : Manager)
    → ((force_wakeup m).scoreboard.idle ≡ m.scoreboard.idle)
      × ((force_wakeup m).scoreboard.count ≡ m.scoreboard.count)
      × ((force_wakeup m).pending_thread_create ≡ m.pending_thread_create)
unfolding force_wakeup
force_wakeup-Tallied m = ground arith

accept_null :
    (m : Manager) (w : Work)
    → is_null w.func ≡ true
    → accept_item m w ≡ (dec_count (dec_idle (force_wakeup m)), false)
unfolding accept_item
accept_null m w null = rw null refl

accept_plain :
    (m : Manager) (w : Work) → is_null w.func ≡ false → accept_item m w ≡ (force_wakeup m, true)
unfolding accept_item
accept_plain m w plain = rw plain refl

-- A worker that accepts its item has one with a function, and one that exits has a request to exit.
pub accepts_lem :
    (m m' : Manager) (w : Work)
    → accept_item m w ≡ (m', true)
    → (m' ≡ force_wakeup m) × (is_null w.func ≡ false)
accepts_lem m m' w e = elim (Bool-cases (is_null w.func)) [
  | inl null ↦ absurd (ground (arith, e, accept_null m w null))
  | inr plain ↦ (ap (λ r. r.0) (sym e ∙ accept_plain m w plain), plain)
]

pub exits_lem :
    (m m' : Manager) (w : Work)
    → accept_item m w ≡ (m', false)
    → (m' ≡ dec_count (dec_idle (force_wakeup m))) × (is_null w.func ≡ true)
exits_lem m m' w e = elim (Bool-cases (is_null w.func)) [
  | inl null ↦ (ap (λ r. r.0) (sym e ∙ accept_null m w null), null)
  | inr plain ↦ absurd (ground (arith, e, accept_plain m w plain))
]

Section-Tallied :
    {m m' : Manager} {c : Call} {k i : ℕ} {skip : Bool} {x : Option (Work × ℤ)} (p' : Pc)
    → Section m i skip m' x
    → Tallied m m' (picked c k) p'
Section-Tallied p' r =
    let same = Section-SameRest r in
    record {
      idle = ap (λ (sb : Scoreboard). sb.idle) same.scoreboard;
      count = ap (λ (sb : Scoreboard). sb.count) same.scoreboard;
      pending = same.pending;
    }

pub Move-Tallied :
    {m m' : Manager} {free : Bool} {p p' : Pc} → Inv m → Move m free p m' p' → Tallied m m' p p'
unfolding worker_started worker_begins worker_ends
Move-Tallied v (no_item call) = Section-Tallied _ (scan_queue-Section none v call)
Move-Tallied v (takes {w} {prio} call) =
    Section-Tallied _ (scan_queue-Section (some (w, prio)) v call)
Move-Tallied {m} v spun =
    let (idle, count, pending) = force_wakeup-Tallied m in
    record { idle = idle; count = count; pending = pending }
Move-Tallied {m} {m'} v (accepts {w} e) =
    let (same, plain) = accepts_lem m m' w e in
    let (idle, count, pending) = force_wakeup-Tallied m in
    rw same (record { idle = idle; count = count; pending = pending })
Move-Tallied {m} {m'} v (exits {w} e) =
    let (same, null) = exits_lem m m' w e in
    let (idle, count, pending) = force_wakeup-Tallied m in
    rw same (record { idle = ap dec32 idle; count = ap dec32 count; pending = pending })
Move-Tallied v mv = record { idle = ground arith; count = ground arith; pending = ground arith }

-- No step of a worker changes the table of plain queues.
pub Move-table :
    {m m' : Manager} {free : Bool} {p p' : Pc} → Inv m → Move m free p m' p' → m'.wqlist ≡ m.wqlist
unfolding worker_started worker_begins worker_ends force_wakeup
Move-table v (no_item call) = (Section-SameRest (scan_queue-Section none v call)).table
Move-table v (takes {w} {prio} call) =
    (Section-SameRest (scan_queue-Section (some (w, prio)) v call)).table
Move-table {m} v spun = ground arith
Move-table {m} {m'} v (accepts {w} e) =
    let (same, plain) = accepts_lem m m' w e in rw same (ground arith)
Move-table {m} {m'} v (exits {w} e) =
    let (same, null) = exits_lem m m' w e in rw same (ground arith)
Move-table v mv = refl

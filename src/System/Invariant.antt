-- ===== src/System/Invariant.antt =====
-- The invariant of the threads of src/posix/manager.c at work together, and its parts.
use libpwq.Prelude.{
  ℕ, ℤ, zero, suc, ◌+◌, ◌<◌, ◌≡◌, refl, ap, some, List, ◌++◌, Bool, false, ◌==◌, ◌&&◌, arith,
  update, sum_over, sum_over-update, Bool-cases, inl, inr, Option-cases,
}
use libpwq.Word.{ffs}
use libpwq.Word.Ffs.{ffs_lt, bit-ffs}
use libpwq.Workqueue.{Work, is_null, slot}
use libpwq.Manager.{Manager}
use libpwq.Manager.Invariant.{Inv}
use libpwq.System.{
  Call, first, spin, wait, skips, Pc, picked, got, blocked, asleep, ready, running, Move, reads,
  takes, accepts, goes_on, spun, calls, freed, holds, System, Signalled, woke, nobody,
}
use libpwq.System.Tally.{Section, nothing, removed, scan_queue-Section, accepts_lem}
use libpwq.System.Counters.{is_idle, is_worker, is_created, Counted}
use libpwq.Manager.Weigh.{weigh, weigh-append}
use libpwq.System.Items.{load, held, Move-kept}

-- The item of a worker that is to call its function.
abbrev pub IsCallable : Pc → Type 0
IsCallable (got first w) = is_null w.func ≡ false
IsCallable (got spin w) = is_null w.func ≡ false
IsCallable (ready w) = is_null w.func ≡ false
IsCallable (running w) = is_null w.func ≡ false
IsCallable _ = Unit {0}

-- The queue that a worker picked is in the table.
abbrev pub IsPlaced : Manager → Pc → Type 0
IsPlaced m (picked c (suc i)) = (a : ℕ) × (slot m.wqlist i ≡ some a)
IsPlaced m _ = Unit {0}

pub record SystemInv (n : ℕ) (s : System) : Type 0 where
  pub counted : Counted n s.failed s.manager s.pc
  pub valid : Inv s.manager
  pub callable : (i : ℕ) → IsCallable (s.pc i)
  pub placed : (i : ℕ) → IsPlaced s.manager (s.pc i)
  pub kept :
      (f : Work → ℕ)
      → weigh f s.added ≡ load f s.manager + sum_over (held f) n s.pc + weigh f s.done

-- A property of the place of each thread, after a step of thread `i`.
pub each-update :
    (P : Pc → Type 0) (pc : ℕ → Pc) (i : ℕ) (p : Pc)
    → ((j : ℕ) → P (pc j))
    → P p
    → (j : ℕ) → P (update pc i p j)
each-update P pc i p all new j = elim (Bool-cases (i == j)) [
  | inl e ↦ rw e new
  | inr e ↦ rw e (all j)
]

-- A mask with a lowest bit leads to a queue of the table.
picks-IsPlaced :
    (m : Manager) (c : Call) (k : ℕ) → Inv m → ffs m.wqlist_mask ≡ k → IsPlaced m (picked c k)
picks-IsPlaced m c zero v e = tt
picks-IsPlaced m c (suc i) v e = elim (Option-cases (slot m.wqlist i)) [
  | inl gone ↦ absurd (
      ground
        (arith, gone, v.normal.pending i (ffs_lt m.wqlist_mask i e), bit-ffs m.wqlist_mask i e))
  | inr there ↦ there
]

pub Move-IsPlaced :
    {m m' : Manager} {free : Bool} {p p' : Pc} → Inv m → Move m free p m' p' → IsPlaced m' p'
Move-IsPlaced {m} v (reads {c}) = picks-IsPlaced m c (ffs m.wqlist_mask) v refl
Move-IsPlaced v mv = tt

pub table-IsPlaced :
    (m m' : Manager) → m'.wqlist ≡ m.wqlist → (p : Pc) → IsPlaced m p → IsPlaced m' p
table-IsPlaced m m' e (picked c (suc i)) (a, at) = (a, rw e at)
table-IsPlaced m m' e p h = tt

pub grown-IsPlaced :
    (m m' : Manager)
    → ((j a : ℕ) → slot m.wqlist j ≡ some a → slot m'.wqlist j ≡ some a)
    → (p : Pc) → IsPlaced m p
    → IsPlaced m' p
grown-IsPlaced m m' kept (picked c (suc i)) (a, at) = (a, kept i a at)
grown-IsPlaced m m' kept p h = tt

by_call : (c : Call) (w : Work) → (skips c && is_null w.func) ≡ false → IsCallable (got c w)
by_call first w h = h
by_call spin w h = h
by_call wait w h = tt

taken-IsCallable :
    {m m' : Manager} {i : ℕ} (c : Call) (w : Work) {prio : ℤ}
    → Section m i (skips c) m' (some (w, prio))
    → IsCallable (got c w)
taken-IsCallable c w (nothing same gone) = cc
taken-IsCallable c w (removed u rest runs r there) =
    let one : w ≡ u = ground (arith, there) in rw one (by_call c u runs)

pub Move-IsCallable :
    {m m' : Manager} {free : Bool} {p p' : Pc}
    → Inv m
    → IsCallable p
    → Move m free p m' p'
    → IsCallable p'
Move-IsCallable v h (takes {c} {w = w} {prio = prio} call) =
    taken-IsCallable c w (scan_queue-Section (some (w, prio)) v call)
Move-IsCallable {m} {m'} v h (accepts {w} e) = (accepts_lem m m' w e).1
Move-IsCallable v h goes_on = h
Move-IsCallable v h spun = h
Move-IsCallable v h calls = h
Move-IsCallable v h mv = tt

-- A signal wakes a thread that sleeps at most: what weighs a sleeping thread like one that waits
-- for the mutex, weighs as much as before.
pub sum_over-Signalled :
    (w : Pc → ℕ) (n : ℕ) {pc pc' : ℕ → Pc}
    → w asleep ≡ w blocked
    → Signalled n pc pc'
    → sum_over w n pc' ≡ sum_over w n pc
sum_over-Signalled w n {pc} same (woke j lt at) =
    let moved = sum_over-update w n pc j blocked lt in
    let here : w (pc j) ≡ w asleep = ap w at in omega (arith, moved, here, same)
sum_over-Signalled w n same (nobody none_there) = refl

pub Signalled-each :
    (P : Pc → Type 0) (n : ℕ) {pc pc' : ℕ → Pc}
    → Signalled n pc pc'
    → P blocked
    → ((j : ℕ) → P (pc j))
    → (j : ℕ) → P (pc' j)
Signalled-each P n {pc} (woke j lt at) new all = each-update P pc j blocked all new
Signalled-each P n (nobody none_there) new all = all

pub Counted-Signalled :
    {n failed : ℕ} {m : Manager} {pc pc' : ℕ → Pc}
    → Counted n failed m pc
    → Signalled n pc pc'
    → Counted n failed m pc'
Counted-Signalled {n} c sig = record {
  few = c.few;
  idle = rw (sum_over-Signalled is_idle n refl sig) c.idle;
  count = rw (sum_over-Signalled is_worker n refl sig) c.count;
  pending = rw (sum_over-Signalled is_created n refl sig) c.pending;
  one = rw (sum_over-Signalled holds n refl sig) c.one;
}

-- The counters are as they were.
pub Counted-same :
    {n failed : ℕ} {m m' : Manager} {pc : ℕ → Pc}
    → Counted n failed m pc
    → m'.scoreboard ≡ m.scoreboard
    → m'.pending_thread_create ≡ m.pending_thread_create
    → Counted n failed m' pc
Counted-same c scoreboard pending = record {
  few = c.few;
  idle = rw scoreboard c.idle;
  count = rw scoreboard c.count;
  pending = rw pending c.pending;
  one = c.one;
}

-- A worker that moved: its items, and those in the queues.
pub Move-balance :
    (f : Work → ℕ) {n i : ℕ} {m m' : Manager} (pc : ℕ → Pc) {p' : Pc} {free : Bool}
    (added done : List Work)
    → i < n
    → Inv m
    → Move m free (pc i) m' p'
    → weigh f added ≡ load f m + sum_over (held f) n pc + weigh f done
    → weigh f added
      ≡ load f m' + sum_over (held f) n (update pc i p') + weigh f (freed (pc i) p' ++ done)
Move-balance f {n} {i} {m} {m'} pc {p'} added done lt v mv balance =
    let moved = sum_over-update (held f) n pc i p' lt in
    let step = Move-kept f v mv in
    omega (arith, balance, moved, step, weigh-append f (freed (pc i) p') done)

-- ===== src/System/Attention.antt =====
-- The steps of the threads of src/posix/manager.c and the attention that they leave on the queues.
use libpwq.Prelude.{
  ℕ, ret, sum_over-plus, zero, suc, ◌+◌, ◌<◌, ◌≡◌, refl, sym, ap, subst, ◌∙◌, ◌⊎◌, inl, inr, none,
  [], true, false, arith, update, sum_over, sum_over-zero, sum_over_mono,
}
use native.Mathlib.Decide.{dec_lt}
use libpwq.Word.{ffs}
use libpwq.Workqueue.{Work, is_null}
use libpwq.Manager.{Manager}
use libpwq.Manager.Invariant.{Inv, pending_items}
use libpwq.Manager.Additem.{wake_worker}
use libpwq.Manager.Scan.{scan_queue}
use libpwq.System.{
  wait, Pc, absent, created, picked, missed, got, blocked, asleep, Move, reads, no_bit, no_item,
  sleeps, exits, holds, is_asleep, is_free, System, Signalled, woke, nobody, Step, moves, starts,
  fails, stops_one, adds, checks, signals, adds_over, takes_over, tunes, creates, Reach, start,
  later,
}
use libpwq.System.Tally.{Section, nothing, removed, scan_queue-Section, missed_empty, exits_lem}
use libpwq.System.Counters.{is_idle, is_worker}
use libpwq.Manager.Pool.{worker_start}
use libpwq.System.Items.{SameQueues, load, load-congr, Inv-rescored}
use libpwq.System.Outside.{create-Grown, enqueue_overcommit-Aside, take_overcommit-Aside}
use libpwq.System.Invariant.{SystemInv}
use libpwq.System.Preserved.{IsFresh, Reach-SystemInv}
use libpwq.System.Wakeup.{
  is_keen, queued, IsTaking, IsAttended, held_plain, idle_mask, picks-IsTaking, keen_attends,
  passes,
}

-- A scan that found nothing changed nothing.
same_manager : {m m' : Manager} (k : ℕ) → Inv m → scan_queue m k false ≡ ret (m', none) → m' ≡ m
same_manager {m} {m'} k v call = go (scan_queue-Section none v call)
  where
    go : Section m k false m' none → m' ≡ m
    go (nothing same gone) = same
    go (removed w rest runs r there) = cc

-- A step that leaves the plain queues alone keeps the attention on them.
same-IsAttended :
    {n : ℕ} (s : System) {m' : Manager}
    → SameQueues s.manager m'
    → IsAttended n s
    → IsAttended n (record s { manager = m' })
unfolding load
same-IsAttended {n} s {m'} same a some_item some_worker =
    elim (a (omega (arith, some_item, load-congr (λ w. 1) same)) some_worker) [
      | inl att ↦ inl att
      | inr t ↦ inr (record {
        worker = t.worker;
        queue = t.queue;
        worker_lt = t.worker_lt;
        place = t.place;
        some_there = rw (same.items t.queue) (t.some_there);
      })
    ]

-- A client that finds no idle worker: all of them run a work function, and scan again after it.
all_busy :
    (n : ℕ) (pc : ℕ → Pc)
    → sum_over is_idle n pc ≡ 0
    → 0 < sum_over is_worker n pc
    → 0 < sum_over is_keen n pc
all_busy n pc busy some_worker =
    let le = sum_over_mono is_worker (λ p. is_idle p + is_keen p) n pc (λ p. ground arith) in
    omega (arith, le, sum_over-plus is_idle is_keen n pc, busy, some_worker)

-- A signal that finds no sleeper: a worker is keen, since no worker holds the mutex.
none_asleep :
    (n : ℕ) (pc : ℕ → Pc)
    → sum_over is_asleep n pc ≡ 0
    → sum_over holds n pc ≡ 0
    → 0 < sum_over is_worker n pc
    → 0 < sum_over is_keen n pc
none_asleep n pc awake free some_worker =
    let le =
      sum_over_mono is_worker (λ p. is_asleep p + (holds p + is_keen p)) n pc (λ p. ground arith) in
    omega (
      arith,
      le,
      sum_over-plus is_asleep (λ p. holds p + is_keen p) n pc,
      sum_over-plus holds is_keen n pc,
      awake,
      free,
      some_worker,
    )

signal-IsAttended :
    {n : ℕ} (s : System) {pc' : ℕ → Pc} (k : ℕ)
    → is_free n s.pc ≡ true
    → Signalled n s.pc pc'
    → IsAttended n (record s { signalling = k; pc = pc' })
signal-IsAttended {n} s k free (woke j lt at) some_item some_worker =
    inl (omega (arith, keen_attends n j s.pc blocked lt refl))
signal-IsAttended {n} s k free (nobody awake) some_item some_worker =
    inl (omega (arith, none_asleep n s.pc awake (ground (arith, free)) some_worker))

-- Worker `i` goes to the place `p'`.
module _ (n : ℕ) (s : System) (h : SystemInv n s) (i : ℕ) (lt : i < n)
    (plain : (w : Work) → s.pc i ≡ got wait w → is_null w.func ≡ false) (a : IsAttended n s) where
  -- What is to be shown of the state after the step.
  abbrev After : Manager → Pc → Type 0
  After m' p' =
      0 < queued m'
      → 0 < sum_over is_worker n (update s.pc i p')
      → (0 < sum_over is_keen n (update s.pc i p') + s.checking + s.signalling)
        ⊎ IsTaking n m' (update s.pc i p')

  keen : {m' : Manager} (p' : Pc) → is_keen p' ≡ 1 → After m' p'
  keen p' e some_item some_worker = inl (omega (arith, keen_attends n i s.pc p' lt e))

  picks :
      (k : ℕ)
      → ffs s.manager.wqlist_mask ≡ k
      → After s.manager (picked wait (ffs s.manager.wqlist_mask))
  picks zero e some_item some_worker =
      absurd (omega (arith, some_item, idle_mask s.manager h.valid e))
  picks (suc k) e some_item some_worker = inr (picks-IsTaking n i k s.manager s.pc h.valid lt e)

  -- A worker in wqlist_scan_wait that found nothing.
  misses :
      (p p' : Pc)
      → s.pc i ≡ p
      → is_keen p ≡ 0
      → is_keen p' ≡ 0
      → is_worker p ≡ 1
      → is_worker p' ≡ 1
      → ((k : ℕ) → p ≡ picked wait (suc k) → pending_items s.manager k ≡ [])
      → After s.manager p'
  misses p p' at keen keen' worker worker' gone =
      passes n i s p' lt (ap is_keen at ∙ keen) keen' (ap is_worker at ∙ worker) worker'
        (λ k e. gone k (sym at ∙ e)) a

  pub by-Move :
      {p p' : Pc} {m' : Manager}
      → s.pc i ≡ p
      → Move s.manager (is_free n s.pc) p m' p'
      → After m' p'
  by-Move at (reads {c = wait}) = picks (ffs s.manager.wqlist_mask) refl
  by-Move at (no_bit {c = wait}) =
      misses (picked wait 0) (missed wait) at refl refl refl refl (λ k e. cc)
  by-Move {m' = m'} at (no_item {c = wait} {i = k} call) =
      let same = same_manager k h.valid call in
      let nil = missed_empty k h.valid call in
      subst (λ x. After x (missed wait)) (sym same)
        (misses (picked wait (suc k)) (missed wait) at refl refl refl refl
          (λ j e. subst (λ x. pending_items s.manager x ≡ []) (ground (arith, e)) nil))
  by-Move at sleeps = misses (missed wait) asleep at refl refl refl refl (λ k e. cc)
  by-Move at (exits {w} e) =
      let (is, null) = exits_lem s.manager _ w e in absurd (ground (arith, null, plain w at))
  by-Move at mv = keen _ refl

-- Without requests to exit, a step of any thread keeps attention on the queues.
pub Step-IsAttended :
    {n : ℕ} {s t : System}
    → Step n false s t
    → SystemInv n s
    → ((i : ℕ) (w : Work) → i < n → s.pc i ≡ got wait w → is_null w.func ≡ false)
    → IsAttended n s
    → IsAttended n t
unfolding worker_start load wake_worker
Step-IsAttended {n} {s} (moves i lt mv) h plain a =
    by-Move n s h i lt (λ w at. plain i w lt at) a refl mv
Step-IsAttended {n} {s} (starts i lt gone) h plain a =
    λ some_item some_worker. inl (omega (arith, keen_attends n i s.pc created lt refl))
Step-IsAttended {s = s} fails h plain a =
    same-IsAttended s (record { items = λ j. refl; valid = Inv-rescored _ _ h.valid }) a
Step-IsAttended {s = s} (tunes runqueue about sem suspend) h plain a =
    same-IsAttended s (record { items = λ j. refl; valid = Inv-rescored _ _ h.valid }) a
Step-IsAttended (stops_one w allowed ask free call sig) h plain a = cc
Step-IsAttended (adds a q w at plain_queue runs call) h plain att =
    λ some_item some_worker. inl (omega arith)
Step-IsAttended {n} {s} (checks e) h plain a = λ some_item some_worker.
    elim (a some_item some_worker) [
      | inl att ↦ elim (dec_lt 0 s.manager.scoreboard.idle) [
        | yes idle ↦ inl (ground (arith, idle))
        | no none_idle ↦
            let keen = all_busy n s.pc (omega (arith, h.counted.idle, none_idle)) some_worker in
            inl (omega (arith, keen))
      ]
      | inr t ↦ inr t
    ]
Step-IsAttended {n} {s} (signals e free sig) h plain a = signal-IsAttended s _ free sig
Step-IsAttended {n} {s} (adds_over b q w at oc) h plain a =
    same-IsAttended s (enqueue_overcommit-Aside b q w h.valid at oc).queues a
Step-IsAttended {n} {s} (creates attr spawns accepted can free call) h plain a =
    same-IsAttended s (create-Grown attr spawns h.valid accepted can call).queues a
Step-IsAttended {n} {s} (takes_over item call) h plain a =
    same-IsAttended s (take_overcommit-Aside item h.valid call).queues a

Reach-IsAttended :
    {n : ℕ} {m0 : Manager} {s : System} → IsFresh n m0 → Reach n false m0 s → IsAttended n s
Reach-IsAttended {n} fresh start = λ some_item some_worker.
    let gone = sum_over-zero is_worker n (λ i. absent) (λ i lt. refl) in
    absurd (omega (arith, gone, some_worker))
Reach-IsAttended fresh (later r st) =
    Step-IsAttended st (Reach-SystemInv fresh r) (held_plain fresh r) (Reach-IsAttended fresh r)

-- From a manager with no workers and no items, and while the manager thread asks no worker to exit,
-- no wake-up is lost, however the threads are interleaved: if there are items in the plain queues
-- and there are workers, then some worker will read the mask again or has an item, or a client has
-- still to look at `idle` or to send its signal, or a worker that holds `wqlist_mtx` has picked a
-- queue with an item. So it never happens that items wait while all workers sleep and no signal is
-- on its way.
pub no_lost_wakeup :
    {n : ℕ} {m0 : Manager} {s : System}
    → IsFresh n m0
    → Reach n false m0 s
    → 0 < queued s.manager
    → 0 < sum_over is_worker n s.pc
    → (0 < sum_over is_keen n s.pc + s.checking + s.signalling) ⊎ IsTaking n s.manager s.pc
no_lost_wakeup fresh r = Reach-IsAttended fresh r

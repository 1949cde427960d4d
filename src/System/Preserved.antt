-- ===== src/System/Preserved.antt =====
-- The invariant of the threads of src/posix/manager.c, step by step.
use libpwq.Prelude.{
  ℕ, ◌+◌, ◌<◌, ◌≡◌, refl, ap, [], ◌∷◌, ◌++◌, Bool, true, arith, update, sum_over, sum_over-update,
  sum_over-zero,
}
use libpwq.Word.{u32_mod}
use libpwq.Workqueue.{Work}
use libpwq.Manager.{Manager}
use libpwq.Manager.Invariant.{Inv, pending_items}
use libpwq.Manager.Pool.{worker_start}
use libpwq.System.{
  Pc, absent, created, Move, freed, is_free, holds, System, Signalled, Step, moves, starts, fails,
  stops_one, adds, checks, signals, adds_over, takes_over, tunes, creates, Reach, start, later,
}
use libpwq.System.Tally.{Move-table}
use libpwq.System.Counters.{
  is_idle, is_worker, is_created, Move-Counted, start-Counted, fail-Counted,
}
use libpwq.Manager.Weigh.{weigh, total-zero}
use libpwq.System.Items.{load, held, load-congr, load-added, Move-Inv, Inv-rescored}
use libpwq.System.Outside.{
  Put, Grown, Aside-Grown, create-Grown, enqueue-Put, stop-Put, enqueue_overcommit-Aside,
  take_overcommit-Aside,
}
use libpwq.System.Invariant.{
  IsCallable, IsPlaced, SystemInv, each-update, Move-IsPlaced, table-IsPlaced, grown-IsPlaced,
  Move-IsCallable, sum_over-Signalled, Signalled-each, Counted-Signalled, Counted-same,
  Move-balance,
}

-- A manager before anything was added: no workers, and no items in the plain queues.
pub record IsFresh (n : ℕ) (m : Manager) : Type 0 where
  pub few : n < u32_mod
  pub valid : Inv m
  pub no_idle : m.scoreboard.idle ≡ 0
  pub no_count : m.scoreboard.count ≡ 0
  pub no_pending : m.pending_thread_create ≡ 0
  pub no_items : (j : ℕ) → pending_items m j ≡ []

pub fresh_load : (f : Work → ℕ) (n : ℕ) (m : Manager) → IsFresh n m → load f m ≡ 0
unfolding load
fresh_load f n m h = total-zero f (pending_items m) (λ j lt. h.no_items j)

fresh-SystemInv :
    (n : ℕ) (m : Manager)
    → IsFresh n m
    → SystemInv n (record {
      manager = m;
      pc = λ i. absent;
      checking = 0;
      signalling = 0;
      failed = 0;
      added = [];
      done = [];
    })
unfolding weigh
fresh-SystemInv n m h = record {
  counted = record {
    few = h.few;
    idle = omega (arith, h.no_idle, none is_idle refl);
    count = omega (arith, h.no_count, none is_worker refl);
    pending = omega (arith, h.no_pending, none is_created refl);
    one = omega (arith, none holds refl);
  };
  valid = h.valid;
  callable = λ i. tt;
  placed = λ i. tt;
  kept = λ f. omega (arith, fresh_load f n m h, none (held f) refl);
}
  where
    none : (w : Pc → ℕ) → w absent ≡ 0 → sum_over w n (λ i. absent) ≡ 0
    none w e = sum_over-zero w n (λ i. absent) (λ i lt. e)

-- A step that only changes the manager, and neither the items in the plain queues nor the counters.
grown-SystemInv :
    {n : ℕ} {s : System} {m' : Manager}
    → SystemInv n s
    → Grown s.manager m'
    → SystemInv n (record s { manager = m' })
grown-SystemInv {n} {s} {m'} h a = record {
  counted = Counted-same h.counted a.scoreboard a.pending;
  valid = a.queues.valid;
  callable = h.callable;
  placed = λ i. grown-IsPlaced s.manager m' a.table (s.pc i) (h.placed i);
  kept = λ f. omega (arith, h.kept f, load-congr f a.queues);
}

-- A signal that comes with a change of the manager or alone.
signal-SystemInv :
    {n : ℕ} {s : System} {pc' : ℕ → Pc} (k : ℕ)
    → SystemInv n s
    → Signalled n s.pc pc'
    → SystemInv n (record s { signalling = k; pc = pc' })
signal-SystemInv {n} {s} k h sig = record {
  counted = Counted-Signalled h.counted sig;
  valid = h.valid;
  callable = Signalled-each IsCallable n sig tt h.callable;
  placed = Signalled-each (IsPlaced s.manager) n sig tt h.placed;
  kept = λ f. omega (arith, h.kept f, sum_over-Signalled (held f) n refl sig);
}

-- An item that is put in a queue.
put-SystemInv :
    {n i : ℕ} {s : System} {m' : Manager} (k : ℕ) (w : Work)
    → SystemInv n s
    → Put s.manager m' i w
    → SystemInv n (record s { manager = m'; checking = k; added = w ∷ s.added })
unfolding weigh
put-SystemInv {n} {i} {s} {m'} k w h p = record {
  counted = Counted-same h.counted p.scores.scoreboard p.scores.pending;
  valid = p.valid;
  callable = h.callable;
  placed = λ j. table-IsPlaced s.manager m' p.scores.table (s.pc j) (h.placed j);
  kept = λ f. omega (arith, h.kept f, load-added f s.manager m' i w p.index_lt p.items);
}

move-SystemInv :
    {n : ℕ} {s : System} (i : ℕ) {m' : Manager} {p' : Pc}
    → i < n
    → SystemInv n s
    → Move s.manager (is_free n s.pc) (s.pc i) m' p'
    → SystemInv n
        (record s { manager = m'; pc = update s.pc i p'; done = freed (s.pc i) p' ++ s.done })
move-SystemInv {n} {s} i {m'} {p'} lt h mv = record {
  counted = Move-Counted h.counted i lt h.valid mv;
  valid = Move-Inv h.valid mv;
  callable =
      each-update IsCallable s.pc i p' h.callable (Move-IsCallable h.valid (h.callable i) mv);
  placed =
      each-update (IsPlaced m') s.pc i p'
        (λ j. table-IsPlaced s.manager m' (Move-table h.valid mv) (s.pc j) (h.placed j))
        (Move-IsPlaced h.valid mv);
  kept = λ f. Move-balance f s.pc s.added s.done lt h.valid mv (h.kept f);
}

start-SystemInv :
    {n : ℕ} {s : System} (i : ℕ)
    → i < n
    → SystemInv n s
    → s.pc i ≡ absent
    → SystemInv n
        (record s { manager = (worker_start true s.manager).0; pc = update s.pc i created })
unfolding worker_start load
start-SystemInv {n} {s} i lt h none_here = record {
  counted = start-Counted h.counted i lt none_here;
  valid = Inv-rescored _ _ h.valid;
  callable = each-update IsCallable s.pc i created h.callable tt;
  placed = each-update (IsPlaced s.manager) s.pc i created h.placed tt;
  kept = λ f.
      let moved = sum_over-update (held f) n s.pc i created lt in
      let here : held f (s.pc i) ≡ 0 = ap (held f) none_here in
      omega (arith, h.kept f, moved, here);
}

-- Every step keeps the invariant.
pub Step-SystemInv :
    {n : ℕ} {stops : Bool} {s t : System} → Step n stops s t → SystemInv n s → SystemInv n t
unfolding worker_start load
Step-SystemInv (moves i lt mv) h = move-SystemInv i lt h mv
Step-SystemInv (starts i lt none_here) h = start-SystemInv i lt h none_here
Step-SystemInv fails h = record {
  counted = fail-Counted h.counted;
  valid = Inv-rescored _ _ h.valid;
  callable = h.callable;
  placed = h.placed;
  kept = h.kept;
}
Step-SystemInv (tunes runqueue about sem suspend) h = record {
  counted = record {
    few = h.counted.few;
    idle = h.counted.idle;
    count = h.counted.count;
    pending = h.counted.pending;
    one = h.counted.one;
  };
  valid = Inv-rescored _ _ h.valid;
  callable = h.callable;
  placed = h.placed;
  kept = h.kept;
}
Step-SystemInv {s = s} (stops_one w allowed ask free call sig) h =
    let (i, p) = stop-Put w h.valid call in
    signal-SystemInv s.signalling (put-SystemInv s.checking w h p) sig
Step-SystemInv {s = s} (adds a q w at plain runs call) h =
    put-SystemInv (s.checking + 1) w h (enqueue-Put a q w h.valid at plain call)
Step-SystemInv (checks e) h = record {
  counted = h.counted;
  valid = h.valid;
  callable = h.callable;
  placed = h.placed;
  kept = h.kept;
}
Step-SystemInv (signals {k} e free sig) h = signal-SystemInv k h sig
Step-SystemInv (adds_over a q w at oc) h =
    grown-SystemInv h (Aside-Grown (enqueue_overcommit-Aside a q w h.valid at oc))
Step-SystemInv (takes_over item call) h =
    grown-SystemInv h (Aside-Grown (take_overcommit-Aside item h.valid call))
Step-SystemInv (creates attr spawns accepted can free call) h =
    grown-SystemInv h (create-Grown attr spawns h.valid accepted can call)

-- It holds in every state that can be reached from a fresh manager.
pub Reach-SystemInv :
    {n : ℕ} {stops : Bool} {m0 : Manager} {s : System}
    → IsFresh n m0
    → Reach n stops m0 s
    → SystemInv n s
Reach-SystemInv {n} {m0 = m0} h start = fresh-SystemInv n m0 h
Reach-SystemInv h (later r st) = Step-SystemInv st (Reach-SystemInv h r)

-- ===== src/Manager/Ramp/Laws.antt =====
-- manager_main: when it starts workers, and how many it stops.
use libpwq.Prelude.{
  ℕ, zero, suc, ◌+◌, ◌-◌, ◌/◌, ◌<◌, ◌≤◌, ◌≡◌, ◌≢◌, refl, ap, ◌∙◌, none, some, List, [], ◌∷◌, not,
  ◌==◌, ◌||◌, ltb, length, if◌then◌else◌, arith, ret, Bool-cases, inl, inr,
}
use libpwq.Word.{u32_mod}
use libpwq.Workqueue.{Work}
use libpwq.Manager.{Manager, Effect, Scoreboard, signal_worker}
use libpwq.Manager.Invariant.{Inv}
use libpwq.Manager.Pool.{worker_start, first_workqueue}
use libpwq.Manager.Pool.Laws.{IsStopped, worker_stop_lem}
use libpwq.Witem.{new_witem}
use libpwq.Manager.Ramp.{
  Idles, steady, manager_round_with, Ramp, Sleep, Readings, posted, timeout, sem_error, ramp_up,
  stop_workers, threads_to_stop, accumulate, ramp_down, manager_wakes, manager_round,
  worker_idle_seconds_threshold,
}

-- What the manager's requests to exit leave alone.
pub record SamePool (m m' : Manager) : Type 0 where
  pub scoreboard : m'.scoreboard ≡ m.scoreboard
  pub pending : m'.pending_thread_create ≡ m.pending_thread_create
  pub table : m'.wqlist ≡ m.wqlist
  pub threshold : m'.worker_idle_threshold ≡ m.worker_idle_threshold

SamePool-trans : {m m1 m2 : Manager} → SamePool m m1 → SamePool m1 m2 → SamePool m m2
SamePool-trans s t = record {
  scoreboard = t.scoreboard ∙ s.scoreboard;
  pending = t.pending ∙ s.pending;
  table = t.table ∙ s.table;
  threshold = t.threshold ∙ s.threshold;
}

stopped-SamePool : {m m' : Manager} {w : Work} {i : ℕ} → IsStopped m m' w i → SamePool m m'
stopped-SamePool s = record {
  scoreboard = ap (λ (x : Manager). x.scoreboard) s.frame;
  pending = ap (λ (x : Manager). x.pending_thread_create) s.frame;
  table = ap (λ (x : Manager). x.wqlist) s.frame;
  threshold = ap (λ (x : Manager). x.worker_idle_threshold) s.frame;
}

-- The loop returns, with one request at most for each round.
pub stop_workers_lem :
    (n i : ℕ) (idle alloc : ℕ → ℕ) {m : Manager} (a : ℕ)
    → Inv m
    → first_workqueue m.wqlist ≡ some a
    → (m' : Manager) × (effects : List Effect) × (stop_workers n i idle alloc m ≡ ret (m', effects))
      × (length effects ≤ n)
      × Inv m'
      × SamePool m m'
unfolding stop_workers
stop_workers_lem zero i idle alloc {m} a v found = (
  m,
  [],
  refl,
  omega arith,
  v,
  record { scoreboard = refl; pending = refl; table = refl; threshold = refl },
)
stop_workers_lem (suc n) i idle alloc {m} a v found =
    elim (Bool-cases (ltb m.worker_idle_threshold (idle i))) [
      | inl many ↦
          let (m1, k, call, s) = worker_stop_lem a (new_witem (alloc i) none 0) v found in
          let one : SamePool m m1 = stopped-SamePool s in
          let (m2, effects, rest, size, valid, same) =
            stop_workers_lem n (i + 1) idle alloc {m = m1} a s.valid (rw (one.table) found) in
          (
            m2,
            signal_worker ∷ effects,
            rw (many, call) (rw rest refl),
            omega (arith, size),
            valid,
            SamePool-trans one same,
          )
      | inr few ↦
          let (m2, effects, rest, size, valid, same) =
            stop_workers_lem n (i + 1) idle alloc a v found in
          (m2, effects, rw few (rw rest refl), omega (arith, size), valid, same)
    ]

-- The idle workers beyond the threshold at the read for the surplus, in 32 bits.
abbrev pub surplus_of : Idles → Manager → ℕ
surplus_of idles m =
    if ltb idles.for_surplus m.worker_idle_threshold
    then u32_mod - (m.worker_idle_threshold - idles.for_surplus)
    else idles.for_surplus - m.worker_idle_threshold

module _ (idles : Idles) (e : Readings) (ramp : Ramp) {m : Manager} (a : ℕ) (v : Inv m)
    (found : first_workqueue m.wqlist ≡ some a) (small_idle : idles.for_surplus < u32_mod)
    (small_threshold : m.worker_idle_threshold < u32_mod) where
  threads_to_stop-le :
      (n : ℕ)
      → (threads_to_stop n idles m ≤ n / worker_idle_seconds_threshold)
        × (threads_to_stop n idles m ≤ surplus_of idles m)
  unfolding threads_to_stop
  threads_to_stop-le n = (ground arith, ground arith)

  -- On the branch that stops workers, whatever it reads of `scoreboard.idle` each time, the manager
  -- returns and keeps the invariant and the pool. On a timeout it asks no more workers to exit than
  -- there are times 15 idle seconds accumulated, and no more than the idle workers beyond the threshold
  -- at the read for the surplus; where fewer are idle at this read the difference wraps round, and the
  -- second bound is 2 ^ 32 less what is missing. Without a timeout it asks none.
  pub ramp_down_lem :
      (ramp' : Ramp) × (m' : Manager) × (effects : List Effect) × (ramp_down idles e ramp m
        ≡ ret (ramp', m', effects))
      × (length effects
          ≤ (if ramp.timed_out then accumulate idles ramp m / worker_idle_seconds_threshold else 0))
      × (length effects ≤ (if ramp.timed_out then surplus_of idles m else 0))
      × Inv m'
      × SamePool m m'
  unfolding ramp_down
  ramp_down_lem = elim (Bool-cases ramp.timed_out) [
    | inl tick ↦ elim (Bool-cases (ltb 0 (acc / worker_idle_seconds_threshold))) [
      | inl enough ↦
          let (m', effects, call, size, valid, same) =
            stop_workers_lem (threads_to_stop acc idles m) 0 idles.before_stop e.alloc a v found in
          (
            record ramp { idle_accumulated = 0 },
            m',
            effects,
            ground (arith, tick, enough, call),
            (let (few, fewer) = threads_to_stop-le acc in ground (arith, tick, size, few)),
            (let (few, fewer) = threads_to_stop-le acc in ground (arith, tick, size, fewer)),
            valid,
            same,
          )
      | inr not_yet ↦ (
        record ramp { idle_accumulated = acc },
        m,
        [],
        ground (arith, tick, not_yet),
        ground arith,
        ground arith,
        v,
        unchanged,
      )
    ]
    | inr early ↦ (ramp, m, [], ground (arith, early), ground arith, ground arith, v, unchanged)
  ]
    where
      acc : ℕ
      acc = accumulate idles ramp m

      unchanged : SamePool m m
      unchanged = record { scoreboard = refl; pending = refl; table = refl; threshold = refl }

-- The branch that starts workers starts at most one, and none beyond the process limit unless a
-- thread was announced to block or the count is below the threshold.
pub ramp_up_lem :
    (e : Readings) (ramp : Ramp) (m : Manager)
    → m.scoreboard.count + 1 < u32_mod
    → m.scoreboard.idle < u32_mod
    → let m' = (ramp_up e ramp m).1 in
      (m.scoreboard.count ≤ m'.scoreboard.count)
      × (m'.scoreboard.count ≤ (
          if not (m.scoreboard.about_to_wait == 0)
            || (ltb m.scoreboard.count m.worker_idle_threshold
                || ltb m.scoreboard.count ramp.worker_max)
          then m.scoreboard.count + 1
          else m.scoreboard.count))
unfolding ramp_up worker_start
ramp_up_lem e ramp m small_count small_idle = ground arith

-- Waking up changes the semaphore only.
pub record Woken (m m' : Manager) : Type 0 where
  valid : Inv m'
  idle : m'.scoreboard.idle ≡ m.scoreboard.idle
  count : m'.scoreboard.count ≡ m.scoreboard.count
  pending : m'.pending_thread_create ≡ m.pending_thread_create
  pub table : m'.wqlist ≡ m.wqlist
  threshold : m'.worker_idle_threshold ≡ m.worker_idle_threshold

pub manager_wakes-Woken :
    (r : Sleep) (ramp : Ramp) {m : Manager} → Inv m → Woken m (manager_wakes r ramp m).1
unfolding manager_wakes
manager_wakes-Woken posted ramp v = record {
  valid = record { normal = v.normal; over = v.over; registered = v.registered };
  idle = refl;
  count = refl;
  pending = refl;
  table = refl;
  threshold = refl;
}
manager_wakes-Woken timeout ramp v = record {
  valid = v;
  idle = refl;
  count = refl;
  pending = refl;
  table = refl;
  threshold = refl;
}
manager_wakes-Woken sem_error ramp v = record {
  valid = v;
  idle = refl;
  count = refl;
  pending = refl;
  table = refl;
  threshold = refl;
}

-- While `pending_thread_create` is not 0 no round of the manager starts a worker, whatever it
-- reads.
pub round_blocked :
    (r : Sleep) (e : Readings) (ramp : Ramp) {m : Manager} (a : ℕ)
    → Inv m
    → first_workqueue m.wqlist ≡ some a
    → m.scoreboard.idle < u32_mod
    → m.worker_idle_threshold < u32_mod
    → m.pending_thread_create ≢ 0
    → (ramp' : Ramp) × (m' : Manager) × (effects : List Effect) × (manager_round r e ramp m
        ≡ ret (ramp', m', effects))
      × (m'.scoreboard.count ≡ m.scoreboard.count)
      × (m'.pending_thread_create ≡ m.pending_thread_create)
unfolding manager_round manager_round_with
round_blocked r e ramp {m} a v found small_idle small_threshold busy =
    let woken = manager_wakes-Woken r ramp v in
    let (ramp', m', effects, call, _, _, _, same) =
      ramp_down_lem (steady m.scoreboard.idle) e (manager_wakes r ramp m).0 a (woken.valid)
        (rw (woken.table) found) small_idle (rw (woken.threshold) small_threshold) in
    (
      ramp',
      m',
      effects,
      ground (arith, call, woken.pending),
      ap (λ (s : Scoreboard). s.count) (same.scoreboard) ∙ woken.count,
      same.pending ∙ woken.pending,
    )

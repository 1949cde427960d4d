-- ===== src/Manager/Ramp.antt =====
-- src/posix/manager.c: manager_main, the thread that sizes the pool. One round of its loop is one
-- function; what other threads do meanwhile enters as `Readings`.
pub mod Laws
use libpwq.Prelude.{
  ℕ, zero, suc, ◌+◌, ◌-◌, ◌/◌, ◌%◌, Option, none, some, List, [], ◌∷◌, ◌++◌, Bool, true, false, not,
  ◌==◌, ◌&&◌, ltb, leb, if◌then◌else◌, Outcome, ret, ◌>>=◌,
}
use libpwq.Word.{u32_mod, dec32}
use libpwq.Witem.{new_witem}
use libpwq.Manager.{Manager, Effect}
use libpwq.Manager.Pool.{worker_start, worker_stop}

-- WORKER_IDLE_SECONDS_THRESHOLD
abbrev pub worker_idle_seconds_threshold : ℕ
worker_idle_seconds_threshold = 15

-- The local variables of manager_main that live from one round to the next; `timed_out` says
-- whether `sem_timedwait_rv` is ETIMEDOUT.
pub record Ramp : Type 0 where
  pub worker_max : ℕ
  pub runqueue_length_max : ℕ
  pub threads_total : ℕ
  pub current_thread_count : ℕ
  pub idle_accumulated : ℕ
  pub timed_out : Bool

-- The minimum of workers; `spawns i` says whether the i-th pthread_create succeeds.
unfoldable pub start_workers : ℕ → ℕ → (ℕ → Bool) → Manager → Manager
start_workers zero i spawns m = m
start_workers (suc n) i spawns m = start_workers n (i + 1) spawns (worker_start (spawns i) m).0

-- manager_main up to its loop: what get_process_limit and get_runqueue_length return.
unfoldable pub manager_begin : ℕ → ℕ → (ℕ → Bool) → Manager → Ramp × Manager
unfolding start_workers
manager_begin limit runqueue spawns m = (
  record {
    worker_max = limit;
    runqueue_length_max = m.cpu_count;
    threads_total = 0;
    current_thread_count = 0;
    idle_accumulated = 0;
    timed_out = false;
  },
  start_workers m.worker_min 0 spawns
      (record m { scoreboard = record (m.scoreboard) { runqueue_length = runqueue } }),
)

-- What sem_timedwait or sem_wait gives: it took the semaphore down, timed out, or failed.
pub data Sleep : Type 0 where
  posted timeout sem_error : Sleep

abbrev pub is_timeout : Sleep → Bool
is_timeout timeout = true
is_timeout _ = false

-- A suspended manager waits with sem_wait, which leaves `sem_timedwait_rv` as it was.
unfoldable pub manager_wakes : Sleep → Ramp → Manager → Ramp × Manager
manager_wakes r ramp m =
    let m' : Manager = elim r [
      | posted ↦ record m {
        scoreboard = record (m.scoreboard) { sb_sem = m.scoreboard.sb_sem - 1 };
      }
      | _ ↦ m
    ] in
    (if m.scoreboard.sb_suspend == 0 then record ramp { timed_out = is_timeout r } else ramp, m')

-- What a round reads beside the scoreboard: threads_runnable (if it succeeds, the running and all
-- threads), get_runqueue_length, `scoreboard.idle` when it is read again after these, whether
-- pthread_create succeeds, and the addresses of the work items that worker_stop allocates.
pub record Readings : Type 0 where
  pub runnable : Option (ℕ × ℕ)
  pub runqueue : ℕ
  pub idle_again : ℕ
  pub spawn : Bool
  pub alloc : ℕ → ℕ

-- The part from `scoreboard.runqueue_length = get_runqueue_length()` on.
unfoldable pub start_if_short : Readings → Ramp → Manager → Manager
start_if_short e ramp m =
    let m' = record m { scoreboard = record (m.scoreboard) { runqueue_length = e.runqueue } } in
    if leb e.runqueue ramp.runqueue_length_max && (e.idle_again == 0)
    then (worker_start e.spawn m').0
    else m'

-- "check if run queue length / stalled threads allows for new creation"
unfoldable pub start_if_measured : Readings → Ramp → Manager → Ramp × Manager
unfolding start_if_short
start_if_measured e ramp m =
    let ramp' : Ramp = elim e.runnable [
      | none ↦ record ramp { current_thread_count = 0 }
      | some (running, total) ↦ record ramp {
        current_thread_count = running;
        threads_total = total;
      }
    ] in
    (ramp', if leb ramp'.current_thread_count m.cpu_count then start_if_short e ramp' m else m)

-- The branch for no idle worker.
unfoldable pub ramp_up : Readings → Ramp → Manager → Ramp × Manager
unfolding start_if_measured
ramp_up e ramp m =
    if not (m.scoreboard.about_to_wait == 0)
    then (
      ramp,
      (worker_start e.spawn (record m {
        scoreboard = record (m.scoreboard) { about_to_wait = dec32 m.scoreboard.about_to_wait };
      })).0,
    )
    else if ltb m.scoreboard.count m.worker_idle_threshold
    then (ramp, (worker_start e.spawn m).0)
    else if ltb m.scoreboard.count ramp.worker_max
    then start_if_measured e ramp m
    else (ramp, m)

-- What the branch that stops workers reads of `scoreboard.idle`, which the workers change meanwhile: in
-- the test, in the sum behind it, for the surplus, and before each stop.
pub record Idles : Type 0 where
  pub tested : ℕ
  pub summed : ℕ
  pub for_surplus : ℕ
  pub before_stop : ℕ → ℕ

-- As long as no worker changes it.
abbrev pub steady : ℕ → Idles
steady idle = record { tested = idle; summed = idle; for_surplus = idle; before_stop = λ i. idle }

-- The loop that stops `n` workers, each only while more than `worker_idle_threshold` are idle.
unfoldable pub stop_workers : ℕ → ℕ → (ℕ → ℕ) → (ℕ → ℕ) → Manager → Outcome (Manager × List Effect)
unfolding new_witem
stop_workers zero i idle alloc m = ret (m, [])
stop_workers (suc n) i idle alloc m = do
  (m', effects) ←
      if ltb m.worker_idle_threshold (idle i)
      then worker_stop m (new_witem (alloc i) none 0)
      else ret (m, [])
  (m'', more) ← stop_workers n (i + 1) idle alloc m'
  ret (m'', effects ++ more)

-- "we have accumulated enough thread 'idle seconds'": how many workers to stop.
unfoldable pub threads_to_stop : ℕ → Idles → Manager → ℕ
threads_to_stop accumulated idles m =
    let wanted = accumulated / worker_idle_seconds_threshold in
    let surplus = (idles.for_surplus + u32_mod - m.worker_idle_threshold) % u32_mod in
    if ltb surplus wanted then surplus else wanted

unfoldable pub accumulate : Idles → Ramp → Manager → ℕ
accumulate idles ramp m =
    if ltb m.worker_idle_threshold idles.tested
    then (ramp.idle_accumulated + idles.summed) % u32_mod
    else 0

-- The other branch, which acts on a timeout only.
unfoldable pub ramp_down :
    Idles → Readings → Ramp → Manager → Outcome (Ramp × Manager × List Effect)
unfolding stop_workers threads_to_stop accumulate
ramp_down idles e ramp m =
    if not ramp.timed_out
    then ret (ramp, m, [])
    else let accumulated = accumulate idles ramp m in
      if ltb 0 (accumulated / worker_idle_seconds_threshold)
      then (do
        (m', effects) ←
            stop_workers (threads_to_stop accumulated idles m) 0 idles.before_stop e.alloc m
        ret (record ramp { idle_accumulated = 0 }, m', effects))
      else ret (record ramp { idle_accumulated = accumulated }, m, [])

-- The test at the top of a round.
abbrev pub wants_worker : Manager → Bool
wants_worker m =
    (m.scoreboard.idle == 0) && (ltb 0 m.scoreboard.count && (m.pending_thread_create == 0))

-- One round of the loop.
unfoldable pub manager_round_with :
    Idles → Sleep → Readings → Ramp → Manager → Outcome (Ramp × Manager × List Effect)
unfolding manager_wakes ramp_up ramp_down
manager_round_with idles r e ramp m =
    let (ramp', m') = manager_wakes r ramp m in
    if wants_worker m'
    then (let (ramp'', m'') = ramp_up e ramp' m' in ret (ramp'', m'', []))
    else ramp_down idles e ramp' m'

-- A round in which no worker changes `scoreboard.idle` while the branch that stops workers reads it.
unfoldable pub manager_round :
    Sleep → Readings → Ramp → Manager → Outcome (Ramp × Manager × List Effect)
unfolding manager_round_with
manager_round r e ramp m = manager_round_with (steady m.scoreboard.idle) r e ramp m

-- ===== src/System/Rounds.antt =====
-- The rounds of manager_main (src/posix/manager.c) among the steps of the threads.
pub mod Up
pub mod Down
use libpwq.Prelude.{
  ◌/◌, ◌+◌, ◌-◌, ◌≡◌, ◌∙◌, ◌++◌, ◌==◌, ◌&&◌, ◌||◌, not, ltb, if◌then◌else◌, Bool, ◌>>=◌,
}
use libpwq.Manager.{Manager}
use libpwq.Manager.Ramp.{Ramp, wants_worker}
use libpwq.System.{System, retuned}

abbrev woken : System → System
woken s = record s {
  manager =
      retuned s.manager.scoreboard.runqueue_length s.manager.scoreboard.about_to_wait
        (s.manager.scoreboard.sb_sem - 1) s.manager.scoreboard.sb_suspend s.manager;
}

-- Where the round must start a worker: no worker is idle, there are some, none is pending, and a worker
-- was announced to block or there are fewer than the threshold.
abbrev pub must_start : Manager → Bool
must_start m =
    wants_worker m
    && (not (m.scoreboard.about_to_wait == 0) || ltb m.scoreboard.count m.worker_idle_threshold)

-- And then one is pending.
abbrev pub HasStarted : Manager → Manager → Type 0
HasStarted m m' = if must_start m then m'.pending_thread_create ≡ 1 else Unit {0}

-- ===== src/System/Empty.antt =====
-- src/posix/manager.c when the last worker is gone.
use libpwq.Prelude.{ℕ, ◌≡◌, refl, [], Bool, false, ret, arith, sum_over, inl, inr, Bool-cases}
use libpwq.Manager.{Manager}
use libpwq.Manager.Ramp.{
  steady, manager_round_with, Ramp, Sleep, posted, timeout, sem_error, Readings, manager_wakes,
  ramp_down, accumulate, wants_worker, manager_round,
}
use libpwq.System.{System, Reach}
use libpwq.System.Counters.{is_worker}
use libpwq.System.Preserved.{IsFresh}
use libpwq.System.Safety.{scoreboard_counts}

idles :
    (e : Readings) (ramp : Ramp) (m : Manager) (idle : ℕ)
    → idle ≡ 0
    → (ramp' : Ramp) × (ramp_down (steady idle) e ramp m ≡ ret (ramp', m, []))
unfolding ramp_down accumulate
idles e ramp m idle none_idle = elim (Bool-cases ramp.timed_out) [
  | inr early ↦ (ramp, rw (ramp_down, early) refl)
  | inl tick ↦ (record ramp { idle_accumulated = 0 }, ground (arith, tick, none_idle))
]

-- When all workers of a pool are gone, the manager thread never starts another one: in every state
-- that the threads reach from a manager with no workers and no items, and in which there is no
-- worker, each round of manager_main returns, and all that it does to the manager is to take its own
-- semaphore down, whatever it reads and however many items are queued.
pub empty_pool_stays :
    {n : ℕ} {stops : Bool} {m0 : Manager} {s : System}
    → IsFresh n m0
    → Reach n stops m0 s
    → sum_over is_worker n s.pc ≡ 0
    → (sl : Sleep) (e : Readings) (ramp : Ramp)
    → (ramp' : Ramp) × (manager_round sl e ramp s.manager
        ≡ ret (ramp', (manager_wakes sl ramp s.manager).1, []))
unfolding manager_round manager_round_with manager_wakes
empty_pool_stays {s = s} fresh r nobody sl e ramp =
    let (_, count, fewer, _) = scoreboard_counts fresh r in
    let none_idle : s.manager.scoreboard.idle ≡ 0 = omega (arith, count, fewer, nobody) in
    let (ramp', call) =
      idles e (manager_wakes sl ramp s.manager).0 (manager_wakes sl ramp s.manager).1
        s.manager.scoreboard.idle none_idle in
    let content : wants_worker (manager_wakes sl ramp s.manager).1 ≡ false =
      ground (arith, same_count sl ramp s.manager, count, nobody) in
    (ramp', rw content call)
  where
    same_count :
        (sl : Sleep) (ramp : Ramp) (m : Manager)
        → (manager_wakes sl ramp m).1.scoreboard.count ≡ m.scoreboard.count
    same_count posted ramp m = refl
    same_count timeout ramp m = refl
    same_count sem_error ramp m = refl

-- ===== src/Manager/Control.antt =====
-- src/posix/manager.c: manager_suspend, manager_resume, manager_signal and manager_peek.
pub mod Laws
use Prim.Native.String.{String}
use text.Mathlib.Text.{◌==◌ as str_eq}
use libpwq.Prelude.{
  ℕ, ◌+◌, ◌-◌, ◌%◌, ◌^◌, List, [], ◌∷◌, ◌==◌, ltb, if◌then◌else◌, Outcome, ret, aborts, waits,
  ◌>>=◌,
}
use libpwq.Word.{inc32}
use libpwq.Manager.{Manager}
use libpwq.Manager.Pool.{post}

-- The waiting loop of manager_suspend, over the values of `wqlist_has_manager` that it reads.
unfoldable pub await_manager : List ℕ → Outcome (Unit {0})
await_manager [] = waits
await_manager (n ∷ rest) = if n == 0 then await_manager rest else ret tt

unfoldable pub manager_suspend : List ℕ → Manager → Outcome Manager
unfolding await_manager
manager_suspend reads m = await_manager reads >>= λ _. ret (
    if m.scoreboard.sb_suspend == 0
    then record m { scoreboard = record (m.scoreboard) { sb_suspend = 1 } }
    else m)

unfoldable pub manager_resume : Manager → Manager
manager_resume m =
    if m.scoreboard.sb_suspend == 0
    then m
    else post (record m { scoreboard = record (m.scoreboard) { sb_suspend = 0 } })

unfoldable pub manager_signal : Manager → Manager
manager_signal m = post (record m {
  scoreboard = record (m.scoreboard) {
    sb_suspend = 0;
    about_to_wait = inc32 m.scoreboard.about_to_wait;
  };
})

-- What manager_peek reads of `scoreboard.idle`, which the workers change meanwhile: into `rv`, and in
-- its two tests.
pub record Peeks : Type 0 where
  pub read : ℕ
  pub tested : ℕ
  pub tested_again : ℕ

-- The idle workers beyond those that the pool keeps; `rv` is a `uint64_t`.
unfoldable pub surplus_idle : Peeks → Manager → ℕ
surplus_idle p m =
    if ltb m.worker_idle_threshold p.tested
    then (p.read + 2 ^ 64 - m.worker_idle_threshold) % 2 ^ 64
    else if ltb m.worker_min p.tested_again
    then (p.read + 2 ^ 64 - m.worker_min) % 2 ^ 64
    else p.read

-- The key is compared by strcmp, and an unknown one ends the process.
unfoldable pub manager_peek : Peeks → Manager → String → Outcome ℕ
unfolding surplus_idle
manager_peek p m key =
    if str_eq key "combined_idle"
    then ret ((surplus_idle p m + m.ocwq_idle_threads) % 2 ^ 64)
    else if str_eq key "idle"
    then ret (surplus_idle p m)
    else if str_eq key "ocomm_idle"
    then ret m.ocwq_idle_threads
    else aborts

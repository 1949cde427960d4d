-- ===== src/Manager/Control/Laws.antt =====
-- Suspending, resuming and peeking.
use libpwq.Prelude.{
  ap, ℕ, ◌+◌, ◌<◌, ◌≤◌, ◌≡◌, ◌≢◌, inl, inr, refl, List, ◌∷◌, false, ◌==◌, ltb, if◌then◌else◌, arith,
  Bool-cases, ret, waits,
}
use libpwq.Word.{u32_mod}
use libpwq.Manager.{Manager}
use libpwq.Manager.Control.{
  await_manager, manager_suspend, manager_resume, Peeks, surplus_idle, manager_peek,
}

-- Once there is a manager thread, manager_suspend returns and the flag is set; manager_resume then
-- clears it and posts the semaphore once, and a second manager_resume does nothing.
pub resume-suspend :
    (n : ℕ) (rest : List ℕ) (m : Manager)
    → n ≢ 0
    → (m' : Manager) × (manager_suspend (n ∷ rest) m ≡ ret m')
      × ((m'.scoreboard.sb_suspend == 0) ≡ false)
      × ((manager_resume m').scoreboard.sb_suspend ≡ 0)
      × ((manager_resume m').scoreboard.sb_sem ≡ m.scoreboard.sb_sem + 1)
      × (manager_resume (manager_resume m') ≡ manager_resume m')
unfolding manager_suspend manager_resume
resume-suspend n rest m ready = (
  if m.scoreboard.sb_suspend == 0
      then record m { scoreboard = record (m.scoreboard) { sb_suspend = 1 } }
      else m,
  ground arith,
  ground arith,
  ground arith,
  ground arith,
  ground arith,
)

-- manager_suspend waits as long as there is no manager thread.
pub suspend_waits :
    (reads : List ℕ) (m : Manager) → await_manager reads ≡ waits → manager_suspend reads m ≡ waits
unfolding manager_suspend
suspend_waits reads m h = rw h refl

-- As long as the reads of `scoreboard.idle` in the tests find no more idle workers than the one
-- before, manager_peek reports no more than these as idle, and the subtraction of the workers to keep
-- does not wrap; the combined count is the sum of the other two.
pub peek_lem :
    (p : Peeks) (m : Manager)
    → p.read < u32_mod
    → p.tested ≤ p.read
    → p.tested_again ≤ p.read
    → m.ocwq_idle_threads < u32_mod
    → (n k : ℕ) × (manager_peek p m "idle" ≡ ret n)
      × (manager_peek p m "ocomm_idle" ≡ ret k)
      × (manager_peek p m "combined_idle" ≡ ret (n + k))
      × (n ≤ p.read)
      × (if ltb m.worker_idle_threshold p.tested
          then n + m.worker_idle_threshold ≡ p.read
          else (if ltb m.worker_min p.tested_again then n + m.worker_min ≡ p.read else n ≡ p.read))
unfolding manager_peek surplus_idle
peek_lem p m small fewer fewer_again small_oc =
    let exact : if ltb m.worker_idle_threshold p.tested
        then surplus_idle p m + m.worker_idle_threshold ≡ p.read
        else (if ltb m.worker_min p.tested_again
            then surplus_idle p m + m.worker_min ≡ p.read
            else surplus_idle p m ≡ p.read) =
      elim (Bool-cases (ltb m.worker_idle_threshold p.tested)) [
        | inl above ↦ rw above (ground (arith, above, fewer, small))
        | inr below ↦ rw below (elim (Bool-cases (ltb m.worker_min p.tested_again)) [
          | inl over_min ↦ rw over_min (ground (arith, below, over_min, fewer_again, small))
          | inr few ↦ rw few (ground (arith, below, few))
        ])
      ] in
    let most : surplus_idle p m ≤ p.read = ground (arith, small, fewer, fewer_again) in
    (
      surplus_idle p m,
      m.ocwq_idle_threads,
      refl,
      refl,
      ap ret (omega (arith, most, small, small_oc)),
      most,
      exact,
    )

-- ===== src/Tests/Xp.antt =====
-- The manager for Windows XP with two workqueues: an item comes to the workqueue that a scan passed.
use libpwq.Prelude.{
  true, false, List, ◌++◌, ℕ, ◌+◌, ◌<◌, ◌≡◌, ◌⊎◌, refl, some, [], ◌∷◌, update, sum_over, arith,
}
use libpwq.Workqueue.{Work}
use libpwq.Windows.Legacy.{Legacy, manager_init, manager_workqueue_create, insert_in}
use libpwq.Windows.Legacy.Sums.{sum_all, items_of}
use libpwq.Windows.Legacy.Scans.{
  resting, scanning, running, scan_on, look_lists, is_past, Scans, Reach, start, later, creates,
  inserts, makes, queues_call, begins, looks,
}
use libpwq.Windows.Legacy.Scans.Rest.{size}
use libpwq.Windows.Legacy.Scans.Finds.{scan_finds}
use libpwq.Pool.{Act}
use libpwq.Windows.Legacy.Scans.Refine.{pool_of, legacy_pool_refines}
use libpwq.Tests.Fixtures.{plain_queue, work_64, work_128}

-- The scan of thread 0 passed the workqueue at 32 before the second item came to it.
abbrev behind_one : Scans
behind_one = record {
  manager = record {
    wqlist =
        []
        ∷ ((32, record plain_queue { item_listhead = work_128 ∷ [] })
            ∷ (16, record plain_queue { item_listhead = work_64 ∷ [] })
            ∷ [])
        ∷ []
        ∷ []
        ∷ []
        ∷ []
        ∷ [];
  };
  making = update (update (update (update (λ a. false) 16 true) 16 false) 32 true) 32 false;
  callbacks = 0;
  adding = 1;
  thread = update (update (λ i. resting) 0 (scanning 0)) 0 (scanning 1);
  added = work_128 ∷ work_64 ∷ [];
  done = [];
}

behind_one-Reach : Reach 2 behind_one
unfolding manager_init manager_workqueue_create insert_in scan_on look_lists sum_all sum_over
behind_one-Reach =
    let r1 = later start (creates 16 plain_queue refl refl refl refl) in
    let r2 = later r1 (makes 16 refl) in
    let r3 = later r2 (creates 32 plain_queue refl refl refl refl) in
    let r4 = later r3 (makes 32 refl) in
    let r5 = later r4 (inserts 16 work_64 refl (omega arith) refl) in
    let r6 = later r5 (queues_call refl) in
    let r7 = later r6 (begins 0 (omega arith) refl refl) in
    let r8 = later r7 (looks 0 0 (omega arith) refl (λ a e. ground (arith, e)) refl) in
    later r8 (inserts 32 work_128 refl (omega arith) refl)

scan_finds_example :
    (sum_all (items_of (λ w. 1)) behind_one.manager.wqlist
      ≡ behind_one.callbacks + behind_one.adding + sum_over (is_past 0) 2 behind_one.thread)
    × (((scan_on 1 behind_one.manager ≡ (behind_one.manager, scanning 2))
          × (2 < size behind_one.manager.wqlist))
        ⊎ ((s : Legacy) × (w : Work) × (f : ℕ) × (scan_on 1 behind_one.manager ≡ (s, running w))
            × (w.func ≡ some f)))
scan_finds_example = scan_finds behind_one-Reach 0 1 (omega arith) refl

-- The client then queues the call for the second item.
abbrev call_queued : Scans
call_queued = record behind_one { adding = 0; callbacks = 1 }

legacy_pool_refines_example :
    (ws : List Work) × (call_queued.added ≡ ws ++ behind_one.added)
    × Act (pool_of 2 behind_one) ws (pool_of 2 call_queued)
legacy_pool_refines_example = legacy_pool_refines behind_one-Reach (queues_call refl)

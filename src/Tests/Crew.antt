-- ===== src/Tests/Crew.antt =====
-- The overcommit threads at work: one runs an item, a second one is not to be had for the next item.
use libpwq.Prelude.{
  List, ◌++◌, ℕ, ◌+◌, ◌<◌, ◌≤◌, ◌≡◌, refl, [], ◌∷◌, arith, update, sum_over, inl, inr, ◌∙◌, sym,
}
use libpwq.Word.{ffs, set_bit, clear_bit, bit}
use libpwq.Workqueue.{Work, Workqueue}
use libpwq.Manager.{Manager}
use libpwq.Manager.Additem.{enqueue_overcommit}
use libpwq.Manager.Overcommit.{take_overcommit}
use libpwq.Manager.Weigh.{weigh, total}
use libpwq.Word.Ffs.{ffs_zero}
use libpwq.Manager.Invariant.{Inv, overcommit_items, overcommit-lt}
use libpwq.Manager.Scan.Priority.{List-cases, nil_of_empty}
use libpwq.Crew.{
  absent, looking, busy, Crew, looks, returns, adds_thread, adds_alone, look, Reach, start, later,
}
use libpwq.Crew.Weights.{is_looking, is_roused, is_waiting, held, over, queued}
use libpwq.Crew.Safety.{IsFresh, overcommit_kept, overcommit_served, overcommit_counts}
use libpwq.Crew.Drain.{Drained, overcommit_drains}
use libpwq.Pool.{Act}
use libpwq.Crew.Refine.{pool_of, overcommit_pool_refines}
use libpwq.Tests.Fixtures.{two_queues, two_queues-Inv, over_queue, work_64, work_128}

-- One item is in the overcommit queue.
abbrev one_over : Manager
one_over = (enqueue_overcommit two_queues 1 over_queue work_128).0

abbrev full_queue : Workqueue
full_queue = record over_queue { item_listhead = work_64 ∷ [] }

abbrev runs_one : Crew
runs_one = record {
  manager = two_queues;
  place = update (update (λ i. absent) 0 looking) 0 (busy work_128);
  failed = 0;
  added = work_128 ∷ [];
  done = [];
}

abbrev one_stranded : Crew
one_stranded = record runs_one {
  manager = (enqueue_overcommit two_queues 1 over_queue work_64).0;
  failed = 1;
  added = work_64 ∷ work_128 ∷ [];
}

-- Nothing is queued while the mask is 0.
none_queued : (m : Manager) → Inv m → ffs m.ocwq_mask ≡ 0 → (j : ℕ) → overcommit_items m j ≡ []
none_queued m v e j = elim (List-cases (overcommit_items m j)) [
  | inl nil ↦ nil
  | inr (x, rest, holds) ↦
      let lt = overcommit-lt v j x rest holds in
      nil_of_empty (overcommit_items m j)
        (sym (v.over.pending j (omega (arith, lt))) ∙ ffs_zero m.ocwq_mask j e (omega (arith, lt)))
]

none_set : ffs 0 ≡ 0
unfolding ffs
none_set = refl

two_queues-IsFresh : IsFresh 2 two_queues
two_queues-IsFresh = record {
  few = omega arith;
  valid = two_queues-Inv;
  no_idle = refl;
  no_signals = refl;
  no_items = λ j. none_queued two_queues two_queues-Inv none_set j;
}

zero_lt : 0 < 2
zero_lt = omega arith

runs_there : Reach 2 two_queues runs_one
unfolding enqueue_overcommit look take_overcommit ffs set_bit clear_bit bit
runs_there =
    later (later start (adds_thread 1 0 over_queue work_128 refl refl refl zero_lt refl))
      (looks 0 zero_lt refl refl)

stranded_there : Reach 2 two_queues one_stranded
unfolding enqueue_overcommit
stranded_there = later runs_there (adds_alone 1 over_queue work_64 refl refl refl)

overcommit_kept_example :
    weigh (λ w. w.handle) (work_64 ∷ work_128 ∷ [])
    ≡ over (λ w. w.handle) one_stranded.manager
      + sum_over (held (λ w. w.handle)) 2 one_stranded.place
      + weigh (λ w. w.handle) []
overcommit_kept_example = overcommit_kept two_queues-IsFresh stranded_there (λ w. w.handle)

overcommit_served_example :
    (queued one_stranded.manager
      ≤ sum_over is_looking 2 one_stranded.place + sum_over is_roused 2 one_stranded.place + 1)
    × (queued one_stranded.manager ≤ sum_over is_looking 2 one_stranded.place + 0 + 1)
    × (0 ≤ sum_over is_roused 2 one_stranded.place)
unfolding enqueue_overcommit
overcommit_served_example = overcommit_served two_queues-IsFresh stranded_there

overcommit_counts_example :
    (0 + 0 ≡ sum_over is_waiting 2 one_stranded.place)
    × (0 ≤ sum_over is_waiting 2 one_stranded.place)
    × (0 ≤ 2)
unfolding enqueue_overcommit
overcommit_counts_example = overcommit_counts two_queues-IsFresh stranded_there

-- While pthread_create fails for an item, and the thread that is there runs on, the item waits with
-- nobody to look for it.
stranded :
    (queued one_stranded.manager ≡ 1)
    × (sum_over is_looking 2 one_stranded.place ≡ 0)
    × (one_stranded.manager.ocwq_signal_count ≡ 0)
unfolding enqueue_overcommit total weigh sum_over
stranded = (refl, refl, refl)

-- The next item comes with a second thread.
abbrev two_threads : Crew
two_threads = record runs_one {
  manager = (enqueue_overcommit two_queues 1 over_queue work_64).0;
  place = update runs_one.place 1 looking;
  added = work_64 ∷ work_128 ∷ [];
}

two_there : Reach 2 two_queues two_threads
unfolding enqueue_overcommit
two_there = later runs_there (adds_thread 1 1 over_queue work_64 refl refl refl (omega arith) refl)

overcommit_drains_example : Drained 2 two_threads
overcommit_drains_example = overcommit_drains two_queues-IsFresh two_there refl

-- The function that runs returns.
abbrev one_returned : Crew
one_returned = record one_stranded {
  place = update one_stranded.place 0 looking;
  done = work_128 ∷ [];
}

overcommit_pool_refines_example :
    (ws : List Work) × (one_returned.added ≡ ws ++ one_stranded.added)
    × Act (pool_of 2 one_stranded) ws (pool_of 2 one_returned)
overcommit_pool_refines_example =
    overcommit_pool_refines two_queues-IsFresh stranded_there (returns 0 work_128 zero_lt refl)

-- ===== src/Crew/Safety.antt =====
-- The overcommit threads of src/posix/manager.c in any order: their counters, their items, and who
-- is there for an item.
use libpwq.Prelude.{ℕ, ◌+◌, ◌<◌, ◌≤◌, ◌≡◌, refl, [], arith, sum_over, sum_over-le, sum_over-zero}
use libpwq.Word.{u32_mod}
use libpwq.Workqueue.{Work}
use libpwq.Manager.{Manager}
use libpwq.Manager.Invariant.{Inv, overcommit_items}
use libpwq.Manager.Weigh.{weigh, total-zero}
use libpwq.Crew.{Place, absent, Crew, Reach, start, later}
use libpwq.Crew.Invariant.{CrewInv}
use libpwq.Crew.Turns.{Step-CrewInv}
use libpwq.Crew.Weights.{is_looking, is_waiting, is_roused, held, over, queued}

-- A manager before any overcommit item: no overcommit threads and no items in overcommit queues.
pub record IsFresh (n : ℕ) (m : Manager) : Type 0 where
  pub few : n < u32_mod
  pub valid : Inv m
  pub no_idle : m.ocwq_idle_threads ≡ 0
  pub no_signals : m.ocwq_signal_count ≡ 0
  pub no_items : (j : ℕ) → overcommit_items m j ≡ []

start-CrewInv :
    (n : ℕ) (m : Manager)
    → IsFresh n m
    → CrewInv n (record { manager = m; place = λ i. absent; failed = 0; added = []; done = [] })
unfolding weigh
start-CrewInv n m h = record {
  few = h.few;
  valid = h.valid;
  accounted = omega (arith, h.no_idle, h.no_signals, none is_waiting refl);
  served = omega (arith, empty (λ w. 1));
  heard = omega (arith, h.no_signals);
  kept = λ f. omega (arith, empty f, none (held f) refl);
}
  where
    none : (w : Place → ℕ) → w absent ≡ 0 → sum_over w n (λ i. absent) ≡ 0
    none w e = sum_over-zero w n (λ i. absent) (λ i lt. e)

    empty : (f : Work → ℕ) → over f m ≡ 0
    empty f = total-zero f (overcommit_items m) (λ j lt. h.no_items j)

pub Reach-CrewInv : {n : ℕ} {m0 : Manager} {c : Crew} → IsFresh n m0 → Reach n m0 c → CrewInv n c
Reach-CrewInv {n} {m0 = m0} h start = start-CrewInv n m0 h
Reach-CrewInv h (later r st) = Step-CrewInv st (Reach-CrewInv h r)

module _ {n : ℕ} {m0 : Manager} {c : Crew} (fresh : IsFresh n m0) (r : Reach n m0 c) where
  abbrev inv : CrewInv n c
  inv = Reach-CrewInv fresh r

  -- Fewer than 2 ^ 32 threads start from a well-formed manager with no overcommit threads and no
  -- items in overcommit queues. In every state that they reach no item of an overcommit queue is lost
  -- and none is run twice: for every weight of items, those that were added weigh as much as those
  -- that are queued, that a thread runs, and whose function has returned.
  pub overcommit_kept :
      (f : Work → ℕ)
      → weigh f c.added ≡ over f c.manager + sum_over (held f) n c.place + weigh f c.done
  overcommit_kept f = inv.kept f

  -- Fewer than 2 ^ 32 threads start from a well-formed manager with no overcommit threads and no
  -- items in overcommit queues. In every state that they reach an item of an overcommit queue does
  -- not wait for another one to end: there are at least as many threads about to look for an item, or
  -- unblocked by a pthread_cond_signal, as there are items queued, but for one each time that
  -- pthread_create failed; and `ocwq_signal_count`, which keeps those threads from leaving, makes up
  -- for the threads that do not look yet and is no more than those that a signal unblocked.
  pub overcommit_served :
      (queued c.manager ≤ sum_over is_looking n c.place + sum_over is_roused n c.place + c.failed)
      × (queued c.manager ≤ sum_over is_looking n c.place + c.manager.ocwq_signal_count + c.failed)
      × (c.manager.ocwq_signal_count ≤ sum_over is_roused n c.place)
  overcommit_served = (omega (arith, inv.served, inv.heard), inv.served, inv.heard)

  -- Fewer than 2 ^ 32 threads start from a well-formed manager with no overcommit threads and no
  -- items in overcommit queues. In every state that they reach `ocwq_idle_threads` and
  -- `ocwq_signal_count` make up the threads that wait, so that neither has wrapped round, and every
  -- signal has a thread that waits to receive it.
  pub overcommit_counts :
      (c.manager.ocwq_idle_threads + c.manager.ocwq_signal_count ≡ sum_over is_waiting n c.place)
      × (c.manager.ocwq_signal_count ≤ sum_over is_waiting n c.place)
      × (c.manager.ocwq_idle_threads ≤ n)
  overcommit_counts =
      let most = sum_over-le is_waiting (λ p. ground arith) n c.place in
      (inv.accounted, omega (arith, inv.accounted), omega (arith, inv.accounted, most))

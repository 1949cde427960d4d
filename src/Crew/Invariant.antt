-- ===== src/Crew/Invariant.antt =====
-- The overcommit threads of src/posix/manager.c in any order: what every step keeps of their counters,
-- their items, and who is there for an item.
use libpwq.Prelude.{
  zero, suc, ◌≢◌, ℕ, ◌+◌, ◌<◌, ◌≤◌, ◌≡◌, refl, ◌∷◌, arith, update, sum_over, sum_over-update,
  sum_over-le,
}
use libpwq.Word.{u32_mod, dec32}
use libpwq.Workqueue.{Work}
use libpwq.Manager.{Manager}
use libpwq.Manager.Invariant.{Inv}
use libpwq.Manager.Weigh.{weigh}
use libpwq.Crew.{Place, absent, looking, busy, waiting, roused, Crew}
use libpwq.Crew.Weights.{Inv-counted, is_looking, is_waiting, is_roused, held, over, queued, Looked}
use libpwq.Crew.Adding.{Apart, over-Apart}

pub record CrewInv (n : ℕ) (c : Crew) : Type 0 where
  pub few : n < u32_mod
  pub valid : Inv c.manager
  pub accounted :
      c.manager.ocwq_idle_threads + c.manager.ocwq_signal_count ≡ sum_over is_waiting n c.place
  pub served :
      queued c.manager ≤ sum_over is_looking n c.place + c.manager.ocwq_signal_count + c.failed
  pub heard : c.manager.ocwq_signal_count ≤ sum_over is_roused n c.place
  pub kept :
      (f : Work → ℕ)
      → weigh f c.added ≡ over f c.manager + sum_over (held f) n c.place + weigh f c.done

-- Thread `i` goes from `p` to `p'`.
pub record Mover (n : ℕ) (place : ℕ → Place) (i : ℕ) (p p' : Place) : Type 0 where
  pub lookers :
      sum_over is_looking n (update place i p') + is_looking p
      ≡ sum_over is_looking n place + is_looking p'
  pub waiters :
      sum_over is_waiting n (update place i p') + is_waiting p
      ≡ sum_over is_waiting n place + is_waiting p'
  pub roused_ones :
      sum_over is_roused n (update place i p') + is_roused p
      ≡ sum_over is_roused n place + is_roused p'
  pub items :
      (f : Work → ℕ)
      → sum_over (held f) n (update place i p') + held f p ≡ sum_over (held f) n place + held f p'
  pub most : sum_over is_waiting n (update place i p') ≤ n

pub mover : (n : ℕ) (place : ℕ → Place) (i : ℕ) (p' : Place) → i < n → Mover n place i (place i) p'
mover n place i p' lt = record {
  lookers = sum_over-update is_looking n place i p' lt;
  waiters = sum_over-update is_waiting n place i p' lt;
  roused_ones = sum_over-update is_roused n place i p' lt;
  items = λ f. sum_over-update (held f) n place i p' lt;
  most = sum_over-le is_waiting (λ p. ground arith) n (update place i p');
}

-- A thread that looks, after `lost` signals were counted down.
pub looked :
    {n : ℕ} {c : Crew} {i : ℕ} {m' : Manager} {p p' : Place} (k : ℕ)
    → CrewInv n c
    → Mover n c.place i p p'
    → c.manager.ocwq_signal_count ≡ k + is_waiting p
    → is_looking p + is_waiting p ≡ 1
    → ((f : Work → ℕ) → held f p ≡ 0)
    → Looked (record c.manager { ocwq_signal_count = k }) m' p'
    → CrewInv n (record c { manager = m'; place = update c.place i p' })
looked {n} {c} {i} {m'} {p} {p'} k h f signals there nothing_held l = record {
  few = h.few;
  valid = l.valid;
  accounted =
      let small : is_waiting p' ≤ 1 = ground arith in
      ground (arith, l.idle, l.signals, h.accounted, f.waiters, f.most, h.few, small, signals);
  served = omega (arith, l.fewer, l.signals, l.settled, h.served, f.lookers, signals, there);
  heard =
      let waits_too : is_roused p ≤ is_waiting p = ground arith in
      omega (arith, h.heard, l.signals, l.unroused, f.roused_ones, signals, waits_too);
  kept = λ g. omega (arith, h.kept g, f.items g, l.moved g, nothing_held g);
}

-- A section that leaves the overcommit queues and their counters alone.
pub apart :
    {n : ℕ} {c : Crew} {m' : Manager}
    → CrewInv n c
    → Apart c.manager m'
    → CrewInv n (record c { manager = m' })
apart h a = record {
  few = h.few;
  valid = a.valid;
  accounted = omega (arith, h.accounted, a.idle, a.signals);
  served = omega (arith, h.served, over-Apart (λ w. 1) a, a.signals);
  heard = omega (arith, h.heard, a.signals);
  kept = λ f. omega (arith, h.kept f, over-Apart f a);
}

-- An item is put in a queue, and a thread is signalled, or created, or not to be had.
pub added :
    {n : ℕ} {c : Crew} {m' : Manager} (place : ℕ → Place) (failed : ℕ) (w : Work)
    → CrewInv n c
    → ((f : Work → ℕ) → over f m' ≡ over f c.manager + f w)
    → Inv m'
    → m'.ocwq_idle_threads + m'.ocwq_signal_count ≡ sum_over is_waiting n place
    → sum_over is_looking n c.place + c.manager.ocwq_signal_count + c.failed + 1
      ≤ sum_over is_looking n place + m'.ocwq_signal_count + failed
    → m'.ocwq_signal_count ≤ sum_over is_roused n place
    → ((f : Work → ℕ) → sum_over (held f) n place ≡ sum_over (held f) n c.place)
    → CrewInv n (record c { manager = m'; place = place; failed = failed; added = w ∷ c.added })
unfolding weigh
added place failed w h moved valid accounted more heard same = record {
  few = h.few;
  valid = valid;
  accounted = accounted;
  served = omega (arith, h.served, moved (λ w. 1), more);
  heard = heard;
  kept = λ f. omega (arith, h.kept f, moved f, same f);
}

-- A thread that exits, with no signal pending.
pub left :
    {n : ℕ} {c : Crew} {i : ℕ} {p : Place}
    → CrewInv n c
    → Mover n c.place i p absent
    → is_waiting p ≡ 1
    → is_looking p ≡ 0
    → ((f : Work → ℕ) → held f p ≡ 0)
    → c.manager.ocwq_signal_count ≡ 0
    → CrewInv n (record c {
      manager = record c.manager { ocwq_idle_threads = dec32 c.manager.ocwq_idle_threads };
      place = update c.place i absent;
    })
left {n} {c} {i} h f waits not_looking nothing_held none_there = record {
  few = h.few;
  valid = Inv-counted _ _ h.valid;
  accounted =
      let before = sum_over-le is_waiting (λ p. ground arith) n c.place in
      omega (arith, h.accounted, f.waiters, waits, h.few, none_there, before);
  served = omega (arith, h.served, f.lookers, not_looking, none_there);
  heard = omega (arith, none_there);
  kept = λ g. omega (arith, h.kept g, f.items g, nothing_held g);
}

waiting_roused : (p : Place) → p ≢ waiting → is_waiting p ≡ is_roused p
waiting_roused absent ne = refl
waiting_roused looking ne = refl
waiting_roused (busy w) ne = refl
waiting_roused waiting ne = absurd (ne refl)
waiting_roused roused ne = refl

-- Where nobody waits, those in pthread_cond_timedwait are all unblocked.
pub all_waiting_roused :
    (n : ℕ) (place : ℕ → Place)
    → ((i : ℕ) → i < n → place i ≢ waiting)
    → sum_over is_waiting n place ≡ sum_over is_roused n place
unfolding sum_over
all_waiting_roused zero place nobody = refl
all_waiting_roused (suc n) place nobody = omega (
  arith,
  waiting_roused (place n) (nobody n (omega arith)),
  all_waiting_roused n place (λ i lt. nobody i (omega arith)),
)

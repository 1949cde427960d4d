-- ===== src/Crew/Turns.antt =====
-- The overcommit threads of src/posix/manager.c in any order: each step keeps the invariant.
use libpwq.Prelude.{ret, ℕ, ◌+◌, ◌-◌, ◌<◌, ◌≡◌, refl, subst, arith, update, sum_over-le}
use libpwq.Workqueue.{Work}
use libpwq.Manager.{Manager}
use libpwq.Manager.Weigh.{weigh}
use libpwq.Manager.Overcommit.{Wait}
use libpwq.Crew.{
  wake_up, Place, absent, looking, roused, Crew, Step, looks, wakes, wakes_alone, returns, adds,
  adds_unheard, adds_silently, adds_thread, adds_alone, creates, adds_plain, takes_plain,
}
use libpwq.Crew.Weights.{
  is_looking, is_waiting, held, look-Looked, signalled, leaves, wake_up-Woken,
}
use libpwq.Crew.Adding.{
  signals_thread, creates_thread, enqueue_overcommit-Added, enqueue-Apart, scan-Apart, create-Apart,
}
use libpwq.Crew.Invariant.{CrewInv, Mover, mover, looked, apart, added, left, all_waiting_roused}

-- A thread that comes back from pthread_cond_timedwait.
waked :
    {n : ℕ} {c : Crew} (i : ℕ) (r : Wait) {m' : Manager} {p' : Place}
    → CrewInv n c
    → i < n
    → is_waiting (c.place i) ≡ 1
    → is_looking (c.place i) ≡ 0
    → ((f : Work → ℕ) → held f (c.place i) ≡ 0)
    → wake_up c.manager r ≡ ret (m', p')
    → CrewInv n (record c { manager = m'; place = update c.place i p' })
waked {n} {c} i r {m'} {p'} h lt waits not_looking nothing_held call =
    elim (wake_up-Woken r h.valid call) [
      | signalled some_signal l ↦
          looked (c.manager.ocwq_signal_count - 1) h (mover n c.place i p' lt)
            (omega (arith, some_signal, waits)) (omega (arith, waits, not_looking)) nothing_held l
      | leaves none_there is gone ↦
          rw (is, gone)
            (left h (mover n c.place i absent lt) waits not_looking nothing_held none_there)
    ]

pub Step-CrewInv : {n : ℕ} {c d : Crew} → Step n c d → CrewInv n c → CrewInv n d
unfolding weigh
Step-CrewInv {n} {c} (looks i {p' = p'} lt at call) h =
    let f = mover n c.place i p' lt in
    looked c.manager.ocwq_signal_count h f (rw at (omega arith)) (rw at refl) (λ g. rw at refl)
      (look-Looked h.valid call)
Step-CrewInv (wakes i r lt at call) h =
    waked i r h lt (rw at refl) (rw at refl) (λ g. rw at refl) call
Step-CrewInv (wakes_alone i r lt at call) h =
    waked i r h lt (rw at refl) (rw at refl) (λ g. rw at refl) call
Step-CrewInv {n} {c} (returns i w lt at) h =
    let f = subst (λ p. Mover n c.place i p looking) at (mover n c.place i looking lt) in
    record {
      few = h.few;
      valid = h.valid;
      accounted = omega (arith, h.accounted, f.waiters);
      served = omega (arith, h.served, f.lookers);
      heard = omega (arith, h.heard, f.roused_ones);
      kept = λ g. omega (arith, h.kept g, f.items g);
    }
Step-CrewInv {n} {c} (adds a i q w at oc signal lt waits) h =
    let e = enqueue_overcommit-Added a q w h.valid at oc in
    let (idle, signals) = signals_thread e signal in
    let most = sum_over-le is_waiting (λ p. ground arith) n c.place in
    let f = subst (λ p. Mover n c.place i p roused) waits (mover n c.place i roused lt) in
    added (update c.place i roused) c.failed w h e.moved e.valid
      (omega (arith, idle, signals, h.accounted, f.waiters, most, h.few))
      (omega (arith, idle, signals, h.accounted, f.lookers, most, h.few))
      (omega (arith, idle, signals, h.accounted, f.roused_ones, h.heard, most, h.few))
      (λ g. omega (arith, f.items g))
Step-CrewInv {n} {c} (adds_unheard a q w at oc signal nobody) h =
    let e = enqueue_overcommit-Added a q w h.valid at oc in
    let (idle, signals) = signals_thread e signal in
    let most = sum_over-le is_waiting (λ p. ground arith) n c.place in
    let all_roused = all_waiting_roused n c.place nobody in
    added c.place c.failed w h e.moved e.valid
      (omega (arith, idle, signals, h.accounted, most, h.few))
      (omega (arith, idle, signals, h.accounted, most, h.few))
      (omega (arith, idle, signals, h.accounted, all_roused, most, h.few)) (λ f. refl)
Step-CrewInv (adds_silently a q w at oc silent) h =
    let e = enqueue_overcommit-Added a q w h.valid at oc in
    absurd (ground (arith, e.counted, silent))
Step-CrewInv {n} {c} (adds_thread a i q w at oc thread lt gone) h =
    let e = enqueue_overcommit-Added a q w h.valid at oc in
    let (idle, signals) = creates_thread e thread in
    let f = subst (λ p. Mover n c.place i p looking) gone (mover n c.place i looking lt) in
    added (update c.place i looking) c.failed w h e.moved e.valid
      (omega (arith, idle, signals, h.accounted, f.waiters)) (omega (arith, signals, f.lookers))
      (omega (arith, signals, h.heard, f.roused_ones)) (λ g. omega (arith, f.items g))
Step-CrewInv {c = c} (adds_alone a q w at oc thread) h =
    let e = enqueue_overcommit-Added a q w h.valid at oc in
    let (idle, signals) = creates_thread e thread in
    added c.place (c.failed + 1) w h e.moved e.valid (omega (arith, idle, signals, h.accounted))
      (omega (arith, signals)) (omega (arith, signals, h.heard)) (λ f. refl)
Step-CrewInv (creates attr spawns accepted can call) h =
    apart h (create-Apart attr spawns h.valid accepted can call)
Step-CrewInv (adds_plain a q w at plain call) h =
    apart h (enqueue-Apart a q w h.valid at plain call)
Step-CrewInv (takes_plain i a skip x own call) h = apart h (scan-Apart i a skip x h.valid own call)

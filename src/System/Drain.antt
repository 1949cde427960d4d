-- ===== src/System/Drain.antt =====
-- The workers and clients of src/posix/manager.c empty the plain queues.
use libpwq.Prelude.{
  ℕ, zero, suc, ◌+◌, ◌*◌, ◌<◌, ◌≤◌, ◌≡◌, refl, ap, ◌∙◌, inl, inr, true, false, length, arith,
  sum_over, sum_over-member, sum_over-some, Bool-cases,
}
use native.Mathlib.Decide.{dec_lt}
use libpwq.Manager.{Manager}
use libpwq.Manager.Additem.{wake_worker}
use libpwq.System.{wait, Pc, is_free, System, checks, signals, Reach, later}
use libpwq.System.Counters.{is_worker}
use libpwq.System.Invariant.{sum_over-Signalled}
use libpwq.System.Wakeup.{is_keen, queued}
use libpwq.System.Preserved.{IsFresh}
use libpwq.System.Attention.{no_lost_wakeup}
use libpwq.System.Course.{
  who_wakes, checked, signalled, Course, here, by_check, by_signal, Course-Reach, join, Takes,
  first_step,
}
use libpwq.System.Serve.{pick_or}
use libpwq.System.Mutex.{release, holder}
use libpwq.System.Keen.{keen_then}

module _ {n : ℕ} {m0 : Manager} (fresh : IsFresh n m0) where
  -- What the clients have still to do.
  abbrev errands : System → ℕ
  errands s = 2 * s.checking + s.signalling

  abbrev Serves : ℕ → Type 0
  Serves b =
      (s : System)
      → Reach n false m0 s
      → 0 < queued s.manager
      → 0 < sum_over is_worker n s.pc
      → errands s < b
      → Takes n s

  one_signal : (m : Manager) → length (wake_worker m) ≤ 1
  unfolding wake_worker
  one_signal m = ground arith

  once : (w : Pc → ℕ) (p : Pc) → w p ≤ 1 → 0 < w p → w p ≡ 1
  once w p le pos = omega (arith, le, pos)

  check_then :
      (b : ℕ) (s : System) (k : ℕ)
      → Serves b
      → Reach n false m0 s
      → s.checking ≡ suc k
      → 0 < queued s.manager
      → 0 < sum_over is_worker n s.pc
      → errands s < suc b
      → Takes n s
  check_then b s k ih r e some workers bound =
      first_step {u = checked s k} (λ t. by_check e) refl
        (ih (checked s k) (later r (checks e)) some workers
          (omega (arith, e, bound, one_signal s.manager)))

  signal_then :
      (b : ℕ) (s : System) (k : ℕ)
      → Serves b
      → Reach n false m0 s
      → s.signalling ≡ suc k
      → is_free n s.pc ≡ true
      → 0 < queued s.manager
      → 0 < sum_over is_worker n s.pc
      → errands s < suc b
      → Takes n s
  signal_then b s k ih r e unlocked some workers bound =
      let (pc', sig) = who_wakes n s.pc in
      first_step {u = signalled s k pc'} (λ t. by_signal e unlocked sig) refl
        (ih (signalled s k pc') (later r (signals e unlocked sig)) some
          (omega (arith, workers, sum_over-Signalled is_worker n refl sig))
          (omega (arith, e, bound)))

  -- A client that is to signal: it waits for the worker that holds the mutex.
  signal_now :
      (b : ℕ) (s : System) (k : ℕ)
      → Serves b
      → Reach n false m0 s
      → s.signalling ≡ suc k
      → 0 < queued s.manager
      → 0 < sum_over is_worker n s.pc
      → errands s < suc b
      → Takes n s
  signal_now b s k ih r e some workers bound = elim (Bool-cases (is_free n s.pc)) [
    | inl unlocked ↦ signal_then b s k ih r e unlocked some workers bound
    | inr taken ↦
        let (j, lt, holding) = holder fresh s taken in
        release fresh j (s.pc j) r lt refl holding some (λ u rel.
          let mine = sum_over-member is_worker n u.pc j lt in
          signal_then b u k ih rel.reach (rel.signalling ∙ e) rel.free rel.some_item
            (omega (arith, mine, ap is_worker rel.slept))
            (omega (arith, rel.signalling, rel.checking, bound)))
  ]

  errand_then :
      (b : ℕ) (s : System) (checking signalling : ℕ)
      → s.checking ≡ checking
      → s.signalling ≡ signalling
      → 0 < checking + signalling
      → Serves b
      → Reach n false m0 s
      → 0 < queued s.manager
      → 0 < sum_over is_worker n s.pc
      → errands s < suc b
      → Takes n s
  errand_then b s (suc k) j e e' any ih r some workers bound =
      check_then b s k ih r e some workers bound
  errand_then b s zero (suc k) e e' any ih r some workers bound =
      signal_now b s k ih r e' some workers bound
  errand_then b s zero zero e e' any ih r some workers bound = absurd (omega (arith, any))

  serves : (b : ℕ) → Serves b
  serves zero s r some workers bound = absurd (omega (arith, bound))
  serves (suc b) s r some workers bound = elim (no_lost_wakeup fresh r some workers) [
    | inr t ↦
        pick_or fresh t.worker wait t.queue r t.worker_lt t.place some
          (λ r' some' nil. absurd (ground (arith, nil, t.some_there)))
    | inl attended ↦ elim (dec_lt 0 (sum_over is_keen n s.pc)) [
      | yes keen ↦
          let (i, lt, pos) = sum_over-some is_keen n s.pc keen in
          keen_then fresh i (s.pc i) r lt refl (once is_keen (s.pc i) (ground arith) pos) some
      | no none_keen ↦
          errand_then b s s.checking s.signalling refl refl (omega (arith, attended, none_keen))
            (serves b) r some workers bound
    ]
  ]

  -- A course at the end of which the plain queues are empty.
  pub record Drained (s : System) : Type 0 where
    pub after : System
    pub course : Course n s after
    pub none_queued : queued after.manager ≡ 0

  drain :
      (q : ℕ) (s : System)
      → Reach n false m0 s
      → queued s.manager ≡ q
      → 0 < sum_over is_worker n s.pc
      → Drained s
  drain zero s r e workers = record { after = s; course = here; none_queued = e }
  drain (suc q) s r e workers =
      let t = serves (errands s + 1) s r (omega (arith, e)) workers (omega arith) in
      let d = drain q t.after (Course-Reach t.course r) (omega (arith, t.fewer, e)) t.workers in
      record { after = d.after; course = join t.course d.course; none_queued = d.none_queued }

  -- From every state that the threads reach from a manager with no workers and no items, while no
  -- worker is asked to exit and there is a worker, the workers and the clients that are there can
  -- empty the plain queues: there is a course of moves of workers that do not sleep, of clients that
  -- look at `idle` and of signals, with no new worker and no spurious wake-up, after which no item is
  -- queued.
  pub can_drain : {s : System} → Reach n false m0 s → 0 < sum_over is_worker n s.pc → Drained s
  can_drain {s} r workers = drain (queued s.manager) s r refl workers

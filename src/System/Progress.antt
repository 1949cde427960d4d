-- ===== src/System/Progress.antt =====
-- The moves that the workers of src/posix/manager.c can make.
use libpwq.Prelude.{
  ℕ, zero, suc, ◌<◌, ◌≡◌, refl, sym, ap, subst, ◌⊎◌, inl, inr, Bool, arith, sum_over-some,
  Bool-cases,
}
use libpwq.Workqueue.{Work}
use libpwq.Manager.{Manager}
use libpwq.Manager.Invariant.{Inv}
use libpwq.Manager.Pool.{accept_item}
use libpwq.Manager.Scan.{scan_queue}
use libpwq.Manager.Scan.Queue.{QueueResult, empty, held_back, took, scan_queue-QueueResult}
use libpwq.System.{
  Call, first, spin, wait, skips, Pc, absent, created, scanning, picked, missed, got, blocked,
  asleep, ready, running, Move, begins, reads, no_bit, no_item, takes, spins_on, gives_up, locks,
  sleeps, goes_on, spun, accepts, exits, calls, returns, holds, is_asleep, is_free, System, Reach,
}
use libpwq.System.Counters.{is_worker}
use libpwq.System.Invariant.{IsPlaced}
use libpwq.System.Preserved.{IsFresh, Reach-SystemInv}

-- A worker that neither sleeps nor waits for the mutex.
abbrev pub is_active : Pc → ℕ
is_active absent = 0
is_active asleep = 0
is_active blocked = 0
is_active p = 1

abbrev CanMove : Manager → Bool → Pc → Type 0
CanMove m free p = (m' : Manager) × (p' : Pc) × Move m free p m' p'

module _ {m : Manager} (free : Bool) (v : Inv m) where
  picked_moves :
      (c : Call) (i a : ℕ)
      → QueueResult m i (skips c) (scan_queue m i (skips c))
      → CanMove m free (picked c (suc i))
  picked_moves c i a (empty nil call) = (m, missed c, no_item call)
  picked_moves c i a (held_back w rest ask lt there call) = (m, missed c, no_item call)
  picked_moves c i a (took w rest m' runs removed call) = (m', got c w, takes call)

  accepted_moves : (w : Work) → CanMove m free (got wait w)
  accepted_moves w = elim (Bool-cases (accept_item m w).1) [
    | inl goes ↦ ((accept_item m w).0, ready w, accepts (ap (λ b. ((accept_item m w).0, b)) goes))
    | inr leaves ↦ ((accept_item m w).0, absent, exits (ap (λ b. ((accept_item m w).0, b)) leaves))
  ]

  active_moves : (p : Pc) → IsPlaced m p → is_active p ≡ 1 → CanMove m free p
  active_moves created at e = (_, _, begins)
  active_moves (scanning c) at e = (_, _, reads)
  active_moves (picked c zero) at e = (_, _, no_bit)
  active_moves (picked c (suc i)) (a, own) e =
      picked_moves c i a (scan_queue-QueueResult v i a own (skips c))
  active_moves (missed first) at e = (_, _, gives_up)
  active_moves (missed spin) at e = (_, _, spins_on)
  active_moves (missed wait) at e = (_, _, sleeps)
  active_moves (got first w) at e = (_, _, goes_on)
  active_moves (got spin w) at e = (_, _, spun)
  active_moves (got wait w) at e = accepted_moves w
  active_moves (ready w) at e = (_, _, calls)
  active_moves (running w) at e = (_, _, returns)
  active_moves absent at e = absurd (omega arith)
  active_moves asleep at e = absurd (omega arith)
  active_moves blocked at e = absurd (omega arith)

-- Worker `j`, which is worker `i` or holds `wqlist_mtx`, can make a move.
pub record Mover (n : ℕ) (s : System) (i : ℕ) : Type 0 where
  pub worker : ℕ
  pub worker_lt : worker < n
  pub who : (worker ≡ i) ⊎ (holds (s.pc worker) ≡ 1)
  pub manager' : Manager
  pub place' : Pc
  pub move : Move s.manager (is_free n s.pc) (s.pc worker) manager' place'

held_once : (p : Pc) → 0 < holds p → holds p ≡ 1
held_once p h = ground (arith, h)

holder_active : (p : Pc) → 0 < holds p → is_active p ≡ 1
holder_active p h = ground (arith, h)

-- A place is absent, asleep, blocked, or active.
place_cases : (p : Pc) → is_worker p ≡ 1 → is_asleep p ≡ 0 → (p ≡ blocked) ⊎ (is_active p ≡ 1)
place_cases blocked worker awake = inl refl
place_cases absent worker awake = absurd (omega (arith, worker))
place_cases asleep worker awake = absurd (omega (arith, awake))
place_cases p worker awake = inr refl

module _ {n : ℕ} {stops : Bool} {m0 : Manager} {s : System} (fresh : IsFresh n m0)
    (r : Reach n stops m0 s) where
  active-Mover :
      (i j : ℕ) → j < n → (j ≡ i) ⊎ (holds (s.pc j) ≡ 1) → is_active (s.pc j) ≡ 1 → Mover n s i
  active-Mover i j lt who active =
      let inv = Reach-SystemInv fresh r in
      let (m', p', mv) = active_moves (is_free n s.pc) inv.valid (s.pc j) (inv.placed j) active in
      record { worker = j; worker_lt = lt; who = who; manager' = m'; place' = p'; move = mv }

  -- There is no deadlock among the workers: in every state that the threads reach from a manager
  -- with no workers and no items, for a worker that does not sleep in pthread_cond_wait, it or the
  -- worker that holds `wqlist_mtx` can make a move.
  pub awake_moves : (i : ℕ) → i < n → is_worker (s.pc i) ≡ 1 → is_asleep (s.pc i) ≡ 0 → Mover n s i
  awake_moves i lt worker awake = elim (place_cases (s.pc i) worker awake) [
    | inr active ↦ active-Mover i i lt (inl refl) active
    | inl waits ↦ elim (Bool-cases (is_free n s.pc)) [
      | inl free ↦ record {
        worker = i;
        worker_lt = lt;
        who = inl refl;
        manager' = s.manager;
        place' = scanning wait;
        move =
            subst (λ p. Move s.manager (is_free n s.pc) p s.manager (scanning wait)) (sym waits)
              (locks free);
      }
      | inr taken ↦
          let (j, j_lt, holding) = sum_over-some holds n s.pc (ground (arith, taken)) in
          active-Mover i j j_lt (inr (held_once (s.pc j) holding)) (holder_active (s.pc j) holding)
    ]
  ]

-- ===== src/System/Rounds/Down.antt =====
-- The branch of manager_main (src/posix/manager.c) that stops workers, among the steps of the threads.
use libpwq.Prelude.{
  some, ◌/◌, same_result, ℕ, zero, suc, ◌+◌, ◌≡◌, refl, sym, ap, subst, ◌∙◌, none, List, [], ◌++◌,
  true, ltb, if◌then◌else◌, Outcome, ret, ◌>>=◌, >>=-eq-ret, arith, inl, inr, Bool-cases,
}
use libpwq.Workqueue.{Work, is_null}
use libpwq.Witem.{new_witem}
use libpwq.Manager.{Manager, Effect}
use libpwq.Manager.Pool.{first_workqueue, worker_stop}
use libpwq.Manager.Invariant.{Inv}
use libpwq.Manager.Ramp.Laws.{stop_workers_lem}
use libpwq.Manager.Ramp.{
  Idles, Ramp, Readings, stop_workers, ramp_down, threads_to_stop, accumulate,
  worker_idle_seconds_threshold,
}
use libpwq.System.{holds, is_free, System, stops_one}
use libpwq.System.Course.{who_wakes}
use libpwq.System.Invariant.{sum_over-Signalled}
use libpwq.System.Rounds.Up.{Turns, further, Leads}

-- A state that the steps lead to, with the manager `m` and with `wqlist_mtx` free.
Unlocked : ℕ → System → Manager → Type 0
Unlocked n s0 m = (t : System) × Turns n s0 t × (is_free n t.pc ≡ true) × (t.manager ≡ m)

-- The branch that stops workers returns.
pub down_returns :
    (idles : Idles) (e : Readings) (ramp : Ramp) {m : Manager} (a : ℕ)
    → Inv m
    → first_workqueue m.wqlist ≡ some a
    → (x : Ramp × Manager × List Effect) × (ramp_down idles e ramp m ≡ ret x)
unfolding ramp_down
down_returns idles e ramp {m} a v own =
    let (m', effects, call, _, _, _) =
      stop_workers_lem (threads_to_stop (accumulate idles ramp m) idles m) 0 idles.before_stop
        e.alloc a v own in
    elim (Bool-cases ramp.timed_out) [
      | inr early ↦ ((ramp, m, []), rw (ramp_down, early) refl)
      | inl tick ↦
          elim (Bool-cases (ltb 0 (accumulate idles ramp m / worker_idle_seconds_threshold))) [
            | inr not_yet ↦ (
              (record ramp { idle_accumulated = accumulate idles ramp m }, m, []),
              rw (ramp_down, tick, not_yet) refl,
            )
            | inl enough ↦ (
              (record ramp { idle_accumulated = 0 }, m', effects),
              rw (ramp_down, tick, enough, call) refl,
            )
          ]
    ]

module _ {n : ℕ} {s0 : System} where
  stop_then :
      (w : Work) (s : System) {m' : Manager} {effects : List Effect}
      → Turns n s0 s
      → is_free n s.pc ≡ true
      → is_null w.func ≡ true
      → worker_stop s.manager w ≡ ret (m', effects)
      → Unlocked n s0 m'
  unfolding Unlocked
  stop_then w s r free ask call =
      let (pc', sig) = who_wakes n s.pc in
      (
        _,
        further r (stops_one w refl ask free call sig) tt,
        ground (arith, free, sum_over-Signalled holds n refl sig),
        refl,
      )

  stops_go :
      (k i : ℕ) (idle alloc : ℕ → ℕ) (s : System) {m' : Manager} {effects : List Effect}
      → Turns n s0 s
      → is_free n s.pc ≡ true
      → stop_workers k i idle alloc s.manager ≡ ret (m', effects)
      → Leads n s0 m'
  unfolding stop_workers Unlocked
  stops_go zero i idle alloc s r free call = record { next = s; reach = r; state = cc }
  stops_go (suc k) i idle alloc s r free call =
      let m = s.manager in
      let w = new_witem (alloc i) none 0 in
      let one_stop : Outcome (Manager × List Effect) =
        if ltb m.worker_idle_threshold (idle i) then worker_stop m w else ret (m, []) in
      let others : Manager × List Effect → Outcome (Manager × List Effect) =
        λ x. stop_workers k (i + 1) idle alloc x.0 >>= λ y. ret (y.0, x.1 ++ y.1) in
      let (x, one, rest) = >>=-eq-ret one_stop others call in
      let (y, more, last) =
        >>=-eq-ret (stop_workers k (i + 1) idle alloc x.0) (λ z. ret (z.0, x.1 ++ z.1)) rest in
      let stands : Unlocked n s0 x.0 = elim (Bool-cases (ltb m.worker_idle_threshold (idle i))) [
        | inl many ↦ stop_then w s r free refl (sym (rw many refl) ∙ one)
        | inr few ↦ (
          s,
          r,
          free,
          ap (λ (z : Manager × List Effect). z.0) (same_result {x = (m, [])} (rw few refl) one),
        )
      ] in
      let (t, r', free', state) = stands in
      subst (Leads n s0) (ap (λ (z : Manager × List Effect). z.0) (same_result refl last)) (
        stops_go k (i + 1) idle alloc t r' free'
          (subst (λ z. stop_workers k (i + 1) idle alloc z ≡ ret y) (sym state) more))

  pub down_goes :
      (idles : Idles) (e : Readings) (ramp : Ramp) (s : System) {x : Ramp × Manager × List Effect}
      → Turns n s0 s
      → is_free n s.pc ≡ true
      → ramp_down idles e ramp s.manager ≡ ret x
      → Leads n s0 x.1
  unfolding ramp_down
  down_goes idles e ramp s {x} r free call = elim (Bool-cases ramp.timed_out) [
    | inr early ↦ record {
      next = s;
      reach = r;
      state = ap middle (same_result {x = (ramp, s.manager, [])} (rw (ramp_down, early) refl) call);
    }
    | inl tick ↦ elim (Bool-cases (ltb 0 (accumulated / worker_idle_seconds_threshold))) [
      | inr not_yet ↦ record {
        next = s;
        reach = r;
        state = ap middle (
            same_result {x = (record ramp { idle_accumulated = accumulated }, s.manager, [])}
              (rw (ramp_down, tick, not_yet) refl) call);
      }
      | inl enough ↦
          let (y, stopped, last) =
            >>=-eq-ret
              (stop_workers (threads_to_stop accumulated idles s.manager) 0 idles.before_stop
                e.alloc s.manager)
              (λ z. ret (record ramp { idle_accumulated = 0 }, z.0, z.1))
              (sym (rw (ramp_down, tick, enough) refl) ∙ call) in
          subst (Leads n s0) (ap middle (same_result refl last))
            (stops_go _ 0 idles.before_stop e.alloc s r free stopped)
    ]
  ]
    where
      accumulated : ℕ
      accumulated = accumulate idles ramp s.manager

      middle : Ramp × Manager × List Effect → Manager
      middle z = z.1

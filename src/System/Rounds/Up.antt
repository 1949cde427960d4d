-- ===== src/System/Rounds/Up.antt =====
-- The branch of manager_main (src/posix/manager.c) that starts workers, among the steps of the threads.
use libpwq.Prelude.{
  ℕ, ◌<◌, ◌≡◌, refl, sym, subst, Bool, true, false, not, ◌==◌, ◌&&◌, ltb, leb, inl, inr, Bool-cases,
}
use libpwq.Word.{dec32}
use libpwq.Manager.{Manager}
use libpwq.Manager.Pool.{worker_start}
use libpwq.Manager.Ramp.{Ramp, Readings, start_if_short, start_if_measured, ramp_up}
use libpwq.System.{absent, System, Step, stops_one, retuned, starts, fails, tunes}

-- The steps of the manager thread: it starts a worker, or fails to, it writes its own fields, or it puts
-- a request to exit in a queue and signals.
abbrev pub IsOwn : {n : ℕ} {s t : System} → Step n true s t → Type 0
IsOwn (starts i lt gone) = Unit {0}
IsOwn fails = Unit {0}
IsOwn (tunes a b c d) = Unit {0}
IsOwn (stops_one w e ask free call sig) = Unit {0}
IsOwn _ = ⊥

-- The states that these steps lead to from `s`.
pub data Turns (n : ℕ) (s : System) : System → Type 0 where
  here : Turns n s s
  further : {t u : System} → Turns n s t → (st : Step n true t u) → IsOwn st → Turns n s u

-- One of them has the manager `m`.
pub record Leads (n : ℕ) (s0 : System) (m : Manager) : Type 0 where
  pub next : System
  pub reach : Turns n s0 next
  pub state : next.manager ≡ m

-- The manager thread's own fields get other values.
abbrev tuned : System → ℕ → ℕ → System
tuned s runqueue about = record s {
  manager =
      retuned runqueue about s.manager.scoreboard.sb_sem s.manager.scoreboard.sb_suspend s.manager;
}

module _ {n : ℕ} {s0 : System} where
  start_one :
      (success : Bool) (s : System) (i : ℕ)
      → Turns n s0 s
      → i < n
      → s.pc i ≡ absent
      → Leads n s0 (worker_start success s.manager).0
  start_one true s i r lt gone = record {
    next = _;
    reach = further r (starts i lt gone) tt;
    state = refl;
  }
  start_one false s i r lt gone = record { next = _; reach = further r fails tt; state = refl }

  short_goes :
      (e : Readings) (ramp : Ramp) (s : System) (i : ℕ)
      → Turns n s0 s
      → i < n
      → s.pc i ≡ absent
      → Leads n s0 (start_if_short e ramp s.manager)
  unfolding start_if_short
  short_goes e ramp s i r lt gone =
      let s' = tuned s e.runqueue s.manager.scoreboard.about_to_wait in
      let r' : Turns n s0 s' = further r (tunes _ _ _ _) tt in
      elim (Bool-cases (leb e.runqueue ramp.runqueue_length_max && (e.idle_again == 0))) [
        | inl short ↦
            subst (Leads n s0) (sym (rw (start_if_short, short) refl))
              (start_one e.spawn s' i r' lt gone)
        | inr long ↦ record { next = s'; reach = r'; state = sym (rw (start_if_short, long) refl) }
      ]

  measured_goes :
      (e : Readings) (ramp : Ramp) (s : System) (i : ℕ)
      → Turns n s0 s
      → i < n
      → s.pc i ≡ absent
      → Leads n s0 (start_if_measured e ramp s.manager).1
  unfolding start_if_measured
  measured_goes e ramp s i r lt gone =
      let ramp' = (start_if_measured e ramp s.manager).0 in
      elim (Bool-cases (leb ramp'.current_thread_count s.manager.cpu_count)) [
        | inl few ↦ rw (start_if_measured, few) (short_goes e ramp' s i r lt gone)
        | inr many ↦ rw (start_if_measured, many) (record { next = s; reach = r; state = refl })
      ]

  pub up_goes :
      (e : Readings) (ramp : Ramp) (s : System) (i : ℕ)
      → Turns n s0 s
      → i < n
      → s.pc i ≡ absent
      → Leads n s0 (ramp_up e ramp s.manager).1
  unfolding ramp_up
  up_goes e ramp s i r lt gone = elim (Bool-cases (not (s.manager.scoreboard.about_to_wait == 0))) [
    | inl blocks ↦
        rw (ramp_up, blocks)
          (start_one e.spawn
            (tuned s s.manager.scoreboard.runqueue_length
              (dec32 s.manager.scoreboard.about_to_wait))
            i (further r (tunes _ _ _ _) tt) lt gone)
    | inr none_blocks ↦
        elim (Bool-cases (ltb s.manager.scoreboard.count s.manager.worker_idle_threshold)) [
          | inl cheap ↦ rw (ramp_up, none_blocks, cheap) (start_one e.spawn s i r lt gone)
          | inr dear ↦ elim (Bool-cases (ltb s.manager.scoreboard.count ramp.worker_max)) [
            | inl below ↦
                rw (ramp_up, none_blocks, dear, below) (measured_goes e ramp s i r lt gone)
            | inr full ↦
                rw (ramp_up, none_blocks, dear, full) (record { next = s; reach = r; state = refl })
          ]
        ]
  ]

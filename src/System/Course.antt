-- ===== src/System/Course.antt =====
-- Courses of events in which the threads of src/posix/manager.c finish what they do: moves of workers
-- that do not sleep, and clients that look at `idle` and send their signals.
use libpwq.Prelude.{
  ℕ, suc, ◌+◌, ◌<◌, ◌≡◌, refl, sym, ap, subst, ◌∙◌, true, false, ◌++◌, length, arith, update,
  sum_over, sum_over-some,
}
use native.Mathlib.Decide.{dec_lt}
use libpwq.Manager.{Manager}
use libpwq.Manager.Weigh.{weigh}
use libpwq.Manager.Additem.{wake_worker}
use libpwq.System.{
  Pc, asleep, Move, freed, is_asleep, is_free, System, Signalled, woke, nobody, moves, checks,
  signals, Reach, later,
}
use libpwq.System.Counters.{is_worker}
use libpwq.System.Items.{held, Move-kept}
use libpwq.System.Wakeup.{queued}
use libpwq.System.Preserved.{IsFresh, Reach-SystemInv}

-- The states after a move of worker `i`, after a client looked at `idle`, and after a signal.
abbrev pub moved : System → ℕ → Manager → Pc → System
moved s i m' p' = record s {
  manager = m';
  pc = update s.pc i p';
  done = freed (s.pc i) p' ++ s.done;
}

abbrev pub checked : System → ℕ → System
checked s k = record s { checking = k; signalling = length (wake_worker s.manager) + s.signalling }

abbrev pub signalled : System → ℕ → (ℕ → Pc) → System
signalled s k pc' = record s { signalling = k; pc = pc' }

pub data Course (n : ℕ) : System → System → Type 0 where
  here : {s : System} → Course n s s
  by_move :
      {s t : System} {m' : Manager} {p' : Pc} (i : ℕ)
      → i < n
      → is_asleep (s.pc i) ≡ 0
      → Move s.manager (is_free n s.pc) (s.pc i) m' p'
      → Course n (moved s i m' p') t
      → Course n s t
  by_check : {s t : System} {k : ℕ} → s.checking ≡ suc k → Course n (checked s k) t → Course n s t
  by_signal :
      {s t : System} {k : ℕ} {pc' : ℕ → Pc}
      → s.signalling ≡ suc k
      → is_free n s.pc ≡ true
      → Signalled n s.pc pc'
      → Course n (signalled s k pc') t
      → Course n s t

-- A course leads to states that can be reached.
pub Course-Reach :
    {n : ℕ} {m0 : Manager} {s t : System} → Course n s t → Reach n false m0 s → Reach n false m0 t
Course-Reach here r = r
Course-Reach (by_move i lt awake mv rest) r = Course-Reach rest (later r (moves i lt mv))
Course-Reach (by_check e rest) r = Course-Reach rest (later r (checks e))
Course-Reach (by_signal e free sig rest) r = Course-Reach rest (later r (signals e free sig))

pub join : {n : ℕ} {s t u : System} → Course n s t → Course n t u → Course n s u
join here d = d
join (by_move i lt awake mv rest) d = by_move i lt awake mv (join rest d)
join (by_check e rest) d = by_check e (join rest d)
join (by_signal e free sig rest) d = by_signal e free sig (join rest d)

-- A course at the end of which an item was taken, by a worker that is still there.
pub record Takes (n : ℕ) (s : System) : Type 0 where
  pub after : System
  pub course : Course n s after
  pub fewer : queued after.manager + 1 ≡ queued s.manager
  pub workers : 0 < sum_over is_worker n after.pc

-- The same after a first step that takes no item.
pub first_step :
    {n : ℕ} {s u : System}
    → ((t : System) → Course n u t → Course n s t)
    → queued u.manager ≡ queued s.manager
    → Takes n u
    → Takes n s
first_step step same t = record {
  after = t.after;
  course = step t.after t.course;
  fewer = t.fewer ∙ same;
  workers = t.workers;
}

-- A move that neither takes nor frees an item, from the place `p` to `p'`.
pub go_on :
    {n : ℕ} {m0 m' : Manager} {s : System} (i : ℕ) (p p' : Pc)
    → IsFresh n m0
    → Reach n false m0 s
    → i < n
    → s.pc i ≡ p
    → is_asleep p ≡ 0
    → Move s.manager (is_free n s.pc) p m' p'
    → held (λ w. 1) p' + weigh (λ w. 1) (freed p p') ≡ held (λ w. 1) p
    → 0 < queued s.manager
    → (Reach n false m0 (moved s i m' p') → 0 < queued m' → Takes n (moved s i m' p'))
    → Takes n s
go_on {n} {m0} {m'} {s} i p p' fresh r lt at awake mv same some_item rest =
    let mv' = subst (λ x. Move s.manager (is_free n s.pc) x m' p') (sym at) mv in
    let kept = Move-kept (λ w. 1) (Reach-SystemInv fresh r).valid mv in
    let still : queued m' ≡ queued s.manager = omega (arith, kept, same) in
    first_step (λ t. by_move i lt (ap is_asleep at ∙ awake) mv') still
      (rest (later r (moves i lt mv')) (omega (arith, still, some_item)))

asleep_there : (p : Pc) → 0 < is_asleep p → p ≡ asleep
asleep_there asleep h = refl
asleep_there p h = absurd (omega (arith, h))

-- A signal always has a result.
pub who_wakes : (n : ℕ) (pc : ℕ → Pc) → (pc' : ℕ → Pc) × Signalled n pc pc'
who_wakes n pc = elim (dec_lt 0 (sum_over is_asleep n pc)) [
  | yes some_sleep ↦
      let (j, lt, pos) = sum_over-some is_asleep n pc some_sleep in
      (_, woke j lt (asleep_there (pc j) pos))
  | no awake ↦ (pc, nobody (omega (arith, awake)))
]

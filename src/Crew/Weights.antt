-- ===== src/Crew/Weights.antt =====
-- What a section of an overcommit thread of src/posix/manager.c does to the counters and the items.
use libpwq.Prelude.{
  same_result, ℕ, ◌+◌, ◌-◌, ◌<◌, ◌≤◌, ◌≡◌, refl, sym, ap, subst, ◌∙◌, List, [], false, ◌==◌, ltb,
  if◌then◌else◌, ret, aborts, arith, inl, inr, Bool-cases,
}
use libpwq.Word.{inc32, dec32}
use libpwq.Workqueue.{Work, workqueue_max}
use libpwq.Manager.{Manager}
use libpwq.Manager.Invariant.{Inv, overcommit_items, overcommit-lt}
use libpwq.Manager.Weigh.{total, total-taken, total-zero}
use libpwq.Manager.Overcommit.{begin_wait, Wait, woken, timed_out, failed, end_wait}
use libpwq.Manager.Overcommit.Laws.{TookOver, nothing, took, take_overcommit-TakeResult}
use libpwq.Crew.{Place, absent, looking, busy, waiting, roused, look, wake_up}

abbrev pub is_looking : Place → ℕ
is_looking looking = 1
is_looking _ = 0

-- In pthread_cond_timedwait.
abbrev pub is_waiting : Place → ℕ
is_waiting waiting = 1
is_waiting roused = 1
is_waiting _ = 0

abbrev pub is_roused : Place → ℕ
is_roused roused = 1
is_roused _ = 0

-- The item that a thread has.
abbrev pub held : (Work → ℕ) → Place → ℕ
held f (busy w) = f w
held f _ = 0

-- The items of the overcommit queues.
abbrev pub over : (Work → ℕ) → Manager → ℕ
over f m = total f (overcommit_items m)

-- The number of them.
abbrev pub queued : Manager → ℕ
queued m = over (λ w. 1) m

pub over-taken :
    {m m' : Manager} {i : ℕ} {w : Work} {rest : List Work} (f : Work → ℕ)
    → TookOver m m' i w rest
    → i < workqueue_max
    → over f m' + f w ≡ over f m
over-taken {m} {m'} {i} {w} {rest} f t lt =
    total-taken f (overcommit_items m) (overcommit_items m') i w rest lt t.found t.left

-- From the head of the loop to a place: an item was taken, or there was none.
pub record Looked (m m' : Manager) (p' : Place) : Type 0 where
  pub valid : Inv m'
  pub signals : m'.ocwq_signal_count ≡ m.ocwq_signal_count
  pub idle :
      m'.ocwq_idle_threads
      ≡ (if is_waiting p' == 1 then inc32 m.ocwq_idle_threads else m.ocwq_idle_threads)
  pub moved : (f : Work → ℕ) → over f m' + held f p' ≡ over f m
  pub fewer : queued m' ≤ queued m - 1
  pub settled : is_looking p' ≡ 0
  pub unroused : is_roused p' ≡ 0

pub Inv-counted :
    {m : Manager} (idle signals : ℕ)
    → Inv m
    → Inv (record m { ocwq_idle_threads = idle; ocwq_signal_count = signals })
Inv-counted idle signals v = record { normal = v.normal; over = v.over; registered = v.registered }

taken-Looked :
    {m m' : Manager} {i : ℕ} {w : Work} {rest : List Work}
    → Inv m
    → TookOver m m' i w rest
    → Looked m m' (busy w)
taken-Looked {m} {m'} {i} {w} {rest} v t =
    let lt = overcommit-lt v i w rest t.found in
    record {
      valid = t.valid;
      signals = ap (λ (x : Manager). x.ocwq_signal_count) t.frame;
      idle = ap (λ (x : Manager). x.ocwq_idle_threads) t.frame;
      moved = λ f. over-taken f t lt;
      fewer = omega (arith, over-taken (λ w. 1) t lt);
      settled = refl;
      unroused = refl;
    }

waits-Looked :
    {m : Manager}
    → Inv m
    → ((j : ℕ) → j < 32 → overcommit_items m j ≡ [])
    → Looked m (begin_wait m) waiting
unfolding begin_wait
waits-Looked {m} v none_there = record {
  valid = Inv-counted _ _ v;
  signals = refl;
  idle = refl;
  moved = λ f. omega arith;
  fewer =
      omega (arith, total-zero (λ w. 1) (overcommit_items m) (λ j lt. none_there j (omega arith)));
  settled = refl;
  unroused = refl;
}

pub look-Looked : {m m' : Manager} {p' : Place} → Inv m → look m ≡ ret (m', p') → Looked m m' p'
unfolding look
look-Looked {m} {m'} {p'} v call = elim (take_overcommit-TakeResult v) [
  | nothing none_there e ↦
      let same : ◌≡◌ {A = Manager × Place} _ _ = same_result (rw (look, e) refl) call in
      subst (λ x. Looked m x.0 x.1) same (waits-Looked v none_there)
  | took i w rest n t e ↦
      let same : ◌≡◌ {A = Manager × Place} _ _ = same_result (rw (look, e) refl) call in
      subst (λ x. Looked m x.0 x.1) same (taken-Looked v t)
]

-- The two ways in which a wait ends: the thread counts down a signal and looks, or there is none and
-- it exits.
pub data Woken (m m' : Manager) (p' : Place) : Type 0 where
  signalled :
      0 < m.ocwq_signal_count
      → Looked (record m { ocwq_signal_count = m.ocwq_signal_count - 1 }) m' p'
      → Woken m m' p'
  leaves :
      m.ocwq_signal_count ≡ 0
      → m' ≡ record m { ocwq_idle_threads = dec32 m.ocwq_idle_threads }
      → p' ≡ absent
      → Woken m m' p'

pub wake_up-Woken :
    {m m' : Manager} {p' : Place} (r : Wait) → Inv m → wake_up m r ≡ ret (m', p') → Woken m m' p'
unfolding wake_up end_wait
wake_up-Woken {m} {m'} {p'} r v call = elim (Bool-cases (ltb 0 m.ocwq_signal_count)) [
  | inl some_signal ↦
      signalled (ground (arith, some_signal))
        (look-Looked (Inv-counted _ _ v) (sym (rw (wake_up, end_wait, some_signal) refl) ∙ call))
  | inr no_signal ↦ unsignalled r refl no_signal
]
  where
    gone :
        ltb 0 m.ocwq_signal_count ≡ false
        → wake_up m r ≡ ret (record m { ocwq_idle_threads = dec32 m.ocwq_idle_threads }, absent)
        → Woken m m' p'
    gone none_there e =
        let same : ◌≡◌ {A = Manager × Place} _ _ = same_result e call in
        leaves (ground (arith, none_there)) (sym (ap (λ x. x.0) same)) (sym (ap (λ x. x.1) same))

    unsignalled : (r' : Wait) → r' ≡ r → ltb 0 m.ocwq_signal_count ≡ false → Woken m m' p'
    unsignalled woken is none_there =
        gone none_there (rw (sym is) (rw (wake_up, end_wait, none_there) refl))
    unsignalled timed_out is none_there =
        gone none_there (rw (sym is) (rw (wake_up, end_wait, none_there) refl))
    unsignalled failed is none_there =
        let aborted : wake_up m r ≡ aborts =
          rw (sym is) (rw (wake_up, end_wait, none_there) refl) in
        cc

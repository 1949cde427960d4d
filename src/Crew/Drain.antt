-- ===== src/Crew/Drain.antt =====
-- The overcommit threads of src/posix/manager.c take what is queued while no work function returns.
use libpwq.Prelude.{
  ℕ, zero, suc, ◌-◌, ◌<◌, ◌≡◌, refl, ◌∙◌, true, ltb, ret, arith, update, sum_over, sum_over-some,
}
use native.Mathlib.Decide.{dec_lt}
use libpwq.Workqueue.{Work}
use libpwq.Manager.{Manager}
use libpwq.Manager.Invariant.{Inv, overcommit_items}
use libpwq.Manager.Weigh.{total-zero}
use libpwq.Manager.Overcommit.{woken, end_wait}
use libpwq.Manager.Overcommit.Laws.{nothing, took, take_overcommit-TakeResult}
use libpwq.Crew.{Place, looking, busy, roused, look, wake_up, Crew, looks, wakes, Reach, later}
use libpwq.Crew.Weights.{Inv-counted, is_looking, is_roused, queued, look-Looked}
use libpwq.Crew.Safety.{IsFresh, Reach-CrewInv}

-- The state after thread `i` took item `w`.
abbrev pub taken : Crew → ℕ → Manager → Work → Crew
taken c i m' w = record c { manager = m'; place = update c.place i (busy w) }

-- Threads take items, from the head of the loop or unblocked by a pthread_cond_signal.
pub data Course (n : ℕ) : Crew → Crew → Type 0 where
  here : {c : Crew} → Course n c c
  by_look :
      {c d : Crew} {m' : Manager} {w : Work} (i : ℕ)
      → i < n
      → c.place i ≡ looking
      → look c.manager ≡ ret (m', busy w)
      → Course n (taken c i m' w) d
      → Course n c d
  by_wake :
      {c d : Crew} {m' : Manager} {w : Work} (i : ℕ)
      → i < n
      → c.place i ≡ roused
      → wake_up c.manager woken ≡ ret (m', busy w)
      → Course n (taken c i m' w) d
      → Course n c d

-- A course at the end of which the overcommit queues are empty.
pub record Drained (n : ℕ) (c : Crew) : Type 0 where
  pub after : Crew
  pub course : Course n c after
  pub none_queued : queued after.manager ≡ 0

-- What a thread finds while items are queued.
record Finds (m : Manager) : Type 0 where
  next : Manager
  item : Work
  call : look m ≡ ret (next, busy item)
  fewer : queued next < queued m

finds : {m : Manager} → Inv m → 0 < queued m → Finds m
unfolding look
finds {m} v some_there = elim (take_overcommit-TakeResult v) [
  | nothing none_there e ↦
      let none_left =
        total-zero (λ w. 1) (overcommit_items m) (λ j lt. none_there j (omega arith)) in
      absurd (omega (arith, some_there, none_left))
  | took i w rest m' t e ↦
      let call : look m ≡ ret (m', busy w) = rw (look, e) refl in
      record {
        next = m';
        item = w;
        call = call;
        fewer = omega (arith, (look-Looked v call).fewer, some_there);
      }
]

-- Without its signal.
abbrev counted_down : Manager → Manager
counted_down m = record m { ocwq_signal_count = m.ocwq_signal_count - 1 }

wake_finds : (m : Manager) → 0 < m.ocwq_signal_count → wake_up m woken ≡ look (counted_down m)
unfolding wake_up end_wait
wake_finds m some_signal =
    let yes : ltb 0 m.ocwq_signal_count ≡ true = ground (arith, some_signal) in
    rw (wake_up, end_wait, yes) refl

looking_there : (p : Place) → 0 < is_looking p → p ≡ looking
looking_there looking h = refl
looking_there p h = absurd (omega (arith, h))

roused_there : (p : Place) → 0 < is_roused p → p ≡ roused
roused_there roused h = refl
roused_there p h = absurd (omega (arith, h))

module _ {n : ℕ} {m0 : Manager} (fresh : IsFresh n m0) where
  drain : (b : ℕ) (c : Crew) → Reach n m0 c → c.failed ≡ 0 → queued c.manager < b → Drained n c
  drain zero c r all_made bound = absurd (omega (arith, bound))
  drain (suc b) c r all_made bound =
      let inv = Reach-CrewInv fresh r in
      elim (dec_lt 0 (queued c.manager)) [
        | no none_there ↦ record {
          after = c;
          course = here;
          none_queued = omega (arith, none_there);
        }
        | yes some_there ↦ elim (dec_lt 0 (sum_over is_looking n c.place)) [
          | yes some_look ↦
              let (i, lt, pos) = sum_over-some is_looking n c.place some_look in
              let at = looking_there (c.place i) pos in
              let f = finds inv.valid some_there in
              let d =
                drain b (taken c i f.next f.item) (later r (looks i lt at f.call)) all_made
                  (omega (arith, f.fewer, bound)) in
              record {
                after = d.after;
                course = by_look i lt at f.call d.course;
                none_queued = d.none_queued;
              }
          | no none_look ↦
              let some_signal : 0 < c.manager.ocwq_signal_count =
                omega (arith, inv.served, all_made, none_look, some_there) in
              let (i, lt, pos) =
                sum_over-some is_roused n c.place (omega (arith, inv.heard, some_signal)) in
              let at = roused_there (c.place i) pos in
              let f = finds {m = counted_down c.manager} (Inv-counted _ _ inv.valid) some_there in
              let call = wake_finds c.manager some_signal ∙ f.call in
              let d =
                drain b (taken c i f.next f.item) (later r (wakes i woken lt at call)) all_made
                  (omega (arith, f.fewer, bound)) in
              record {
                after = d.after;
                course = by_wake i lt at call d.course;
                none_queued = d.none_queued;
              }
        ]
      ]

  -- Fewer than 2 ^ 32 threads start from a well-formed manager with no overcommit threads and no
  -- items in overcommit queues. In every state that they reach while no pthread_create failed, the
  -- threads that look for an item, and those that a pthread_cond_signal unblocked, can take every item
  -- that is queued, with no new thread, with no spurious wake-up, and before any function that runs
  -- has returned.
  pub overcommit_drains : {c : Crew} → Reach n m0 c → c.failed ≡ 0 → Drained n c
  overcommit_drains {c} r all_made = drain (suc (queued c.manager)) c r all_made (omega arith)

-- ===== src/Crew/Adding.antt =====
-- What the clients and the threads of the plain queues do to the counters and the items of the
-- overcommit threads of src/posix/manager.c.
use libpwq.Prelude.{
  result_of, same_result, ℕ, ℤ, ◌+◌, ◌<◌, ◌≡◌, refl, sym, ap, subst, ◌∙◌, Option, some, List, [],
  ◌∷◌, is_nonzero, Bool, true, false, ltb, get_elem?, if◌then◌else◌, ret, arith, inl, inr,
  Option-cases,
}
use libpwq.Word.{inc32}
use libpwq.Workqueue.{Work, Workqueue, workqueue_max, slot}
use libpwq.Attr.{Attr}
use libpwq.Api.{Created, refuses, new_workqueue, pthread_workqueue_create_np}
use libpwq.Api.Create.{prio_of, create_ok, create_aborts}
use libpwq.Manager.{Manager, Effect, signal_overcommit, create_overcommit}
use libpwq.Manager.Create.{Spawn}
use libpwq.Manager.Create.Start.{CanStart}
use libpwq.Manager.Invariant.{Inv, overcommit_items, overcommit-lt, table_of}
use libpwq.Manager.Weigh.{total-congr, total-append_at}
use libpwq.Manager.Additem.{enqueue, enqueue_overcommit, manager_workqueue_additem}
use libpwq.Manager.Additem.Laws.{enqueue_ok, additem_overcommit, is_empty-append}
use libpwq.Manager.Scan.{scan_queue}
use libpwq.Manager.Scan.Queue.{empty, held_back, took, scan_queue-QueueResult}
use libpwq.Manager.Scan.Priority.{List-cases}
use libpwq.Crew.Weights.{over}

-- An item was put in an overcommit queue, and one thread is set to work.
pub record Added (m m' : Manager) (effects : List Effect) (w : Work) : Type 0 where
  pub valid : Inv m'
  pub moved : (f : Work → ℕ) → over f m' ≡ over f m + f w
  pub counted :
      if ltb 0 m.ocwq_idle_threads
      then (effects ≡ signal_overcommit ∷ [])
        × (m'.ocwq_idle_threads + 1 ≡ m.ocwq_idle_threads)
        × (m'.ocwq_signal_count ≡ inc32 m.ocwq_signal_count)
      else (effects ≡ create_overcommit ∷ [])
        × (m'.ocwq_idle_threads ≡ 0)
        × (m'.ocwq_signal_count ≡ m.ocwq_signal_count)

-- Which of the two it was shows in the effect.
pub signals_thread :
    {m m' : Manager} {effects : List Effect} {w : Work}
    → Added m m' effects w
    → effects ≡ signal_overcommit ∷ []
    → (m'.ocwq_idle_threads + 1 ≡ m.ocwq_idle_threads)
      × (m'.ocwq_signal_count ≡ inc32 m.ocwq_signal_count)
signals_thread a e = ground (arith, a.counted, e)

pub creates_thread :
    {m m' : Manager} {effects : List Effect} {w : Work}
    → Added m m' effects w
    → effects ≡ create_overcommit ∷ []
    → (m'.ocwq_idle_threads ≡ m.ocwq_idle_threads) × (m'.ocwq_signal_count ≡ m.ocwq_signal_count)
creates_thread a e = ground (arith, a.counted, e)

pub enqueue_overcommit-Added :
    {m : Manager} (a : ℕ) (q : Workqueue) (w : Work)
    → Inv m
    → get_elem? m.heap a ≡ some q
    → is_nonzero q.overcommit ≡ true
    → Added m (enqueue_overcommit m a q w).0 (enqueue_overcommit m a q w).1 w
unfolding manager_workqueue_additem
enqueue_overcommit-Added {m} a q w v at oc =
    let (m', effects, call, valid, items, aside, counted) = additem_overcommit v a q w at oc in
    let called : manager_workqueue_additem m a w ≡ ret (enqueue_overcommit m a q w) =
      ground (arith, at, oc) in
    let same : ◌≡◌ {A = Manager × List Effect} (m', effects) (enqueue_overcommit m a q w) =
      same_result call called in
    let index_lt : q.wqlist_index < workqueue_max =
      elim (List-cases (overcommit_items m' q.wqlist_index)) [
        | inl nil ↦ absurd (
            ground (
              arith,
              items q.wqlist_index,
              nil,
              is_empty-append (overcommit_items m q.wqlist_index) w,
            ))
        | inr (x, rest, holds) ↦ overcommit-lt valid q.wqlist_index x rest holds
      ] in
    subst (λ x. Added m x.0 x.1 w) same
      (record {
        valid = valid;
        moved = λ f.
            total-append_at f (overcommit_items m) (overcommit_items m') q.wqlist_index w index_lt
              items;
        counted = counted;
      })

-- The overcommit queues and their counters are as before.
pub record Apart (m m' : Manager) : Type 0 where
  pub valid : Inv m'
  pub items : (j : ℕ) → overcommit_items m' j ≡ overcommit_items m j
  pub idle : m'.ocwq_idle_threads ≡ m.ocwq_idle_threads
  pub signals : m'.ocwq_signal_count ≡ m.ocwq_signal_count

pub over-Apart : {m m' : Manager} (f : Work → ℕ) → Apart m m' → over f m' ≡ over f m
over-Apart {m} {m'} f a = total-congr f (overcommit_items m) (overcommit_items m') a.items

pub enqueue-Apart :
    {m m' : Manager} (a : ℕ) (q : Workqueue) (w : Work)
    → Inv m
    → get_elem? m.heap a ≡ some q
    → is_nonzero q.overcommit ≡ false
    → enqueue m a q w ≡ ret m'
    → Apart m m'
enqueue-Apart {m} {m'} a q w v at plain call =
    let (n, call', frame, valid, items, aside) = enqueue_ok v a q w at plain in
    let same : n ≡ m' = ap (λ r. result_of r m) (sym call' ∙ call) in
    subst (Apart m) same (record {
      valid = valid;
      items = aside;
      idle = ap (λ (k : Manager). k.ocwq_idle_threads) frame;
      signals = ap (λ (k : Manager). k.ocwq_signal_count) frame;
    })

same-Apart : {m : Manager} → Inv m → Apart m m
same-Apart v = record { valid = v; items = λ j. refl; idle = refl; signals = refl }

pub scan-Apart :
    {m m' : Manager} (i a : ℕ) (skip : Bool) (x : Option (Work × ℤ))
    → Inv m
    → slot m.wqlist i ≡ some a
    → scan_queue m i skip ≡ ret (m', x)
    → Apart m m'
scan-Apart {m} {m'} i a skip x v own call = elim (scan_queue-QueueResult v i a own skip) [
  | empty nil e ↦ subst (Apart m) (state e) (same-Apart v)
  | held_back w rest ask lt there e ↦ subst (Apart m) (state e) (same-Apart v)
  | took w rest n runs r e ↦ subst (Apart m) (state e) (record {
    valid = r.valid;
    items = r.aside;
    idle = ap (λ (k : Manager). k.ocwq_idle_threads) r.frame;
    signals = ap (λ (k : Manager). k.ocwq_signal_count) r.frame;
  })
]
  where
    state : {n : Manager} {y : Option (Work × ℤ)} → scan_queue m i skip ≡ ret (n, y) → n ≡ m'
    state {n} {y} e =
        ap (λ r. (result_of {A = Manager × Option (Work × ℤ)} r (n, y)).0) (sym e ∙ call)

pub create-Apart :
    {m : Manager} (attr : Option Attr) (spawns : List Spawn) {d : Created}
    → Inv m
    → refuses attr ≡ false
    → CanStart spawns
    → pthread_workqueue_create_np true spawns m attr ≡ ret d
    → Apart m d.manager
create-Apart {m} attr spawns {d} v accepted can call =
    elim (Option-cases (slot (table_of m (new_workqueue attr)) (prio_of attr))) [
      | inl vacant ↦
          let (m', a, call', made) = create_ok v attr spawns accepted can vacant in
          let same : m' ≡ d.manager = ap (λ r. (result_of r d).manager) (sym call' ∙ call) in
          subst (Apart m) same (record {
            valid = made.valid;
            items = made.over_items;
            idle = made.idle_threads;
            signals = made.signal_count;
          })
      | inr (b, taken) ↦ cc (create_aborts v attr spawns accepted can b taken)
    ]

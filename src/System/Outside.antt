-- ===== src/System/Outside.antt =====
-- What the clients and the overcommit threads, and the manager thread when it stops a worker, do to
-- the counters and the queues of the workers.
use libpwq.Prelude.{
  ℕ, ◌<◌, ◌≡◌, refl, sym, ap, subst, ◌∙◌, Option, some, List, is_nonzero, true, false, get_elem?,
  Outcome, ret, arith, inl, inr, Option-cases,
}
use libpwq.Workqueue.{slot, Work, Workqueue, workqueue_max}
use libpwq.Manager.{Manager, Effect}
use libpwq.Manager.Invariant.{table_of, Inv, pending_items, pending-lt}
use libpwq.Manager.Additem.{enqueue, enqueue_overcommit, manager_workqueue_additem}
use libpwq.Manager.Additem.Laws.{append_at, enqueue_ok, additem_overcommit, is_empty-append}
use libpwq.Manager.Scan.Priority.{List-cases}
use libpwq.Manager.Pool.{first_workqueue, worker_stop}
use libpwq.Manager.Pool.Laws.{worker_stop_lem}
use libpwq.Manager.Overcommit.{take_overcommit}
use libpwq.Manager.Overcommit.Laws.{nothing, took, take_overcommit-TakeResult}
use libpwq.Attr.{Attr}
use libpwq.Manager.Create.{Spawn}
use libpwq.Manager.Create.Start.{CanStart}
use libpwq.Api.{Created, refuses, new_workqueue, pthread_workqueue_create_np}
use libpwq.Api.Create.{prio_of, create_ok, create_aborts}
use libpwq.System.Tally.{SameRest}
use libpwq.System.Items.{SameQueues, same-queues}

-- An item was put at the end of the queue at index `i`, and the counters are as before.
pub record Put (m m' : Manager) (i : ℕ) (w : Work) : Type 0 where
  pub index_lt : i < workqueue_max
  pub items : (j : ℕ) → pending_items m' j ≡ append_at (pending_items m) i w j
  pub scores : SameRest m m'
  pub valid : Inv m'

-- The state in a result, or the one given.
in_result : {A : Type 0} → Manager → (A → Manager) → Outcome A → Manager
in_result m g (ret a) = g a
in_result m g _ = m

frame-SameRest :
    (m m' : Manager)
    → m' ≡ record m { wqlist_mask = m'.wqlist_mask; heap = m'.heap }
    → SameRest m m'
frame-SameRest m m' e = record {
  scoreboard = ap (λ (k : Manager). k.scoreboard) e;
  pending = ap (λ (k : Manager). k.pending_thread_create) e;
  table = ap (λ (k : Manager). k.wqlist) e;
}

-- A queue that an item was appended to is in the table.
append-lt :
    (m : Manager) {m' : Manager} (i : ℕ) (w : Work)
    → Inv m'
    → pending_items m' i ≡ append_at (pending_items m) i w i
    → i < workqueue_max
append-lt m {m'} i w v e = elim (List-cases (pending_items m' i)) [
  | inl nil ↦ absurd (ground (arith, e, nil, is_empty-append (pending_items m i) w))
  | inr (x, rest, holds) ↦ pending-lt v i x rest holds
]

enqueue_overcommit-SameRest :
    (m : Manager) (a : ℕ) (q : Workqueue) (w : Work) → SameRest m (enqueue_overcommit m a q w).0
unfolding enqueue_overcommit
enqueue_overcommit-SameRest m a q w = record {
  scoreboard = ground arith;
  pending = ground arith;
  table = ground arith;
}

-- The section in which a client adds an item.
pub enqueue-Put :
    {m m' : Manager} (a : ℕ) (q : Workqueue) (w : Work)
    → Inv m
    → get_elem? m.heap a ≡ some q
    → is_nonzero q.overcommit ≡ false
    → enqueue m a q w ≡ ret m'
    → Put m m' q.wqlist_index w
unfolding in_result
enqueue-Put {m} {m'} a q w v at plain call =
    let (n, call', frame, valid, items, _) = enqueue_ok v a q w at plain in
    let same : m' ≡ n = ap (in_result m (λ x. x)) (sym call ∙ call') in
    subst (λ k. Put m k q.wqlist_index w) (sym same)
      (record {
        index_lt = append-lt m q.wqlist_index w valid (items q.wqlist_index);
        items = items;
        scores = frame-SameRest m n frame;
        valid = valid;
      })

-- worker_stop.
pub stop-Put :
    {m m' : Manager} {effects : List Effect} (w : Work)
    → Inv m
    → worker_stop m w ≡ ret (m', effects)
    → (i : ℕ) × Put m m' i w
unfolding in_result worker_stop
stop-Put {m} {m'} {effects} w v call = elim (Option-cases (first_workqueue m.wqlist)) [
  | inl none_there ↦ absurd (ground (arith, call, none_there))
  | inr (a, at) ↦
      let (n, i, call', s) = worker_stop_lem a w v at in
      let same : m' ≡ n = ap (in_result m (λ x. x.0)) (sym call ∙ call') in
      (
        i,
        subst (λ k. Put m k i w) (sym same)
            (record {
              index_lt = append-lt m i w s.valid (s.items i);
              items = s.items;
              scores = frame-SameRest m n s.frame;
              valid = s.valid;
            }),
      )
]

-- Neither the counters nor the plain queues changed.
pub record Aside (m m' : Manager) : Type 0 where
  pub scores : SameRest m m'
  pub queues : SameQueues m m'

pub enqueue_overcommit-Aside :
    {m : Manager} (a : ℕ) (q : Workqueue) (w : Work)
    → Inv m
    → get_elem? m.heap a ≡ some q
    → is_nonzero q.overcommit ≡ true
    → Aside m (enqueue_overcommit m a q w).0
unfolding in_result manager_workqueue_additem
enqueue_overcommit-Aside {m} a q w v at oc =
    let (n, effects, call, valid, _, items, _) = additem_overcommit v a q w at oc in
    let called : manager_workqueue_additem m a w ≡ ret (enqueue_overcommit m a q w) =
      ground (arith, at, oc) in
    let same : (enqueue_overcommit m a q w).0 ≡ n =
      ap (in_result m (λ x. x.0)) (sym called ∙ call) in
    record {
      scores = enqueue_overcommit-SameRest m a q w;
      queues = subst (SameQueues m) (sym same) (record { items = items; valid = valid });
    }

pub take_overcommit-Aside :
    {m m' : Manager} (item : Option Work) → Inv m → take_overcommit m ≡ ret (m', item) → Aside m m'
unfolding in_result
take_overcommit-Aside {m} {m'} item v call = elim (take_overcommit-TakeResult v) [
  | nothing idle e ↦
      let same : m' ≡ m = ap (in_result m (λ x. x.0)) (sym call ∙ e) in
      rw same (record {
        scores = record { scoreboard = refl; pending = refl; table = refl };
        queues = same-queues v;
      })
  | took i w rest n t e ↦
      let same : m' ≡ n = ap (in_result m (λ x. x.0)) (sym call ∙ e) in
      rw same (record {
        scores = record {
          scoreboard = ap (λ (k : Manager). k.scoreboard) t.frame;
          pending = ap (λ (k : Manager). k.pending_thread_create) t.frame;
          table = ap (λ (k : Manager). k.wqlist) t.frame;
        };
        queues = record { items = t.aside; valid = t.valid };
      })
]

-- Neither the counters nor the items in the plain queues changed, and no queue left its table.
pub record Grown (m m' : Manager) : Type 0 where
  pub scoreboard : m'.scoreboard ≡ m.scoreboard
  pub pending : m'.pending_thread_create ≡ m.pending_thread_create
  pub table : (j a : ℕ) → slot m.wqlist j ≡ some a → slot m'.wqlist j ≡ some a
  pub queues : SameQueues m m'

pub Aside-Grown : {m m' : Manager} → Aside m m' → Grown m m'
Aside-Grown a = record {
  scoreboard = a.scores.scoreboard;
  pending = a.scores.pending;
  table = λ j b e. rw (a.scores.table) e;
  queues = a.queues;
}

-- A workqueue that is created.
pub create-Grown :
    {m : Manager} (attr : Option Attr) (spawns : List Spawn) {c : Created}
    → Inv m
    → refuses attr ≡ false
    → CanStart spawns
    → pthread_workqueue_create_np true spawns m attr ≡ ret c
    → Grown m c.manager
unfolding in_result
create-Grown {m} attr spawns {c} v accepted can call =
    elim (Option-cases (slot (table_of m (new_workqueue attr)) (prio_of attr))) [
      | inl vacant ↦
          let (m', a, call', made) = create_ok v attr spawns accepted can vacant in
          let same : m' ≡ c.manager = ap (in_result m (λ d. d.manager)) (sym call' ∙ call) in
          subst (Grown m) same (record {
            scoreboard = made.scoreboard;
            pending = made.pending;
            table = made.kept;
            queues = record { items = made.items; valid = made.valid };
          })
      | inr (b, taken) ↦ cc (create_aborts v attr spawns accepted can b taken)
    ]

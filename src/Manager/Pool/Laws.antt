-- ===== src/Manager/Pool/Laws.antt =====
-- worker_start and worker_stop: what they do to the counters and the queues.
use libpwq.Prelude
use libpwq.Prelude.{
  ℕ, zero, suc, ◌+◌, ◌<◌, ◌≡◌, refl, sym, ap, ◌∙◌, Option, none, some, List, [], ◌∷◌, ◌++◌, Bool,
  true, false, ◌==◌, not, is_nonzero, get_elem?, is_empty, if◌then◌else◌, arith, ret, inl, inr,
  Option-cases, Outcome,
}
use libpwq.Word.{set_bit, u32_mod, inc32}
use libpwq.Word.Bits.{bit-set_bit}
use libpwq.Workqueue.{Work, Workqueue, slot, items_of}
use libpwq.Manager.{Manager, signal_worker}
use libpwq.Manager.Invariant.{Inv, pending_items, overcommit_items}
use libpwq.Manager.Tables.{write_normal-Inv, deref-set_own, deref-set_other}
use libpwq.Manager.Additem.{insert_tail}
use libpwq.Manager.Additem.Laws.{
  append_at, set_queue_mask_lem, insert_tail-SameKey, is_empty-append,
}
use libpwq.Manager.Pool.{worker_start, first_workqueue, worker_stop}

-- The loop of worker_stop stops at the lowest index that is used.
pub first_workqueue_lem :
    (table : List (Option ℕ)) (a : ℕ)
    → first_workqueue table ≡ some a
    → (i : ℕ) × (slot table i ≡ some a) × ((j : ℕ) → j < i → slot table j ≡ none)
unfolding first_workqueue
first_workqueue_lem [] a e = cc
first_workqueue_lem (none ∷ rest) a e =
    let (i, at, before) = first_workqueue_lem rest a e in (suc i, at, below i before)
  where
    below :
        (i : ℕ)
        → ((j : ℕ) → j < i → slot rest j ≡ none)
        → (j : ℕ) → j < suc i
        → slot (none ∷ rest) j ≡ none
    below i before zero h = refl
    below i before (suc j) h = before j (omega arith)
first_workqueue_lem (some b ∷ rest) a e = (0, e, λ j h. absurd (omega arith))

-- A request to exit went to the end of the most urgent queue that exists.
pub record IsStopped (m m' : Manager) (w : Work) (i : ℕ) : Type 0 where
  pub lowest : (j : ℕ) → j < i → slot m.wqlist j ≡ none
  pub items : (j : ℕ) → pending_items m' j ≡ append_at (pending_items m) i w j
  pub over_items : (j : ℕ) → overcommit_items m' j ≡ overcommit_items m j
  pub frame : m' ≡ record m { wqlist_mask = m'.wqlist_mask; heap = m'.heap }
  pub valid : Inv m'

worker_stop_call :
    (m : Manager) (a : ℕ) (q : Workqueue) (w : Work)
    → first_workqueue m.wqlist ≡ some a
    → get_elem? m.heap a ≡ some q
    → worker_stop m w
      ≡ ret (
        record m {
          wqlist_mask = set_bit m.wqlist_mask q.wqlist_index;
          heap = Prelude.set m.heap a (insert_tail q w);
        },
        signal_worker ∷ [],
      )
unfolding worker_stop
worker_stop_call m a q w found at =
    ground (arith, found, at, set_queue_mask_lem m.wqlist_mask q.wqlist_index)

-- If there is a workqueue with no overcommit and the invariant holds, worker_stop returns: its item
-- is the last of the most urgent of these queues, and a waiting worker is signalled.
pub worker_stop_lem :
    {m : Manager} (a : ℕ) (w : Work)
    → Inv m
    → first_workqueue m.wqlist ≡ some a
    → (m' : Manager) × (i : ℕ) × (worker_stop m w ≡ ret (m', signal_worker ∷ []))
      × IsStopped m m' w i
unfolding insert_tail
worker_stop_lem {m} a w v found =
    let (i, own, lowest) = first_workqueue_lem m.wqlist a found in
    let (q, at, st) = v.normal.entry i a own in
    let own' : slot m.wqlist q.wqlist_index ≡ some a = rw (st.index) own in
    let q' : Workqueue = insert_tail q w in
    (
      record m {
        wqlist_mask = set_bit m.wqlist_mask q.wqlist_index;
        heap = Prelude.set m.heap a q';
      },
      i,
      worker_stop_call m a q w found at,
      record {
        lowest = lowest;
        items = λ j. ground (arith, deref-set_own v.normal a q q' at own' j, own', st.index);
        over_items = λ j. ap items_of (deref-set_other v.over a q q' at (λ e. cc (st.kind)) j);
        frame = refl;
        valid =
            write_normal-Inv v a q q' at (insert_tail-SameKey q w)
              (set_bit m.wqlist_mask q.wqlist_index) st.kind
              (λ j h. ground (
                arith,
                bit-set_bit m.wqlist_mask q.wqlist_index j,
                is_empty-append q.item_listhead w,
              ));
      },
    )

-- worker_start counts the new worker as idle, and takes both counts back if there is no thread;
-- `pending_thread_create` is counted up either way.
pub worker_start_lem :
    (m : Manager) (success : Bool)
    → m.scoreboard.idle < u32_mod
    → m.scoreboard.count < u32_mod
    → let (m', started) = worker_start success m in
      (started ≡ success)
      × (m'.pending_thread_create ≡ inc32 m.pending_thread_create)
      × (m'.scoreboard.idle ≡ (if success then inc32 m.scoreboard.idle else m.scoreboard.idle))
      × (m'.scoreboard.count ≡ (if success then inc32 m.scoreboard.count else m.scoreboard.count))
unfolding worker_start
worker_start_lem m true small_idle small_count = (refl, refl, refl, refl)
worker_start_lem m false small_idle small_count = (refl, refl, omega arith, omega arith)

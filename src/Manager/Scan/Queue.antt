-- ===== src/Manager/Scan/Queue.antt =====
-- The section of wqlist_scan under the lock of the queue that it picked, also where the queue is no
-- longer the most urgent one with an item.
use libpwq.Prelude.{
  ℕ, pos, ◌<◌, ◌≡◌, refl, some, none, List, [], ◌∷◌, Bool, true, false, ◌==◌, ◌&&◌, if◌then◌else◌,
  get_elem?, Outcome, ret, arith, inl, inr, Bool-cases,
}
use libpwq.Workqueue.{Work, Workqueue, workqueue_max, is_null, slot}
use libpwq.Manager.{Manager}
use libpwq.Manager.Invariant.{Inv, IsStored, pending_items, overcommit_items, entry-lt}
use libpwq.Manager.Scan.{Scanned, take_first, scan_queue}
use libpwq.Manager.Scan.Laws.{
  left_behind, remove_head_lem, left_behind-Inv, pending-left_behind, overcommit-left_behind,
}

-- The head `w` of queue `i` was removed, and `rest` stays; `m'` is the manager afterwards.
pub record Removed (m m' : Manager) (i : ℕ) (w : Work) (rest : List Work) : Type 0 where
  pub found : pending_items m i ≡ w ∷ rest
  pub index_lt : i < workqueue_max
  pub left : (j : ℕ) → pending_items m' j ≡ (if i == j then rest else pending_items m j)
  pub aside : (j : ℕ) → overcommit_items m' j ≡ overcommit_items m j
  pub frame : m' ≡ record m { wqlist_mask = m'.wqlist_mask; heap = m'.heap }
  pub valid : Inv m'

-- The three ways in which the section ends: the queue is empty; its head asks a thread to exit, and
-- such items are skipped; or its head is taken.
pub data QueueResult (m : Manager) (i : ℕ) (skip : Bool) (r : Outcome Scanned) : Type 0 where
  empty : pending_items m i ≡ [] → r ≡ ret (m, none) → QueueResult m i skip r
  held_back :
      (w : Work) (rest : List Work)
      → (skip && is_null w.func) ≡ true
      → i < workqueue_max
      → pending_items m i ≡ w ∷ rest
      → r ≡ ret (m, none)
      → QueueResult m i skip r
  took :
      (w : Work) (rest : List Work) (m' : Manager)
      → (skip && is_null w.func) ≡ false
      → Removed m m' i w rest
      → r ≡ ret (m', some (w, pos i))
      → QueueResult m i skip r

module _ {m : Manager} (v : Inv m) (i a : ℕ) (own : slot m.wqlist i ≡ some a) (skip : Bool) where
  abbrev entry : (q : Workqueue) × (get_elem? m.heap a ≡ some q) × IsStored false i q
  entry = v.normal.entry i a own

  by_items :
      (q : Workqueue) (items : List Work)
      → get_elem? m.heap a ≡ some q
      → IsStored false i q
      → q.item_listhead ≡ items
      → QueueResult m i skip (scan_queue m i skip)
  unfolding scan_queue take_first
  by_items q [] at st holds =
      empty (ground (arith, own, at, holds)) (ground (arith, own, at, holds))
  by_items q (w ∷ rest) at st holds = elim (Bool-cases (skip && is_null w.func)) [
    | inl exits ↦
        held_back w rest exits (entry-lt v.normal i a own) (ground (arith, own, at, holds))
          (ground (arith, own, at, holds, exits))
    | inr runs ↦
        took w rest (left_behind v i a q w rest own at st.index st.kind holds) runs
          (record {
            found = ground (arith, own, at, holds);
            index_lt = entry-lt v.normal i a own;
            left = pending-left_behind v i a q w rest own at st.index st.kind holds;
            aside = overcommit-left_behind v i a q w rest own at st.index st.kind holds;
            frame = unfold left_behind in refl;
            valid = left_behind-Inv v i a q w rest own at st.index st.kind holds;
          })
          (ground (
            arith,
            own,
            at,
            holds,
            runs,
            st.prio,
            remove_head_lem v i a q w rest own at st.index st.kind holds,
          ))
  ]

  -- The section under the lock of a queue that exists always returns, in one of the three ways.
  pub scan_queue-QueueResult : QueueResult m i skip (scan_queue m i skip)
  scan_queue-QueueResult = let (q, at, st) = entry in by_items q q.item_listhead at st refl

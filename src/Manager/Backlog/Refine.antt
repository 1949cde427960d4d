-- ===== src/Manager/Backlog/Refine.antt =====
-- manager_workqueue_additem and wqlist_scan as operations on the backlog.
use libpwq.Prelude.{
  ℕ, suc, pos, ℤ, ◌+◌, ◌-◌, ◌<◌, ◌≡◌, refl, Option, none, some, List, [], ◌∷◌, ◌++◌, Bool, false,
  ◌&&◌, ◌==◌, is_nonzero, get_elem?, if◌then◌else◌, arith, ret,
}
use libpwq.Workqueue.{Work, Workqueue, workqueue_max, is_null}
use libpwq.Manager.{Manager, Effect}
use libpwq.Manager.Invariant.{Inv, pending_items, entry-lt}
use libpwq.Manager.Additem.{manager_workqueue_additem}
use libpwq.Manager.Additem.Laws.{additem_normal, own_slot}
use libpwq.Manager.Scan.{wqlist_scan}
use libpwq.Manager.Scan.Priority.{Took, nothing, held_back, took, wqlist_scan-ScanResult}
use libpwq.Manager.Backlog.{gather, backlog, gather-take, gather-insert, gather-nil}

-- What a scan is to take from a list of items: the first one, unless it asks a thread to exit and
-- such items are skipped.
unfoldable pub next_item : Bool → List Work → Option (Work × List Work)
next_item skip [] = none
next_item skip (w ∷ rest) = if skip && is_null w.func then none else some (w, rest)

-- The result of a scan, and the manager after it, against `next_item` of the backlog before.
abbrev pub Takes : Bool → Manager → Manager → Option (Work × ℤ) → Type 0
Takes skip m m' none = (next_item skip (backlog m) ≡ none) × (m' ≡ m)
Takes skip m m' (some (w, prio)) = next_item skip (backlog m) ≡ some (w, backlog m')

-- From a state that satisfies the invariant a scan returns, keeps the invariant, and takes from the
-- backlog what `next_item` says; where there is nothing to take, nothing changes.
pub scan_refines :
    {m : Manager} (skip : Bool)
    → Inv m
    → (m' : Manager) × (found : Option (Work × ℤ)) × (wqlist_scan m skip ≡ ret (m', found))
      × Inv m'
      × Takes skip m m' found
unfolding next_item
scan_refines {m} skip v = elim (wqlist_scan-ScanResult v skip) [
  | nothing empty e ↦
      let none_left : backlog m ≡ [] =
        gather-nil workqueue_max 0 (pending_items m) (λ j h. empty j (omega arith)) in
      (m, none, e, v, (rw none_left refl, refl))
  | held_back i w rest exits small at before e ↦
      let head = heads i w rest small before at in (m, none, e, v, (rw head (rw exits refl), refl))
  | took i w rest m' runs t e ↦ (m', some (w, pos i), e, t.valid, takes i w rest m' runs t)
]
  where
    -- The backlog starts with the first item of the first queue that has one.
    heads :
        (i : ℕ) (w : Work) (rest : List Work)
        → i < workqueue_max
        → ((j : ℕ) → j < i → pending_items m j ≡ [])
        → pending_items m i ≡ w ∷ rest
        → backlog m ≡ w ∷ gather workqueue_max 0 (λ j. if i == j then rest else pending_items m j)
    heads i w rest small before at =
        gather-take workqueue_max 0 i (pending_items m) _ w rest (omega arith) small before at
          (λ j. refl)

    takes :
        (i : ℕ) (w : Work) (rest : List Work) (m' : Manager)
        → (skip && is_null w.func) ≡ false
        → Took m m' i w rest
        → next_item skip (backlog m) ≡ some (w, backlog m')
    takes i w rest m' runs t =
        let head =
          gather-take workqueue_max 0 i (pending_items m) (pending_items m') w rest (omega arith)
            t.index_lt t.urgent t.found t.left in
        rw (head, runs) refl

-- In such a state, adding an item to a queue with no overcommit returns, keeps the invariant, and
-- puts the item in the backlog behind all items of queues that are as urgent or more, before all
-- others.
pub additem_refines :
    {m : Manager} (a : ℕ) (q : Workqueue) (w : Work)
    → Inv m
    → get_elem? m.heap a ≡ some q
    → is_nonzero q.overcommit ≡ false
    → (m' : Manager) × (effects : List Effect) × (manager_workqueue_additem m a w
        ≡ ret (m', effects))
      × Inv m'
      × (backlog m'
          ≡ gather (suc q.wqlist_index) 0 (pending_items m)
            ++ w ∷ gather (30 - q.wqlist_index) (q.wqlist_index + 1) (pending_items m))
additem_refines {m} a q w v at plain =
    let (m', call, valid, items, _) = additem_normal v a q w at plain in
    let small = entry-lt v.normal q.wqlist_index a (own_slot v a q w at plain) in
    (
      m',
      _,
      call,
      valid,
      gather-insert q.wqlist_index workqueue_max (30 - q.wqlist_index) 0 q.wqlist_index
          (pending_items m) (pending_items m') w (omega arith) (omega arith) items,
    )

-- ===== src/Windows/Legacy/Laws.antt =====
-- The workqueues of the manager for Windows XP as one list of items.
use libpwq.Prelude.{
  ℕ, subst, ◌≡◌, refl, sym, Option, none, some, List, [], ◌∷◌, ◌++◌, ◌⊎◌, inl, inr, arith,
}
use libpwq.Workqueue.{Work, Workqueue}
use libpwq.Manager.Scan.Priority.{List-cases}
use libpwq.Windows.Legacy.{Legacy, scan_list, scan_lists, wqlist_scan}

-- All items, those of more urgent queues first.
unfoldable pub items_in : List (ℕ × Workqueue) → List Work
items_in [] = []
items_in ((a, q) ∷ rest) = q.item_listhead ++ items_in rest

unfoldable pub all_items : List (List (ℕ × Workqueue)) → List Work
unfolding items_in
all_items [] = []
all_items (queues ∷ rest) = items_in queues ++ all_items rest

scan_list_lem :
    (queues : List (ℕ × Workqueue))
    → ((scan_list queues ≡ none) × (items_in queues ≡ []))
      ⊎ ((w : Work) × (queues' : List (ℕ × Workqueue)) × (scan_list queues ≡ some (w, queues'))
          × (items_in queues ≡ w ∷ items_in queues'))
unfolding scan_list items_in
scan_list_lem [] = inl (refl, refl)
scan_list_lem ((a, q) ∷ rest) = elim (List-cases q.item_listhead) [
  | inl none_here ↦ elim (scan_list_lem rest) [
    | inl (e, nil) ↦ inl (rw (none_here, e) refl, rw none_here nil)
    | inr (w, rest', e, items) ↦
        inr (w, (a, q) ∷ rest', ground (arith, none_here, e), ground (arith, none_here, items))
  ]
  | inr (w, items, holds) ↦
      inr (w, (a, record q { item_listhead = items }) ∷ rest, rw holds refl, rw holds refl)
]

scan_lists_lem :
    (lists : List (List (ℕ × Workqueue)))
    → ((scan_lists lists ≡ none) × (all_items lists ≡ []))
      ⊎ ((w : Work) × (lists' : List (List (ℕ × Workqueue))) × (scan_lists lists ≡ some (w, lists'))
          × (all_items lists ≡ w ∷ all_items lists'))
unfolding scan_lists all_items
scan_lists_lem [] = inl (refl, refl)
scan_lists_lem (queues ∷ rest) = elim (scan_list_lem queues) [
  | inl (e, nil) ↦ elim (scan_lists_lem rest) [
    | inl (e', nil') ↦ inl (ground (arith, e, e'), rw nil nil')
    | inr (w, rest', e', items) ↦ inr (w, queues ∷ rest', ground (arith, e, e'), rw nil items)
  ]
  | inr (w, queues', e, items) ↦ inr (w, queues' ∷ rest, ground (arith, e), rw items refl)
]

-- What a scan is to find and to leave: the first of all items is taken and the others stay, or
-- there is none and nothing changes.
abbrev pub TakesFirst : Legacy → Legacy × Option Work → Type 0
TakesFirst s (s', none) = (all_items s.wqlist ≡ []) × (s' ≡ s)
TakesFirst s (s', some w) = all_items s.wqlist ≡ w ∷ all_items s'.wqlist

-- A scan takes the first of all items and leaves the others as they are, in their order; where
-- there is no item it finds none and changes nothing.
pub legacy_scan_refines : (s : Legacy) → TakesFirst s (wqlist_scan s)
unfolding wqlist_scan
legacy_scan_refines s = elim (scan_lists_lem s.wqlist) [
  | inl (e, nil) ↦
      let call : wqlist_scan s ≡ (s, none) = rw (wqlist_scan, e) refl in
      subst (TakesFirst s) (sym call) (nil, refl)
  | inr (w, lists, e, items) ↦
      let call : wqlist_scan s ≡ (record { wqlist = lists }, some w) = rw (wqlist_scan, e) refl in
      subst (TakesFirst s) (sym call) items
]

-- ===== src/Manager/Scan/Priority.antt =====
-- Which item wqlist_scan takes.
use libpwq.Prelude.{
  ℕ, zero, suc, pos, ◌<◌, ◌≡◌, ◌⊎◌, inl, inr, refl, sym, ◌∙◌, some, none, List, [], ◌∷◌, true,
  false, not, ◌==◌, ◌&&◌, if◌then◌else◌, get_elem?, is_empty, Outcome, ret, arith, Bool-cases,
  Option-cases, Bool,
}
use libpwq.Word.{ffs}
use libpwq.Word.Ffs.{ffs_zero, ffs_lt, bit-ffs, ffs_least}
use libpwq.Workqueue.{Work, Workqueue, workqueue_max, is_null, slot}
use libpwq.Manager.{Manager}
use libpwq.Manager.Invariant.{Inv, IsStored, pending_items, overcommit_items, entry-lt}
use libpwq.Manager.Scan.{Scanned, take_first, scan_queue, wqlist_scan}
use libpwq.Manager.Scan.Laws.{
  left_behind, remove_head_lem, left_behind-Inv, pending-left_behind, overcommit-left_behind,
}

-- The head `w` of queue `i` was removed, and `rest` stays; `m'` is the manager afterwards.
pub record Took (m m' : Manager) (i : ℕ) (w : Work) (rest : List Work) : Type 0 where
  pub found : pending_items m i ≡ w ∷ rest
  pub urgent : (j : ℕ) → j < i → pending_items m j ≡ []
  pub index_lt : i < workqueue_max
  pub left : (j : ℕ) → pending_items m' j ≡ (if i == j then rest else pending_items m j)
  pub aside : (j : ℕ) → overcommit_items m' j ≡ overcommit_items m j
  pub frame : m' ≡ record m { wqlist_mask = m'.wqlist_mask; heap = m'.heap }
  pub valid : Inv m'

-- The three ways a scan ends: all queues are empty; the first item asks a thread to exit and such
-- items are skipped; or the first item is taken.
pub data ScanResult (m : Manager) (skip : Bool) (r : Outcome Scanned) : Type 0 where
  nothing : ((j : ℕ) → j < 32 → pending_items m j ≡ []) → r ≡ ret (m, none) → ScanResult m skip r
  held_back :
      (i : ℕ) (w : Work) (rest : List Work)
      → (skip && is_null w.func) ≡ true
      → i < workqueue_max
      → pending_items m i ≡ w ∷ rest
      → ((j : ℕ) → j < i → pending_items m j ≡ [])
      → r ≡ ret (m, none)
      → ScanResult m skip r
  took :
      (i : ℕ) (w : Work) (rest : List Work) (m' : Manager)
      → (skip && is_null w.func) ≡ false
      → Took m m' i w rest
      → r ≡ ret (m', some (w, pos i))
      → ScanResult m skip r

pub List-cases {ℓ} :
    {A : Type ℓ} (xs : List A) → (xs ≡ []) ⊎ ((x : A) × (r : List A) × (xs ≡ x ∷ r))
List-cases [] = inl refl
List-cases (x ∷ r) = inr (x, r, refl)

pub nil_of_empty : (xs : List Work) → not (is_empty xs) ≡ false → xs ≡ []
nil_of_empty [] h = refl
nil_of_empty (x ∷ xs) h = cc

module _ {m : Manager} (v : Inv m) (skip : Bool) where
  none_pending : ffs m.wqlist_mask ≡ 0 → (j : ℕ) → j < 32 → pending_items m j ≡ []
  none_pending e j h = nil_of_empty _ (sym (v.normal.pending j h) ∙ ffs_zero m.wqlist_mask j e h)

  module _ (i : ℕ) (e : ffs m.wqlist_mask ≡ suc i) where
    none_before : (j : ℕ) → j < i → pending_items m j ≡ []
    none_before j h = nil_of_empty _ (
        sym (v.normal.pending j (omega (arith, ffs_lt m.wqlist_mask i e)))
        ∙ ffs_least m.wqlist_mask i j e h)

    nonempty : not (is_empty (pending_items m i)) ≡ true
    nonempty = sym (v.normal.pending i (ffs_lt m.wqlist_mask i e)) ∙ bit-ffs m.wqlist_mask i e

    stored :
        (a : ℕ) × (q : Workqueue) × (slot m.wqlist i ≡ some a)
        × (get_elem? m.heap a ≡ some q)
        × IsStored false i q
    stored = elim (Option-cases (slot m.wqlist i)) [
      | inl s ↦ cc nonempty
      | inr (a, s) ↦ let (q, at, st) = v.normal.entry i a s in (a, q, s, at, st)
    ]

    scan_found : ScanResult m skip (scan_queue m i skip)
    unfolding scan_queue take_first
    scan_found =
        let (a, q, s, at, st) = stored in
        elim (List-cases q.item_listhead) [
          | inl none_here ↦ cc nonempty
          | inr (w, rest, holds) ↦ elim (Bool-cases (skip && is_null w.func)) [
            | inl exits ↦
                held_back i w rest exits (entry-lt v.normal i a s) (ground (arith, s, at, holds))
                  none_before (ground (arith, s, at, holds, exits))
            | inr runs ↦
                took i w rest (left_behind v i a q w rest s at st.index st.kind holds) runs
                  (record {
                    found = ground (arith, s, at, holds);
                    urgent = none_before;
                    index_lt = entry-lt v.normal i a s;
                    left = pending-left_behind v i a q w rest s at st.index st.kind holds;
                    aside = overcommit-left_behind v i a q w rest s at st.index st.kind holds;
                    frame = unfold left_behind in refl;
                    valid = left_behind-Inv v i a q w rest s at st.index st.kind holds;
                  })
                  (ground (
                    arith,
                    s,
                    at,
                    holds,
                    runs,
                    st.prio,
                    remove_head_lem v i a q w rest s at st.index st.kind holds,
                  ))
          ]
        ]

  -- From a state that satisfies the invariant every scan returns in one of three ways: it takes the
  -- first item of the lowest queue that has one, changes nothing else, and keeps the invariant; all
  -- queues are empty and nothing changes; or that first item asks a thread to exit, such items are
  -- to be skipped, and nothing changes.
  pub wqlist_scan-ScanResult : ScanResult m skip (wqlist_scan m skip)
  unfolding wqlist_scan
  wqlist_scan-ScanResult = go (ffs m.wqlist_mask) refl
    where
      go :
          (k : ℕ)
          → ffs m.wqlist_mask ≡ k
          → ScanResult m skip (elim k [ zero ↦ ret (m, none) | suc i ↦ scan_queue m i skip ])
      go zero e = nothing (none_pending e) refl
      go (suc i) e = scan_found i e

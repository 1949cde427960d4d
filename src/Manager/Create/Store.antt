-- ===== src/Manager/Create/Store.antt =====
-- The branch of manager_workqueue_create that fills a table, for a workqueue just allocated.
use native.Mathlib.Decide.{ℕ_discrete}
use libpwq.Prelude.{
  ℕ, zero, suc, ◌<◌, pos, is_nonzero, ◌≡◌, ◌≢◌, refl, sym, ap, ◌∙◌, Option, some, none, List, [],
  ◌∷◌, ◌++◌, true, false, if◌then◌else◌, length, ◌==◌, get_elem?, set, arith, get_elem?-set_self,
  get_elem?-set_ne, length-append, ret, aborts,
}
use libpwq.Workqueue.{Workqueue, workqueue_max, slot, items_of}
use libpwq.Manager.{Manager}
use libpwq.Manager.Invariant.{Inv, table_of, pending_items, overcommit_items}
use libpwq.Manager.Create.{table_get, store_workqueue}
use libpwq.Manager.Create.Laws.{
  entry_used, alloc-TableInv, set_free-TableInv, store-TableInv, slot-set, deref-alloc,
  deref-set_free,
}

slot_free :
    (table : List (Option ℕ)) (i : ℕ)
    → i < length table
    → slot table i ≡ none
    → get_elem? table i ≡ some none
slot_free [] i h e = absurd (omega arith)
slot_free (x ∷ xs) zero h e = ap some e
slot_free (x ∷ xs) (suc i) h e = slot_free xs i (omega arith) e

slot_taken :
    (table : List (Option ℕ)) (i a : ℕ) → slot table i ≡ some a → get_elem? table i ≡ some (some a)
slot_taken [] i a e = cc
slot_taken (x ∷ xs) zero a e = ap some e
slot_taken (x ∷ xs) (suc i) a e = slot_taken xs i a e

-- In the heap with one more cell, only the last address is new.
append_inv :
    (heap : List Workqueue) (q p : Workqueue) (b : ℕ)
    → get_elem? (heap ++ q ∷ []) b ≡ some p
    → b ≢ length heap
    → get_elem? heap b ≡ some p
append_inv [] q p zero e ne = absurd (ne refl)
append_inv [] q p (suc b) e ne = cc
append_inv (x ∷ heap) q p zero e ne = e
append_inv (x ∷ heap) q p (suc b) e ne = append_inv heap q p b e (λ same. ne (ap suc same))

module _ {m : Manager} (v : Inv m) (q : Workqueue) (p : ℕ) (prio : q.queueprio ≡ pos p)
    (small : p < workqueue_max) (no_items : q.item_listhead ≡ []) where
  abbrev pub address : ℕ
  address = length m.heap

  abbrev pub stored : Workqueue
  stored = record q { wqlist_index = p }

  abbrev grown : List Workqueue
  grown = m.heap ++ q ∷ []

  abbrev heap_after : List Workqueue
  heap_after = set grown address stored

  used : address < length grown
  used = omega (arith, length-append m.heap (q ∷ []))

  free_normal : (j : ℕ) → slot m.wqlist j ≢ some address
  free_normal j e = absurd (omega (arith, entry_used v.normal j address e))

  free_over : (j : ℕ) → slot m.ocwq j ≢ some address
  free_over j e = absurd (omega (arith, entry_used v.over j address e))

  pub heap_at : get_elem? heap_after address ≡ some stored
  heap_at = get_elem?-set_self grown address stored used

  old_registered :
      (b : ℕ) (r : Workqueue)
      → get_elem? heap_after b ≡ some r
      → b ≢ address
      → slot (table_of m r) r.wqlist_index ≡ some b
  old_registered b r e ne = v.registered b r (
      append_inv m.heap q r b (sym (get_elem?-set_ne grown address b stored (λ s. ne (sym s))) ∙ e)
        ne)

  module _ (plain : is_nonzero q.overcommit ≡ false) where
    abbrev pub stored_normal : Manager
    stored_normal = record m { wqlist = set m.wqlist p (some address); heap = heap_after }

    pub store_normal-lem :
        slot m.wqlist p ≡ none
        → store_workqueue (record m { heap = grown }) address q ≡ ret stored_normal
    unfolding store_workqueue table_get
    store_normal-lem vacant =
        ground (arith, prio, plain, slot_free m.wqlist p (rw v.normal.sized small) vacant)

    pub store_normal-taken :
        (b : ℕ)
        → slot m.wqlist p ≡ some b
        → store_workqueue (record m { heap = grown }) address q ≡ aborts
    unfolding store_workqueue table_get
    store_normal-taken b taken = ground (arith, prio, plain, slot_taken m.wqlist p b taken)

    -- No queue loses or gains an item.
    pub pending-stored_normal :
        slot m.wqlist p ≡ none → (j : ℕ) → pending_items stored_normal j ≡ pending_items m j
    pending-stored_normal vacant j = ground (
      arith,
      slot-set m.wqlist p j address (rw v.normal.sized small),
      vacant,
      heap_at,
      no_items,
      deref-set_free (alloc-TableInv v.normal q) address stored free_normal j,
      deref-alloc v.normal q j,
    )

    pub overcommit-stored_normal : (j : ℕ) → overcommit_items stored_normal j ≡ overcommit_items m j
    overcommit-stored_normal j = ap items_of (
        deref-set_free (alloc-TableInv v.over q) address stored free_over j
        ∙ deref-alloc v.over q j)

    pub stored_normal-Inv : slot m.wqlist p ≡ none → Inv stored_normal
    stored_normal-Inv vacant = record {
      normal =
          store-TableInv (alloc-TableInv v.normal q) address stored free_normal p small used vacant
            (record { index = refl; prio = prio; kind = plain }) no_items;
      over = set_free-TableInv (alloc-TableInv v.over q) address stored free_over;
      registered = λ b r e. elim (ℕ_discrete b address) [
        | yes same ↦
            let is_new : r ≡ stored = cc heap_at in
            rw (is_new, plain, same) (ground (arith, reads p))
        | no ne ↦ ground (arith, old_registered b r e ne, reads r.wqlist_index, vacant)
      ];
    }
      where
        reads :
            (j : ℕ)
            → slot (set m.wqlist p (some address)) j
              ≡ (if p == j then some address else slot m.wqlist j)
        reads j = slot-set m.wqlist p j address (rw v.normal.sized small)

  module _ (oc : is_nonzero q.overcommit ≡ true) where
    abbrev pub stored_over : Manager
    stored_over = record m { ocwq = set m.ocwq p (some address); heap = heap_after }

    pub store_over-lem :
        slot m.ocwq p ≡ none
        → store_workqueue (record m { heap = grown }) address q ≡ ret stored_over
    unfolding store_workqueue table_get
    store_over-lem vacant =
        ground (arith, prio, oc, slot_free m.ocwq p (rw v.over.sized small) vacant)

    pub store_over-taken :
        (b : ℕ)
        → slot m.ocwq p ≡ some b
        → store_workqueue (record m { heap = grown }) address q ≡ aborts
    unfolding store_workqueue table_get
    store_over-taken b taken = ground (arith, prio, oc, slot_taken m.ocwq p b taken)

    pub overcommit-stored_over :
        slot m.ocwq p ≡ none → (j : ℕ) → overcommit_items stored_over j ≡ overcommit_items m j
    overcommit-stored_over vacant j = ground (
      arith,
      slot-set m.ocwq p j address (rw v.over.sized small),
      vacant,
      heap_at,
      no_items,
      deref-set_free (alloc-TableInv v.over q) address stored free_over j,
      deref-alloc v.over q j,
    )

    pub pending-stored_over : (j : ℕ) → pending_items stored_over j ≡ pending_items m j
    pending-stored_over j = ap items_of (
        deref-set_free (alloc-TableInv v.normal q) address stored free_normal j
        ∙ deref-alloc v.normal q j)

    pub stored_over-Inv : slot m.ocwq p ≡ none → Inv stored_over
    stored_over-Inv vacant = record {
      normal = set_free-TableInv (alloc-TableInv v.normal q) address stored free_normal;
      over =
          store-TableInv (alloc-TableInv v.over q) address stored free_over p small used vacant
            (record { index = refl; prio = prio; kind = oc }) no_items;
      registered = λ b r e. elim (ℕ_discrete b address) [
        | yes same ↦
            let is_new : r ≡ stored = cc heap_at in rw (is_new, oc, same) (ground (arith, reads p))
        | no ne ↦ ground (arith, old_registered b r e ne, reads r.wqlist_index, vacant)
      ];
    }
      where
        reads :
            (j : ℕ)
            → slot (set m.ocwq p (some address)) j
              ≡ (if p == j then some address else slot m.ocwq j)
        reads j = slot-set m.ocwq p j address (rw v.over.sized small)

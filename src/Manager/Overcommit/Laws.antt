-- ===== src/Manager/Overcommit/Laws.antt =====
-- An overcommit worker takes the first item of the most urgent overcommit queue.
use libpwq.Prelude
use libpwq.Prelude.{
  ℕ, zero, suc, ◌+◌, ◌<◌, ◌≡◌, refl, sym, ap, ◌∙◌, Option, none, some, List, [], ◌∷◌, Bool, true,
  false, ◌==◌, ◌&&◌, not, is_nonzero, get_elem?, is_empty, if◌then◌else◌, arith, Outcome, ret, inl,
  inr, Option-cases, Bool-cases,
}
use libpwq.Word.{clear_bit, ffs}
use libpwq.Word.Bits.{bit-clear_bit}
use libpwq.Word.Ffs.{ffs_zero, ffs_lt, bit-ffs, ffs_least}
use libpwq.Workqueue.{Work, Workqueue, slot, items_of}
use libpwq.Manager.{Manager}
use libpwq.Manager.Invariant.{Inv, IsStored, pending_items, overcommit_items, entry-lt}
use libpwq.Manager.Tables.{write_over-Inv, deref-set_own, deref-set_other}
use libpwq.Manager.Scan.Priority.{List-cases, nil_of_empty}
use libpwq.Manager.Overcommit.{take_overcommit}

-- The head `w` of overcommit queue `i` was removed, and `rest` stays.
pub record TookOver (m m' : Manager) (i : ℕ) (w : Work) (rest : List Work) : Type 0 where
  pub found : overcommit_items m i ≡ w ∷ rest
  pub urgent : (j : ℕ) → j < i → overcommit_items m j ≡ []
  pub left : (j : ℕ) → overcommit_items m' j ≡ (if i == j then rest else overcommit_items m j)
  pub aside : (j : ℕ) → pending_items m' j ≡ pending_items m j
  pub frame : m' ≡ record m { ocwq_mask = m'.ocwq_mask; heap = m'.heap }
  pub valid : Inv m'

pub data TakeResult (m : Manager) (r : Outcome (Manager × Option Work)) : Type 0 where
  nothing : ((j : ℕ) → j < 32 → overcommit_items m j ≡ []) → r ≡ ret (m, none) → TakeResult m r
  took :
      (i : ℕ) (w : Work) (rest : List Work) (m' : Manager)
      → TookOver m m' i w rest
      → r ≡ ret (m', some w)
      → TakeResult m r

module _ {m : Manager} (v : Inv m) where
  none_pending : ffs m.ocwq_mask ≡ 0 → (j : ℕ) → j < 32 → overcommit_items m j ≡ []
  none_pending e j h = nil_of_empty _ (sym (v.over.pending j h) ∙ ffs_zero m.ocwq_mask j e h)

  module _ (i : ℕ) (e : ffs m.ocwq_mask ≡ suc i) where
    none_before : (j : ℕ) → j < i → overcommit_items m j ≡ []
    none_before j h = nil_of_empty _ (
        sym (v.over.pending j (omega (arith, ffs_lt m.ocwq_mask i e)))
        ∙ ffs_least m.ocwq_mask i j e h)

    nonempty : not (is_empty (overcommit_items m i)) ≡ true
    nonempty = sym (v.over.pending i (ffs_lt m.ocwq_mask i e)) ∙ bit-ffs m.ocwq_mask i e

    stored :
        (a : ℕ) × (q : Workqueue) × (slot m.ocwq i ≡ some a)
        × (get_elem? m.heap a ≡ some q)
        × IsStored true i q
    stored = elim (Option-cases (slot m.ocwq i)) [
      | inl s ↦ cc nonempty
      | inr (a, s) ↦ let (q, at, st) = v.over.entry i a s in (a, q, s, at, st)
    ]

    -- The manager after the head of `q` was removed.
    abbrev after : ℕ → Workqueue → List Work → Manager
    after a q rest = record m {
      heap = Prelude.set m.heap a (record q { item_listhead = rest });
      ocwq_mask = if is_empty rest then clear_bit m.ocwq_mask q.wqlist_index else m.ocwq_mask;
    }

    after-TookOver :
        (a : ℕ) (q : Workqueue) (w : Work) (rest : List Work)
        → slot m.ocwq i ≡ some a
        → get_elem? m.heap a ≡ some q
        → IsStored true i q
        → q.item_listhead ≡ w ∷ rest
        → TookOver m (after a q rest) i w rest
    after-TookOver a q w rest s at st holds =
        let own : slot m.ocwq q.wqlist_index ≡ some a = rw (st.index) s in
        let q' : Workqueue = record q { item_listhead = rest } in
        let small : q.wqlist_index < 32 = rw (st.index) (omega (arith, entry-lt v.over i a s)) in
        record {
          found = ground (arith, s, at, holds);
          urgent = none_before;
          left = λ j. ground (arith, deref-set_own v.over a q q' at own j, st.index);
          aside = λ j. ap items_of (deref-set_other v.normal a q q' at (λ plain. cc (st.kind)) j);
          frame = refl;
          valid =
              write_over-Inv v a q q' at (record { index = refl; prio = refl; kind = refl }) _
                st.kind
                (λ j h. ground (
                  arith,
                  bit-clear_bit m.ocwq_mask q.wqlist_index j small h,
                  v.over.pending j h,
                  own,
                  at,
                  holds,
                ));
        }

    taken : (r : Outcome (Manager × Option Work)) → r ≡ take_overcommit m → TakeResult m r
    unfolding take_overcommit
    taken r same =
        let (a, q, s, at, st) = stored in
        elim (List-cases q.item_listhead) [
          | inl none_here ↦ cc nonempty
          | inr (w, rest, holds) ↦
              took i w rest (after a q rest) (after-TookOver a q w rest s at st holds)
                (same ∙ ground (arith, e, s, at, holds))
        ]

  -- A round of an overcommit worker takes the first item of the lowest overcommit queue that has
  -- one; it finds nothing only if these queues are all empty.
  pub take_overcommit-TakeResult : TakeResult m (take_overcommit m)
  unfolding take_overcommit
  take_overcommit-TakeResult = go (ffs m.ocwq_mask) refl
    where
      go : (k : ℕ) → ffs m.ocwq_mask ≡ k → TakeResult m (take_overcommit m)
      go zero e = nothing (none_pending e) (ground (arith, e))
      go (suc i) e = taken i e (take_overcommit m) refl

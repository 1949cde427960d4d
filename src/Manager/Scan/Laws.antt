-- ===== src/Manager/Scan/Laws.antt =====
-- The steps of wqlist_scan: the mask, and the queue that it takes from.
use libpwq.Prelude
use libpwq.Prelude.{
  ℕ, zero, suc, pos, is_nonzero, ◌<◌, ◌≤◌, ◌≡◌, ◌⊎◌, inl, inr, refl, sym, ◌∙◌, ap, Option, some,
  none, List, [], ◌∷◌, true, false, not, ◌==◌, ◌&&◌, if◌then◌else◌, get_elem?, is_empty, Outcome,
  ret, arith, Bool-cases, Option-cases, Bool,
}
use libpwq.Word.{bit, clear_bit}
use libpwq.Word.Bits.{bit-clear_bit, bit_and-index_bit}
use libpwq.Workqueue.{Work, Workqueue, slot, items_of}
use libpwq.Manager.{Manager}
use libpwq.Manager.Invariant.{Inv, pending_items, overcommit_items, entry-lt}
use libpwq.Manager.Tables.{write_normal-Inv, deref-set_own, deref-set_other}
use libpwq.Manager.Additem.{mask_rounds}
use libpwq.Manager.Scan.{reset_queue_mask, remove_head}

-- The loop ends in its first round.
pub reset_queue_mask_lem :
    (mask i : ℕ) → i < 32 → reset_queue_mask mask_rounds mask i ≡ ret (clear_bit mask i)
unfolding reset_queue_mask
reset_queue_mask_lem mask i h =
    ground (arith, bit_and-index_bit (clear_bit mask i) i, bit-clear_bit mask i i h h)

-- What remove_head leaves, for a queue that is stored at index `i` and holds `w`, then `rest`.
module _ {m : Manager} (v : Inv m) (i a : ℕ) (q : Workqueue) (w : Work) (rest : List Work)
    (own : slot m.wqlist i ≡ some a) (at : get_elem? m.heap a ≡ some q) (index : q.wqlist_index ≡ i)
    (plain : is_nonzero q.overcommit ≡ false) (holds : q.item_listhead ≡ w ∷ rest) where
  abbrev pub shorter : Workqueue
  shorter = record q { item_listhead = rest }

  unfoldable pub mask_left : ℕ
  mask_left = if is_empty rest then clear_bit m.wqlist_mask q.wqlist_index else m.wqlist_mask

  unfoldable pub left_behind : Manager
  unfolding mask_left
  left_behind = record m { wqlist_mask = mask_left; heap = Prelude.set m.heap a shorter }

  small : q.wqlist_index < 32
  small = rw index (omega (arith, entry-lt v.normal i a own))

  pub remove_head_lem : remove_head m a q w rest ≡ ret (left_behind, some (w, q.queueprio))
  unfolding remove_head left_behind
  remove_head_lem = ground (arith, reset_queue_mask_lem m.wqlist_mask q.wqlist_index small)

  own_slot : slot m.wqlist q.wqlist_index ≡ some a
  own_slot = rw index own

  bits_left :
      (j : ℕ)
      → j < 32
      → bit j mask_left ≡ (if q.wqlist_index == j then not (is_empty rest) else bit j m.wqlist_mask)
  unfolding mask_left
  bits_left j h =
      ground (
        arith,
        bit-clear_bit m.wqlist_mask q.wqlist_index j small h,
        v.normal.pending j h,
        own_slot,
      )

  pub left_behind-Inv : Inv left_behind
  unfolding left_behind
  left_behind-Inv =
      write_normal-Inv v a q _ at (record { index = refl; prio = refl; kind = refl }) mask_left
        plain bits_left

  pub pending-left_behind :
      (j : ℕ) → pending_items left_behind j ≡ (if i == j then rest else pending_items m j)
  unfolding left_behind
  pending-left_behind j = ground (arith, deref-set_own v.normal a q shorter at own_slot j, index)

  pub overcommit-left_behind : (j : ℕ) → overcommit_items left_behind j ≡ overcommit_items m j
  unfolding left_behind
  overcommit-left_behind j = ap items_of (deref-set_other v.over a q shorter at (λ e. cc) j)

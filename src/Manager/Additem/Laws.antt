-- ===== src/Manager/Additem/Laws.antt =====
-- manager_workqueue_additem on queues of both kinds: the queues, the masks, and what it wakes.
use libpwq.Prelude.{
  ℕ, ◌+◌, ◌-◌, is_nonzero, ◌<◌, ◌≡◌, refl, ◌∙◌, ap, some, List, [], ◌∷◌, ◌++◌, true, false, not,
  ◌==◌, ltb, if◌then◌else◌, get_elem?, is_empty, Outcome, ret, arith, Bool-cases, inl, inr, Bool,
}
use libpwq.Prelude
use libpwq.Word.{bit, set_bit, inc32}
use libpwq.Word.Bits.{bit-set_bit, bit_and-index_bit}
use libpwq.Workqueue.{Work, Workqueue, deref, slot, items_of}
use libpwq.Manager.{Manager, Effect}
use libpwq.Manager.Invariant.{Inv, pending_items, overcommit_items}
use libpwq.Manager.Tables.{
  SameKey, write_normal-Inv, write_over-Inv, own_normal, own_over, deref-set_own, deref-set_other,
}
use libpwq.Manager.Additem.{
  insert_tail, mask_rounds, set_queue_mask, enqueue, wake_worker, enqueue_overcommit,
  manager_workqueue_additem,
}

-- The loop ends in its first round.
pub set_queue_mask_lem : (mask i : ℕ) → set_queue_mask mask_rounds mask i ≡ ret (set_bit mask i)
unfolding set_queue_mask
set_queue_mask_lem mask i =
    ground (arith, bit_and-index_bit (set_bit mask i) i, bit-set_bit mask i i)

pub insert_tail-SameKey : (q : Workqueue) (w : Work) → SameKey q (insert_tail q w)
unfolding insert_tail
insert_tail-SameKey q w = record { index = refl; prio = refl; kind = refl }

pub is_empty-append : (xs : List Work) (w : Work) → is_empty (xs ++ w ∷ []) ≡ false
is_empty-append [] w = refl
is_empty-append (x ∷ xs) w = refl

-- The queues after the item was appended to the one at index `k`.
abbrev pub append_at : (ℕ → List Work) → ℕ → Work → ℕ → List Work
append_at items k w i = if k == i then items i ++ w ∷ [] else items i

module _ {m : Manager} (v : Inv m) (a : ℕ) (q : Workqueue) (w : Work)
    (at : get_elem? m.heap a ≡ some q) where
  -- The mask after the section under the spin lock: the bit was set before, if the queue had items.
  mask_after : ℕ
  mask_after =
      if is_empty q.item_listhead then set_bit m.wqlist_mask q.wqlist_index else m.wqlist_mask

  enqueue_lem :
      enqueue m a q w
      ≡ ret (record m { wqlist_mask = mask_after; heap = Prelude.set m.heap a (insert_tail q w) })
  unfolding enqueue mask_after
  enqueue_lem = ground (arith, set_queue_mask_lem m.wqlist_mask q.wqlist_index)

  module _ (plain : is_nonzero q.overcommit ≡ false) where
    bits_after :
        (j : ℕ)
        → j < 32
        → bit j mask_after ≡ (
            if q.wqlist_index == j
            then not (is_empty (insert_tail q w).item_listhead)
            else bit j m.wqlist_mask)
    unfolding mask_after insert_tail
    bits_after j h = ground (
      arith,
      bit-set_bit m.wqlist_mask q.wqlist_index j,
      is_empty-append q.item_listhead w,
      v.normal.pending j h,
      own_normal v a q q at (record { index = refl; prio = refl; kind = refl }) 0 plain,
    )

    pub own_slot : slot m.wqlist q.wqlist_index ≡ some a
    own_slot = own_normal v a q q at (record { index = refl; prio = refl; kind = refl }) 0 plain

    pending-enqueue :
        (i : ℕ)
        → items_of (deref (Prelude.set m.heap a (insert_tail q w)) (slot m.wqlist i))
          ≡ append_at (pending_items m) q.wqlist_index w i
    unfolding insert_tail
    pending-enqueue i =
        ground (arith, deref-set_own v.normal a q (insert_tail q w) at own_slot i, own_slot)

    -- The section under the lock of the queue: it returns, the item is the last of its queue, and
    -- the tables and masks still agree.
    pub enqueue_ok :
        (m' : Manager) × (enqueue m a q w ≡ ret m')
        × (m' ≡ record m { wqlist_mask = m'.wqlist_mask; heap = m'.heap })
        × Inv m'
        × ((i : ℕ) → pending_items m' i ≡ append_at (pending_items m) q.wqlist_index w i)
        × ((i : ℕ) → overcommit_items m' i ≡ overcommit_items m i)
    enqueue_ok = (
      record m { wqlist_mask = mask_after; heap = Prelude.set m.heap a (insert_tail q w) },
      enqueue_lem,
      refl,
      write_normal-Inv v a q (insert_tail q w) at (insert_tail-SameKey q w) mask_after plain
          bits_after,
      pending-enqueue,
      λ i. ap items_of (deref-set_other v.over a q (insert_tail q w) at (λ e. cc) i),
    )

    -- Adding an item to a queue with no overcommit returns: the item is the last of its queue, all
    -- other queues are as before, the tables and masks still agree, and a waiting worker is
    -- signalled exactly when some worker is idle.
    pub additem_normal :
        (m' : Manager) × (manager_workqueue_additem m a w
          ≡ ret (m', if ltb 0 m.scoreboard.idle then Effect.signal_worker ∷ [] else []))
        × Inv m'
        × ((i : ℕ) → pending_items m' i ≡ append_at (pending_items m) q.wqlist_index w i)
        × ((i : ℕ) → overcommit_items m' i ≡ overcommit_items m i)
    unfolding manager_workqueue_additem wake_worker
    additem_normal =
        let (m', call, frame, valid, items, over_items) = enqueue_ok in
        let same_idle : m'.scoreboard ≡ m.scoreboard = ap (λ (x : Manager). x.scoreboard) frame in
        (m', ground (arith, at, call, same_idle), valid, items, over_items)

  module _ (oc : is_nonzero q.overcommit ≡ true) where
    over_slot : slot m.ocwq q.wqlist_index ≡ some a
    over_slot = own_over v a q q at (record { index = refl; prio = refl; kind = refl }) 0 oc

    over_bits :
        (j : ℕ)
        → j < 32
        → bit j (set_bit m.ocwq_mask q.wqlist_index) ≡ (
            if q.wqlist_index == j
            then not (is_empty (insert_tail q w).item_listhead)
            else bit j m.ocwq_mask)
    unfolding insert_tail
    over_bits j h =
        ground (arith, bit-set_bit m.ocwq_mask q.wqlist_index j, is_empty-append q.item_listhead w)

    over_written : Inv (record m {
      ocwq_mask = set_bit m.ocwq_mask q.wqlist_index;
      heap = Prelude.set m.heap a (insert_tail q w);
    })
    over_written =
        write_over-Inv v a q (insert_tail q w) at (insert_tail-SameKey q w) _ oc over_bits

    overcommit_items-enqueue :
        (i : ℕ)
        → items_of (deref (Prelude.set m.heap a (insert_tail q w)) (slot m.ocwq i))
          ≡ append_at (overcommit_items m) q.wqlist_index w i
    unfolding insert_tail
    overcommit_items-enqueue i =
        ground (arith, deref-set_own v.over a q (insert_tail q w) at over_slot i, over_slot)

    -- Adding an item to an overcommit queue returns: the item is the last of its queue, all other
    -- queues are as before, the tables and masks still agree, and one thread is set to work: with
    -- an idle one, it is signalled and counted out of the idle threads; with none, one is created.
    pub additem_overcommit :
        (m' : Manager) × (effects : List Effect) × (manager_workqueue_additem m a w
          ≡ ret (m', effects))
        × Inv m'
        × ((i : ℕ) → overcommit_items m' i ≡ append_at (overcommit_items m) q.wqlist_index w i)
        × ((i : ℕ) → pending_items m' i ≡ pending_items m i)
        × (if ltb 0 m.ocwq_idle_threads
            then (effects ≡ Effect.signal_overcommit ∷ [])
              × (m'.ocwq_idle_threads + 1 ≡ m.ocwq_idle_threads)
              × (m'.ocwq_signal_count ≡ inc32 m.ocwq_signal_count)
            else (effects ≡ Effect.create_overcommit ∷ [])
              × (m'.ocwq_idle_threads ≡ 0)
              × (m'.ocwq_signal_count ≡ m.ocwq_signal_count))
    unfolding manager_workqueue_additem enqueue_overcommit
    additem_overcommit = elim (Bool-cases (ltb 0 m.ocwq_idle_threads)) [
      | inl idle ↦ rw idle (
        record m {
          heap = Prelude.set m.heap a (insert_tail q w);
          ocwq_mask = set_bit m.ocwq_mask q.wqlist_index;
          ocwq_idle_threads = m.ocwq_idle_threads - 1;
          ocwq_signal_count = inc32 m.ocwq_signal_count;
        },
        Effect.signal_overcommit ∷ [],
        ground arith,
        record {
          normal = over_written.normal;
          over = over_written.over;
          registered = over_written.registered;
        },
        overcommit_items-enqueue,
        other,
        (refl, ground arith, refl),
      )
      | inr none_idle ↦ rw none_idle (
        record m {
          heap = Prelude.set m.heap a (insert_tail q w);
          ocwq_mask = set_bit m.ocwq_mask q.wqlist_index;
        },
        Effect.create_overcommit ∷ [],
        ground arith,
        over_written,
        overcommit_items-enqueue,
        other,
        (refl, ground arith, refl),
      )
    ]
      where
        other :
            (i : ℕ)
            → items_of (deref (Prelude.set m.heap a (insert_tail q w)) (slot m.wqlist i))
              ≡ pending_items m i
        other i = ap items_of (deref-set_other v.normal a q (insert_tail q w) at (λ e. cc) i)

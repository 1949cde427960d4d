-- ===== src/Manager/Tables.antt =====
-- Writing a workqueue in the heap, and what the tables make of it.
use native.Mathlib.Decide.{ℕ_discrete}
use libpwq.Prelude.{
  ℕ, is_nonzero, ◌<◌, ◌≡◌, ◌≢◌, inl, inr, refl, sym, ap, ◌∙◌, Option, some, List, Bool, true, false,
  not, ◌==◌, if◌then◌else◌, get_elem?, set, is_empty, arith, Option-cases, get_elem?-set_self,
  get_elem?-set_ne, get_elem?-lt,
}
use libpwq.Word.{bit}
use libpwq.Workqueue.{Workqueue, slot, deref}
use libpwq.Manager.{Manager}
use libpwq.Manager.Invariant.{IsStored, TableInv, Inv, table_of, entry-index}

module _ {oc : Bool} {heap : List Workqueue} {table : List (Option ℕ)} {mask : ℕ}
    (v : TableInv oc heap table mask) (a : ℕ) (q q' : Workqueue)
    (at : get_elem? heap a ≡ some q) where
  at_new : get_elem? (set heap a q') a ≡ some q'
  at_new = get_elem?-set_self heap a q' (get_elem?-lt heap a at)

  apart_other : is_nonzero q.overcommit ≢ oc → (i b : ℕ) → slot table i ≡ some b → a ≢ b
  apart_other other i b s same = other ((entry-index v i a q at (s ∙ ap some (sym same))).kind)

  pub deref-set_other :
      is_nonzero q.overcommit ≢ oc
      → (i : ℕ) → deref (set heap a q') (slot table i) ≡ deref heap (slot table i)
  deref-set_other other i = elim (Option-cases (slot table i)) [
    | inl e ↦ rw e refl
    | inr (b, e) ↦ rw e (get_elem?-set_ne heap a b q' (apart_other other i b e))
  ]

  -- Writing a workqueue of the other kind changes nothing for this table.
  pub set_other-TableInv : is_nonzero q.overcommit ≢ oc → TableInv oc (set heap a q') table mask
  set_other-TableInv other = record {
    sized = v.sized;
    entry = λ i b s.
        let (p, at_b, stored) = v.entry i b s in
        (p, get_elem?-set_ne heap a b q' (apart_other other i b s) ∙ at_b, stored);
    pending = λ i h. rw (deref-set_other other i) (v.pending i h);
  }

  pub deref-set_own :
      slot table q.wqlist_index ≡ some a
      → (i : ℕ)
      → deref (set heap a q') (slot table i)
        ≡ (if q.wqlist_index == i then some q' else deref heap (slot table i))
  deref-set_own own i = elim (ℕ_discrete q.wqlist_index i) [
    | yes here ↦ ground (arith, held here)
    | no away ↦ ground (arith, left away)
  ]
    where
      held : q.wqlist_index ≡ i → deref (set heap a q') (slot table i) ≡ some q'
      held here = rw (← here, own) at_new

      left : q.wqlist_index ≢ i → deref (set heap a q') (slot table i) ≡ deref heap (slot table i)
      left away = elim (Option-cases (slot table i)) [
        | inl e ↦ rw e refl
        | inr (b, e) ↦ rw e (
            get_elem?-set_ne heap a b q'
              (λ same. away ((entry-index v i a q at (e ∙ ap some (sym same))).index)))
      ]

  -- Writing the queue that the table holds at its index, with the mask changed to match.
  pub set_own-TableInv :
      (mask' : ℕ)
      → slot table q.wqlist_index ≡ some a
      → IsStored oc q.wqlist_index q'
      → ((j : ℕ)
          → j < 32
          → bit j mask'
            ≡ (if q.wqlist_index == j then not (is_empty q'.item_listhead) else bit j mask))
      → TableInv oc (set heap a q') table mask'
  set_own-TableInv mask' own stored bits = record {
    sized = v.sized;
    entry = λ i b s. elim (ℕ_discrete a b) [
      | yes e ↦
          let here : q.wqlist_index ≡ i = (entry-index v i a q at (s ∙ ap some (sym e))).index in
          (q', rw (← e) at_new, rw (← here) stored)
      | no ne ↦
          let (p, at_b, kept) = v.entry i b s in (p, get_elem?-set_ne heap a b q' ne ∙ at_b, kept)
    ];
    pending = λ i h. ground (arith, bits i h, v.pending i h, deref-set_own own i);
  }

-- What a write may not change of a workqueue.
pub record SameKey (q q' : Workqueue) : Type 0 where
  pub index : q'.wqlist_index ≡ q.wqlist_index
  pub prio : q'.queueprio ≡ q.queueprio
  pub kind : q'.overcommit ≡ q.overcommit

module _ {m : Manager} (v : Inv m) (a : ℕ) (q q' : Workqueue) (at : get_elem? m.heap a ≡ some q)
    (key : SameKey q q') where
  registered-set :
      (b : ℕ) (p : Workqueue)
      → get_elem? (set m.heap a q') b ≡ some p
      → slot (table_of m p) p.wqlist_index ≡ some b
  registered-set b p e = elim (ℕ_discrete a b) [
    | yes same ↦
        let is_new : p ≡ q' = cc (get_elem?-set_self m.heap a q' (get_elem?-lt m.heap a at)) in
        rw (is_new, key.kind, key.index, ← same) (v.registered a q at)
    | no ne ↦ v.registered b p (sym (get_elem?-set_ne m.heap a b q' ne) ∙ e)
  ]

  stored_new : (oc : Bool) → IsStored oc q.wqlist_index q → IsStored oc q.wqlist_index q'
  stored_new oc s = record {
    index = key.index;
    prio = key.prio ∙ s.prio;
    kind = ap is_nonzero key.kind ∙ s.kind;
  }

  -- A write to a queue with no overcommit, with its bit of `wqlist_mask`.
  module _ (mask' : ℕ) (plain : is_nonzero q.overcommit ≡ false) where
    pub own_normal : slot m.wqlist q.wqlist_index ≡ some a
    own_normal = rw plain at (v.registered a q at)

    pub write_normal-Inv :
        ((j : ℕ)
          → j < 32
          → bit j mask' ≡ (
              if q.wqlist_index == j then not (is_empty q'.item_listhead) else bit j m.wqlist_mask))
        → Inv (record m { wqlist_mask = mask'; heap = set m.heap a q' })
    write_normal-Inv bits = record {
      normal =
          set_own-TableInv v.normal a q q' at mask' own_normal
            (stored_new false (entry-index v.normal _ a q at own_normal)) bits;
      over = set_other-TableInv v.over a q q' at (λ e. cc);
      registered = registered-set;
    }

  -- A write to an overcommit queue, with its bit of `ocwq_mask`.
  module _ (mask' : ℕ) (oc : is_nonzero q.overcommit ≡ true) where
    pub own_over : slot m.ocwq q.wqlist_index ≡ some a
    own_over = rw oc at (v.registered a q at)

    pub write_over-Inv :
        ((j : ℕ)
          → j < 32
          → bit j mask'
            ≡ (if q.wqlist_index == j then not (is_empty q'.item_listhead) else bit j m.ocwq_mask))
        → Inv (record m { ocwq_mask = mask'; heap = set m.heap a q' })
    write_over-Inv bits = record {
      normal = set_other-TableInv v.normal a q q' at (λ e. cc);
      over =
          set_own-TableInv v.over a q q' at mask' own_over
            (stored_new true (entry-index v.over _ a q at own_over)) bits;
      registered = registered-set;
    }

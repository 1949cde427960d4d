-- ===== src/Manager/Create/Laws.antt =====
-- Storing a new workqueue in its table.
use native.Mathlib.Decide.{ℕ_discrete}
use libpwq.Prelude.{
  ℕ, ◌<◌, ◌≡◌, ◌≢◌, inl, inr, refl, sym, ap, ◌∙◌, Option, some, none, List, [], ◌∷◌, ◌++◌, Bool,
  ◌==◌, if◌then◌else◌, length, set, arith, Option-cases, get_elem?-set_self, get_elem?-set_ne,
  get_elem?-lt, length-set, get_elem?-append_old,
}
use libpwq.Workqueue.{Workqueue, workqueue_max, slot, deref}
use libpwq.Manager.Invariant.{IsStored, TableInv}

pub slot-set :
    (table : List (Option ℕ)) (i j a : ℕ)
    → i < length table
    → slot (set table i (some a)) j ≡ (if i == j then some a else slot table j)
slot-set table i j a h = elim (ℕ_discrete i j) [
  | yes e ↦ rw (← e) (ground (arith, get_elem?-set_self table i (some a) h))
  | no ne ↦ ground (arith, get_elem?-set_ne table i j (some a) ne)
]

-- In a table whose index `i` is free, for a workqueue at an address that no table leads to.
module _ {oc : Bool} {heap : List Workqueue} {table : List (Option ℕ)} {mask : ℕ}
    (v : TableInv oc heap table mask) where
  pub entry_used : (i a : ℕ) → slot table i ≡ some a → a < length heap
  entry_used i a s = let (q, at, st) = v.entry i a s in get_elem?-lt heap a at

  -- A new workqueue in the heap, which no table leads to, changes nothing.
  pub deref-alloc :
      (q : Workqueue) (i : ℕ) → deref (heap ++ q ∷ []) (slot table i) ≡ deref heap (slot table i)
  deref-alloc q i = elim (Option-cases (slot table i)) [
    | inl e ↦ rw e refl
    | inr (a, e) ↦
        let (p, at, st) = v.entry i a e in rw e (get_elem?-append_old heap q a at ∙ sym at)
  ]

  pub alloc-TableInv : (q : Workqueue) → TableInv oc (heap ++ q ∷ []) table mask
  alloc-TableInv q = record {
    sized = v.sized;
    entry = λ i a s. let (p, at, st) = v.entry i a s in (p, get_elem?-append_old heap q a at, st);
    pending = λ i h. rw (deref-alloc q i) (v.pending i h);
  }

  module _ (a : ℕ) (q' : Workqueue) (free : (j : ℕ) → slot table j ≢ some a) where
    pub deref-set_free : (i : ℕ) → deref (set heap a q') (slot table i) ≡ deref heap (slot table i)
    deref-set_free i = elim (Option-cases (slot table i)) [
      | inl e ↦ rw e refl
      | inr (b, e) ↦ rw e (get_elem?-set_ne heap a b q' (λ same. free i (e ∙ ap some (sym same))))
    ]

    -- A write behind the table's back.
    pub set_free-TableInv : TableInv oc (set heap a q') table mask
    set_free-TableInv = record {
      sized = v.sized;
      entry = λ i b s.
          let (p, at, st) = v.entry i b s in
          (p, get_elem?-set_ne heap a b q' (λ same. free i (s ∙ ap some (sym same))) ∙ at, st);
      pending = λ i h. rw (deref-set_free i) (v.pending i h);
    }

    -- A write of an empty workqueue that is stored in the table at the same time.
    pub store-TableInv :
        (i : ℕ)
        → i < workqueue_max
        → a < length heap
        → slot table i ≡ none
        → IsStored oc i q'
        → q'.item_listhead ≡ []
        → TableInv oc (set heap a q') (set table i (some a)) mask
    store-TableInv i small used vacant st no_items = record {
      sized = length-set table i (some a) ∙ v.sized;
      entry = λ j b s. elim (ℕ_discrete i j) [
        | yes e ↦
            let same : a ≡ b = ground (arith, stored_at j, s) in
            (q', rw (← same) (get_elem?-set_self heap a q' used), rw (← e) st)
        | no ne ↦
            let s' : slot table j ≡ some b = ground (arith, stored_at j, s) in
            let (p, at, kept) = v.entry j b s' in
            (p, get_elem?-set_ne heap a b q' (λ same. free j (s' ∙ ap some (sym same))) ∙ at, kept)
      ];
      pending = λ j h. elim (ℕ_discrete i j) [
        | yes e ↦
            ground (
              arith,
              stored_at j,
              v.pending j h,
              get_elem?-set_self heap a q' used,
              no_items,
              vacant,
            )
        | no ne ↦ ground (arith, stored_at j, v.pending j h, deref-set_free j)
      ];
    }
      where
        stored_at :
            (j : ℕ) → slot (set table i (some a)) j ≡ (if i == j then some a else slot table j)
        stored_at j = slot-set table i j a (rw v.sized small)

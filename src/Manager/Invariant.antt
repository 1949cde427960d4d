-- ===== src/Manager/Invariant.antt =====
-- What holds of the tables of workqueues, their masks and the heap between two critical sections
-- of posix/manager.c.
use libpwq.Prelude.{
  ◌∷◌, ℕ, pos, is_nonzero, ◌<◌, ◌≡◌, inl, inr, Option, some, List, Bool, true, false, not,
  if◌then◌else◌, length, get_elem?, is_empty, arith, Option-cases, get_elem?-lt,
}
use libpwq.Word.{bit}
use libpwq.Workqueue.{Work, Workqueue, workqueue_max, slot, deref, items_of}
use libpwq.Manager.{Manager}

-- A workqueue that is stored in a table at index `i`.
pub record IsStored (overcommit : Bool) (i : ℕ) (q : Workqueue) : Type 0 where
  pub index : q.wqlist_index ≡ i
  pub prio : q.queueprio ≡ pos i
  pub kind : is_nonzero q.overcommit ≡ overcommit

-- A table of 31 entries: each leads to a workqueue of its kind and index, and the mask has exactly
-- the bits of the queues that hold an item.
pub record TableInv (overcommit : Bool) (heap : List Workqueue) (table : List (Option ℕ)) (mask : ℕ)
    : Type 0 where
  pub sized : length table ≡ workqueue_max
  pub entry :
      (i a : ℕ)
      → slot table i ≡ some a
      → (q : Workqueue) × (get_elem? heap a ≡ some q) × IsStored overcommit i q
  pub pending :
      (i : ℕ) → i < 32 → bit i mask ≡ not (is_empty (items_of (deref heap (slot table i))))

-- The table that a workqueue belongs to.
abbrev pub table_of : Manager → Workqueue → List (Option ℕ)
table_of m q = if is_nonzero q.overcommit then m.ocwq else m.wqlist

pub record Inv (m : Manager) : Type 0 where
  pub normal : TableInv false m.heap m.wqlist m.wqlist_mask
  pub over : TableInv true m.heap m.ocwq m.ocwq_mask
  pub registered :
      (a : ℕ) (q : Workqueue)
      → get_elem? m.heap a ≡ some q
      → slot (table_of m q) q.wqlist_index ≡ some a

-- A table leads to an address at one index only.
module _ {oc : Bool} {heap : List Workqueue} {table : List (Option ℕ)} {mask : ℕ}
    (v : TableInv oc heap table mask) where
  pub entry-index :
      (i a : ℕ) (q : Workqueue)
      → get_elem? heap a ≡ some q
      → slot table i ≡ some a
      → IsStored oc i q
  entry-index i a q at s =
      let (q', at', stored) = v.entry i a s in let same : q' ≡ q = cc in rw same at stored

  -- An index that is used is below the length of the table.
  pub entry-lt : (i a : ℕ) → slot table i ≡ some a → i < workqueue_max
  entry-lt i a s = elim (Option-cases (get_elem? table i)) [
    | inl e ↦ absurd (cc)
    | inr (o, e) ↦ omega (arith, get_elem?-lt table i e, v.sized)
  ]

-- The items that wait in the queues with no overcommit and in the overcommit queues.
abbrev pub pending_items : Manager → ℕ → List Work
pending_items m i = items_of (deref m.heap (slot m.wqlist i))

abbrev pub overcommit_items : Manager → ℕ → List Work
overcommit_items m i = items_of (deref m.heap (slot m.ocwq i))

-- Only an index of the table has items.
pub pending-lt :
    {m : Manager}
    → Inv m
    → (j : ℕ) (w : Work) (rest : List Work) → pending_items m j ≡ w ∷ rest
    → j < workqueue_max
pending-lt {m} v j w rest some_there = elim (Option-cases (slot m.wqlist j)) [
  | inl e ↦ absurd (ground (arith, some_there, e))
  | inr (a, e) ↦ entry-lt v.normal j a e
]

pub overcommit-lt :
    {m : Manager}
    → Inv m
    → (j : ℕ) (w : Work) (rest : List Work) → overcommit_items m j ≡ w ∷ rest
    → j < workqueue_max
overcommit-lt {m} v j w rest some_there = elim (Option-cases (slot m.ocwq j)) [
  | inl e ↦ absurd (ground (arith, some_there, e))
  | inr (a, e) ↦ entry-lt v.over j a e
]

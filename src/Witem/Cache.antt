-- ===== src/Witem/Cache.antt =====
-- src/witem_cache.c with WITEM_CACHE_TYPE 3: each thread keeps the items that it frees in a list
-- through `wi_next`, whose head is the thread's value of `witem_cache_key`.
pub mod Laws
pub mod Threads
use libpwq.Prelude.{
  update, ℕ, zero, suc, Option, none, some, List, [], ◌∷◌, ◌==◌, Outcome, ret, waits, faults, ◌>>=◌,
  or_fault,
}

-- `struct work` with its link; `item_entry.stqe_next` is kept as a pointer.
pub record Cell : Type 0 where
  pub stqe_next : Option ℕ
  pub func : Option ℕ
  pub func_arg : ℕ
  pub flags : ℕ
  pub gencount : ℕ
  pub wi_next : Option ℕ

-- The memory of the items, and the value of the key in the current thread.
pub record Store : Type 0 where
  pub cell : ℕ → Option Cell
  pub head : Option ℕ

-- witem_alloc_from_heap, over the results of malloc: a block with what its memory held before.
unfoldable pub witem_alloc_from_heap : List (Option (ℕ × Cell)) → Store → Outcome (ℕ × Store)
witem_alloc_from_heap [] s = waits
witem_alloc_from_heap (none ∷ rest) s = witem_alloc_from_heap rest s
witem_alloc_from_heap (some (p, old) ∷ rest) s = ret (
  p,
  record s {
    cell = update s.cell p (some (record old { gencount = 0; flags = 0; stqe_next = none }));
  },
)

-- The item that witem_alloc starts from: the head of the cache, or a block from the heap.
unfoldable pub take_witem : List (Option (ℕ × Cell)) → Store → Outcome (ℕ × Store)
unfolding witem_alloc_from_heap
take_witem mallocs s = elim s.head [
  | none ↦ witem_alloc_from_heap mallocs s
  | some p ↦ (do c ← or_fault (s.cell p); ret (p, record s { head = c.wi_next }))
]

unfoldable pub witem_alloc : List (Option (ℕ × Cell)) → Option ℕ → ℕ → Store → Outcome (ℕ × Store)
unfolding take_witem
witem_alloc mallocs func func_arg s = do
  (p, s') ← take_witem mallocs s
  c ← or_fault (s'.cell p)
  ret (
    p,
    record s' { cell = update s'.cell p (some (record c { func = func; func_arg = func_arg })) },
  )

unfoldable pub witem_free : ℕ → Store → Outcome Store
witem_free p s = do
  c ← or_fault (s.cell p)
  ret (record {
    cell = update s.cell p (
        some (record {
          stqe_next = none;
          func = none;
          func_arg = 0;
          flags = 0;
          gencount = 0;
          wi_next = s.head;
        }));
    head = some p;
  })

-- The loop of witem_cache_cleanup, given the rounds that it may take: it frees each item after it
-- has read its link.
unfoldable pub witem_cache_cleanup : ℕ → Option ℕ → (ℕ → Option Cell) → Outcome (ℕ → Option Cell)
witem_cache_cleanup zero next cell = waits
witem_cache_cleanup (suc rounds) none cell = ret cell
witem_cache_cleanup (suc rounds) (some p) cell = elim (cell p) [
  | none ↦ faults
  | some c ↦ witem_cache_cleanup rounds c.wi_next (update cell p none)
]

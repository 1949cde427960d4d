-- ===== src/Witem/Umem.antt =====
-- src/witem_cache.c with WITEM_CACHE_TYPE 2: the items come from an object cache of libumem, which
-- keeps them; the library has no state of its own. And witem_free with WITEM_CACHE_TYPE 1.
use libpwq.Prelude.{
  ℕ, Option, none, some, List, [], ◌∷◌, ◌==◌, if◌then◌else◌, Outcome, ret, waits, faults,
}
use libpwq.Workqueue.{Work}
use libpwq.Witem.{new_witem}

-- The items that are in use, by their address.
abbrev pub Heap : Type 0
Heap = ℕ → Option Work

abbrev store : Heap → ℕ → Option Work → Heap
store heap p w q = if p == q then w else heap q

-- The loop of witem_alloc over the results of umem_cache_alloc.
unfoldable pub witem_alloc : List (Option ℕ) → Option ℕ → ℕ → Heap → Outcome (Work × Heap)
unfolding new_witem
witem_alloc [] func func_arg heap = waits
witem_alloc (none ∷ rest) func func_arg heap = witem_alloc rest func func_arg heap
witem_alloc (some p ∷ rest) func func_arg heap =
    let w = new_witem p func func_arg in ret (w, store heap p (some w))

-- umem_cache_free, or free for type 1.
unfoldable pub witem_free : ℕ → Heap → Outcome Heap
witem_free p heap = elim (heap p) [ none ↦ faults | some w ↦ ret (store heap p none) ]

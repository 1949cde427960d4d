-- ===== src/Witem.antt =====
-- src/witem_cache.c with WITEM_CACHE_TYPE 1, the default: work items come from malloc and go back
-- to free. The child module has the cache of type 3.
pub mod Rounding
pub mod Umem
pub mod Cache
use libpwq.Prelude.{
  ℕ, ◌+◌, ◌-◌, ◌^◌, Option, none, some, List, [], ◌∷◌, bit_and, Outcome, ret, waits,
}
use libpwq.Workqueue.{Work}

-- CACHELINE_SIZE
abbrev pub cacheline_size : ℕ
cacheline_size = 64

-- ROUND_UP_TO_CACHELINE_SIZE on a 64-bit size_t: `~63` is 2^64 - 64.
unfoldable pub round_up_to_cacheline_size : ℕ → ℕ
round_up_to_cacheline_size x = bit_and (x + (cacheline_size - 1)) (2 ^ 64 - cacheline_size)

-- The fields that witem_alloc sets.
unfoldable pub new_witem : ℕ → Option ℕ → ℕ → Work
new_witem p func func_arg = record {
  handle = p;
  func = func;
  func_arg = func_arg;
  flags = 0;
  gencount = 0;
}

-- The loop of witem_alloc over the results of malloc: it sleeps after a NULL, so with no further
-- result it is still waiting.
unfoldable pub witem_alloc : List (Option ℕ) → Option ℕ → ℕ → Outcome Work
unfolding new_witem
witem_alloc [] func func_arg = waits
witem_alloc (none ∷ rest) func func_arg = witem_alloc rest func func_arg
witem_alloc (some p ∷ rest) func func_arg = ret (new_witem p func func_arg)

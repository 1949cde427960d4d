-- ===== src/Witem/Cache/Threads/Unused.antt =====
-- What several threads may rely on when they share items (src/witem_cache.c with WITEM_CACHE_TYPE 3).
use libpwq.Prelude.{
  arith, ℕ, suc, ◌≡◌, ◌≢◌, refl, ap, subst, ◌∙◌, Option, none, some, List, [], ◌∷◌, true, false,
  ret, update, update_ne, update_self, inl, inr, Bool-cases, length,
}
use libpwq.Witem.Cache.{
  Cell, Store, witem_alloc_from_heap, take_witem, witem_alloc, witem_free, witem_cache_cleanup,
}
use libpwq.Witem.Cache.Laws.{
  IsClean, Chain, Absent, IsCache, Freed, witem_alloc-witem_free, witem_cache_cleanup_lem,
}
use libpwq.Witem.Cache.Threads.{Caches, store_of, AreNew, Reach}
use libpwq.Witem.Cache.Threads.Alloc.{Origin, cached, fresh, from_empty, witem_alloc-Given}
use libpwq.Witem.Cache.Threads.Safety.{CachesInv, thread-IsCache}
use libpwq.Witem.Cache.Threads.Turns.{Reach-CachesInv}

-- One of the calls of malloc succeeds.
abbrev pub Succeeds : List (Option (ℕ × Cell)) → Type 0
Succeeds [] = ⊥
Succeeds (none ∷ rest) = Succeeds rest
Succeeds (some b ∷ rest) = Unit {0}

from_heap_returns :
    (mallocs : List (Option (ℕ × Cell))) (s : Store)
    → Succeeds mallocs
    → (p : ℕ) × (s' : Store) × (c : Cell) × (witem_alloc_from_heap mallocs s ≡ ret (p, s'))
      × (s'.cell p ≡ some c)
unfolding witem_alloc_from_heap
from_heap_returns [] s ok = absurd ok
from_heap_returns (none ∷ rest) s ok = from_heap_returns rest s ok
from_heap_returns (some (p, old) ∷ rest) s ok = (p, _, _, refl, update_self s.cell p _)

take_returns :
    (mallocs : List (Option (ℕ × Cell))) (s : Store) (ps : List ℕ)
    → IsCache s ps
    → Succeeds mallocs
    → (p : ℕ) × (s' : Store) × (c : Cell) × (take_witem mallocs s ≡ ret (p, s'))
      × (s'.cell p ≡ some c)
unfolding take_witem
take_returns mallocs s [] v ok =
    let (p, s', c, given, there) = from_heap_returns mallocs s ok in
    (p, s', c, from_empty mallocs s v.chain ∙ given, there)
take_returns mallocs s (p ∷ ps) v ok =
    let (at, c, holds, clean, rest) = v.chain in
    (p, record s { head = c.wi_next }, c, ground (arith, at, holds), holds)

witem_alloc_returns :
    (mallocs : List (Option (ℕ × Cell))) (func : Option ℕ) (arg : ℕ) (s : Store) (ps : List ℕ)
    → IsCache s ps
    → Succeeds mallocs
    → (p : ℕ) × (s' : Store) × (witem_alloc mallocs func arg s ≡ ret (p, s'))
unfolding witem_alloc
witem_alloc_returns mallocs func arg s ps v ok =
    let (p, s', c, taken, there) = take_returns mallocs s ps v ok in
    (
      p,
      record s' { cell = update s'.cell p (some (record c { func = func; func_arg = arg })) },
      rw (taken, there) refl,
    )

-- An item that is in use is not in the cache, and malloc does not give its block.
not_origin :
    {s : Store} {ps : List ℕ} (p : ℕ) {left : List ℕ} (c : Cell)
    → s.cell p ≡ some c
    → Absent p ps
    → ¬ Origin s ps p left
not_origin p c there away (cached e) = (subst (Absent p) e away).0 refl
not_origin p c there away (fresh e e' gone) = cc

origin_unused :
    {h : Caches} (v : CachesInv h) (t p : ℕ) {left : List ℕ}
    → Origin (store_of h t) (v.lists t) p left
    → h.used p ≡ false
origin_unused {h} v t p o = elim (Bool-cases (h.used p)) [
  | inl busy ↦ absurd (not_origin p (v.stored p busy).0 (v.stored p busy).1 (v.spare p busy t) o)
  | inr idle ↦ idle
]

-- In every state that the threads can reach, when malloc gives no allocated block and one of its
-- calls succeeds, witem_alloc returns in each thread; the item that it gives was not in use, it has
-- the function and the argument and is clean in its other fields but the link of the cache, and
-- every other item is as before.
pub alloc_unused :
    {h : Caches}
    → Reach h
    → (t : ℕ) (mallocs : List (Option (ℕ × Cell))) (func : Option ℕ) (arg : ℕ)
    → AreNew mallocs h.cell
    → Succeeds mallocs
    → (p : ℕ) × (s : Store) × (c : Cell) × (witem_alloc mallocs func arg (store_of h t)
        ≡ ret (p, s))
      × (h.used p ≡ false)
      × (s.cell p ≡ some c)
      × (c.func ≡ func)
      × (c.func_arg ≡ arg)
      × IsClean c
      × ((q : ℕ) → p ≢ q → s.cell q ≡ h.cell q)
alloc_unused {h} r t mallocs func arg new ok =
    let v = Reach-CachesInv r in
    let (p, s, call) =
      witem_alloc_returns mallocs func arg (store_of h t) (v.lists t) (thread-IsCache v t) ok in
    let g =
      witem_alloc-Given mallocs func arg (store_of h t) (v.lists t) (thread-IsCache v t) new call in
    (
      p,
      s,
      g.content,
      call,
      origin_unused v t p g.origin,
      ap (λ m. m p) g.written ∙ update_self h.cell p (some g.content),
      g.has_func,
      g.has_arg,
      g.clean,
      λ q ne. ap (λ m. m q) g.written ∙ update_ne h.cell p q (some g.content) ne,
    )

-- In every state that the threads can reach, any thread can free an item that is in use, whichever
-- thread had it: witem_free returns, and the next witem_alloc of the thread that freed it gives that
-- item, whatever malloc would do.
pub freed_by_any :
    {h : Caches}
    → Reach h
    → (t p : ℕ) → h.used p ≡ true
    → (mallocs : List (Option (ℕ × Cell))) (func : Option ℕ) (arg : ℕ)
    → (s s' : Store) × (witem_free p (store_of h t) ≡ ret s)
      × (witem_alloc mallocs func arg s ≡ ret (p, s'))
freed_by_any {h} r t p used mallocs func arg =
    let v = Reach-CachesInv r in
    let (c, there) = v.stored p used in
    let (s, s', freed, taken, _) =
      witem_alloc-witem_free mallocs func arg p (store_of h t) (v.lists t) c (thread-IsCache v t)
        there (v.spare p used t) in
    (s, s', freed, taken)

-- In every state that the threads can reach, the cache of each thread is a list, and
-- witem_cache_cleanup at the exit of the thread ends within one round more than the items of that
-- list; it frees each of them and nothing else, so that every item that is in use stays as it is.
pub exit_keeps_used :
    {h : Caches}
    → Reach h
    → (t : ℕ)
    → (ps : List ℕ) × (cell' : ℕ → Option Cell) × Chain h.cell (h.head t) ps
      × (witem_cache_cleanup (suc (length ps)) (h.head t) h.cell ≡ ret cell')
      × Freed ps cell'
      × ((q : ℕ) → Absent q ps → cell' q ≡ h.cell q)
      × ((q : ℕ) → h.used q ≡ true → cell' q ≡ h.cell q)
exit_keeps_used {h} r t =
    let v = Reach-CachesInv r in
    let (cell', call, freed, kept) =
      witem_cache_cleanup_lem (suc (length (v.lists t))) (v.lists t) (h.head t) h.cell (omega arith)
        (v.distinct t) (v.chain t) in
    (v.lists t, cell', v.chain t, call, freed, kept, λ q used. kept q (v.spare q used t))

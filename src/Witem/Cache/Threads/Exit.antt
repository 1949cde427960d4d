-- ===== src/Witem/Cache/Threads/Exit.antt =====
-- The exit of one thread among others (witem_cache_cleanup of src/witem_cache.c with
-- WITEM_CACHE_TYPE 3): the items of the other threads stay.
use libpwq.Prelude.{
  ℕ, zero, suc, ◌≡◌, refl, sym, ap, ◌∙◌, Option, none, some, List, [], ◌∷◌, update, update_ne, ret,
  ◌⊎◌, inl, inr, same_result,
}
use libpwq.Witem.Cache.{Cell, witem_cache_cleanup}
use libpwq.Witem.Cache.Laws.{Chain, Absent, Distinct, Chain-update}

cleanup_at :
    (n p : ℕ) (c : Cell) (next : Option ℕ) (cell : ℕ → Option Cell)
    → next ≡ some p
    → cell p ≡ some c
    → witem_cache_cleanup (suc n) next cell ≡ witem_cache_cleanup n c.wi_next (update cell p none)
unfolding witem_cache_cleanup
cleanup_at n p c next cell at holds = rw (at, witem_cache_cleanup, holds) refl

-- Whatever is not in the list of the thread is left alone.
pub cleanup_keeps :
    (rounds : ℕ) (ps : List ℕ) (next : Option ℕ) (cell : ℕ → Option Cell) {cell' : ℕ → Option Cell}
    (q : ℕ)
    → Distinct ps
    → Chain cell next ps
    → witem_cache_cleanup rounds next cell ≡ ret cell'
    → Absent q ps
    → cell' q ≡ cell q
unfolding witem_cache_cleanup
cleanup_keeps zero ps next cell {cell'} q d c call away = cc
cleanup_keeps (suc n) [] next cell {cell'} q d c call away =
    let done : witem_cache_cleanup (suc n) next cell ≡ ret cell = rw c refl in
    ap (λ g. g q) (sym (same_result done call))
cleanup_keeps (suc n) (p ∷ ps) next cell {cell'} q d (at, c, holds, clean, rest) call away =
    cleanup_keeps n ps c.wi_next (update cell p none) q (d.1)
      (Chain-update cell p none c.wi_next ps (d.0) rest)
      (sym (cleanup_at n p c next cell at holds) ∙ call) (away.1)
    ∙ update_ne cell p q none (λ e. away.0 (sym e))

-- A list only depends on the memory of its own items.
pub Chain-congr :
    (cell cell' : ℕ → Option Cell) (next : Option ℕ) (ps qs : List ℕ)
    → ((q : ℕ) → Absent q qs → cell' q ≡ cell q)
    → ((q : ℕ) → Absent q ps ⊎ Absent q qs)
    → Chain cell next ps
    → Chain cell' next ps
Chain-congr cell cell' next [] qs keeps apart h = h
Chain-congr cell cell' next (p ∷ ps) qs keeps apart (at, c, holds, clean, rest) = (
  at,
  c,
  elim (apart p) [ inl here ↦ absurd (here.0 refl) | inr away ↦ keeps p away ∙ holds ],
  clean,
  Chain-congr cell cell' c.wi_next ps qs keeps
      (λ q. elim (apart q) [ inl a ↦ inl (a.1) | inr b ↦ inr b ]) rest,
)

-- ===== src/Witem/Cache/Laws.antt =====
-- The cache of a thread is a list of distinct items that are ready for use.
use libpwq.Prelude.{
  update, update_self, update_ne, ℕ, zero, suc, ◌<◌, ◌≡◌, ◌≢◌, refl, sym, ◌∙◌, Option, none, some,
  List, [], ◌∷◌, length, arith, ret,
}
use libpwq.Witem.Cache.{Cell, Store, take_witem, witem_alloc, witem_free, witem_cache_cleanup}

-- The fields that witem_alloc promises beside the function and its argument.
pub record IsClean (c : Cell) : Type 0 where
  pub no_next : c.stqe_next ≡ none
  pub no_flags : c.flags ≡ 0
  pub no_gencount : c.gencount ≡ 0

-- From `next` the links lead through the addresses of the list, and end.
abbrev pub Chain : (ℕ → Option Cell) → Option ℕ → List ℕ → Type 0
Chain cell next [] = next ≡ none
Chain cell next (p ∷ ps) =
    (next ≡ some p) × (c : Cell) × (cell p ≡ some c) × IsClean c × Chain cell c.wi_next ps

abbrev pub Absent : ℕ → List ℕ → Type 0
Absent p [] = Unit {0}
Absent p (q ∷ qs) = (p ≢ q) × Absent p qs

abbrev pub Distinct : List ℕ → Type 0
Distinct [] = Unit {0}
Distinct (p ∷ ps) = Absent p ps × Distinct ps

-- No address of the list is allocated any more.
abbrev pub Freed : List ℕ → (ℕ → Option Cell) → Type 0
Freed [] cell = Unit {0}
Freed (p ∷ ps) cell = (cell p ≡ none) × Freed ps cell

pub record IsCache (s : Store) (ps : List ℕ) : Type 0 where
  pub chain : Chain s.cell s.head ps
  pub distinct : Distinct ps

-- A write elsewhere leaves the list alone.
pub Chain-update :
    (cell : ℕ → Option Cell) (p : ℕ) (v : Option Cell) (next : Option ℕ) (ps : List ℕ)
    → Absent p ps
    → Chain cell next ps
    → Chain (update cell p v) next ps
Chain-update cell p v next [] away h = h
Chain-update cell p v next (q ∷ qs) (ne, away) (at, c, holds, clean, rest) =
    (at, c, update_ne cell p q v ne ∙ holds, clean, Chain-update cell p v c.wi_next qs away rest)

-- An item that is freed becomes the head of the cache of the thread.
pub witem_free-IsCache :
    (p : ℕ) (s : Store) (ps : List ℕ) (c : Cell)
    → IsCache s ps
    → s.cell p ≡ some c
    → Absent p ps
    → (s' : Store) × (witem_free p s ≡ ret s') × IsCache s' (p ∷ ps)
unfolding witem_free
witem_free-IsCache p s ps c v at away =
    let freed : Cell = record {
      stqe_next = none;
      func = none;
      func_arg = 0;
      flags = 0;
      gencount = 0;
      wi_next = s.head;
    } in
    (
      record { cell = update s.cell p (some freed); head = some p },
      rw at refl,
      record {
        chain = (
          refl,
          freed,
          update_self s.cell p (some freed),
          record { no_next = refl; no_flags = refl; no_gencount = refl },
          Chain-update s.cell p (some freed) s.head ps away v.chain,
        );
        distinct = (away, v.distinct);
      },
    )

-- While the cache holds items witem_alloc does not ask malloc: it takes the head, with the function
-- and its argument set and the other fields as new, and the rest stays in the cache.
pub witem_alloc_cached :
    (mallocs : List (Option (ℕ × Cell))) (func : Option ℕ) (arg p : ℕ) (s : Store) (ps : List ℕ)
    → IsCache s (p ∷ ps)
    → (s' : Store) × (c : Cell) × (witem_alloc mallocs func arg s ≡ ret (p, s'))
      × IsCache s' ps
      × (s'.cell p ≡ some c)
      × IsClean c
      × (c.func ≡ func)
      × (c.func_arg ≡ arg)
unfolding witem_alloc take_witem
witem_alloc_cached mallocs func arg p s ps v =
    let (at, c, holds, clean, rest) = v.chain in
    let c' : Cell = record c { func = func; func_arg = arg } in
    (
      record { cell = update s.cell p (some c'); head = c.wi_next },
      c',
      ground (arith, at, holds),
      record {
        chain = Chain-update s.cell p (some c') c.wi_next ps (v.distinct.0) rest;
        distinct = v.distinct.1;
      },
      update_self s.cell p (some c'),
      record {
        no_next = clean.no_next;
        no_flags = clean.no_flags;
        no_gencount = clean.no_gencount;
      },
      refl,
      refl,
    )

-- So the item that was freed last is the one that the next witem_alloc gives.
pub witem_alloc-witem_free :
    (mallocs : List (Option (ℕ × Cell))) (func : Option ℕ) (arg p : ℕ) (s : Store) (ps : List ℕ)
    (c : Cell)
    → IsCache s ps
    → s.cell p ≡ some c
    → Absent p ps
    → (s' s'' : Store) × (witem_free p s ≡ ret s')
      × (witem_alloc mallocs func arg s' ≡ ret (p, s''))
      × IsCache s'' ps
witem_alloc-witem_free mallocs func arg p s ps c v at away =
    let (s', freed, v') = witem_free-IsCache p s ps c v at away in
    let (s'', d, taken, v'', _, _, _, _) = witem_alloc_cached mallocs func arg p s' ps v' in
    (s', s'', freed, taken, v'')

-- One round of the cleanup, at an item.
cleanup_step :
    (n p : ℕ) (c : Cell) (next : Option ℕ) (cell cell' : ℕ → Option Cell)
    → next ≡ some p
    → cell p ≡ some c
    → witem_cache_cleanup n c.wi_next (update cell p none) ≡ ret cell'
    → witem_cache_cleanup (suc n) next cell ≡ ret cell'
unfolding witem_cache_cleanup
cleanup_step n p c next cell cell' at holds call = rw (at, witem_cache_cleanup, holds) call

-- The cleanup at the exit of a thread ends within one round more than there are items; it frees
-- each item of the cache, and nothing else.
pub witem_cache_cleanup_lem :
    (rounds : ℕ) (ps : List ℕ) (next : Option ℕ) (cell : ℕ → Option Cell)
    → length ps < rounds
    → Distinct ps
    → Chain cell next ps
    → (cell' : ℕ → Option Cell) × (witem_cache_cleanup rounds next cell ≡ ret cell')
      × Freed ps cell'
      × ((q : ℕ) → Absent q ps → cell' q ≡ cell q)
unfolding witem_cache_cleanup
witem_cache_cleanup_lem zero ps next cell h d c = absurd (omega arith)
witem_cache_cleanup_lem (suc n) [] next cell h d c = (cell, rw c refl, tt, λ q away. refl)
witem_cache_cleanup_lem (suc n) (p ∷ ps) next cell h d (at, c, holds, clean, rest) =
    let (cell', call, freed, kept) =
      witem_cache_cleanup_lem n ps c.wi_next (update cell p none) (omega arith) (d.1)
        (Chain-update cell p none c.wi_next ps (d.0) rest) in
    (
      cell',
      cleanup_step n p c next cell cell' at holds call,
      (kept p (d.0) ∙ update_self cell p none, freed),
      λ q away. kept q (away.1) ∙ update_ne cell p q none (λ e. away.0 (sym e)),
    )

-- ===== src/Witem/Cache/Threads.antt =====
-- The caches of several threads over one heap (src/witem_cache.c with WITEM_CACHE_TYPE 3): any thread
-- may free an item that another one allocated, and a thread that exits gives its cache back.
pub mod Alloc
pub mod Exit
pub mod Safety
pub mod Turns
pub mod Unused
use libpwq.Prelude.{ℕ, ◌≡◌, Option, none, some, List, [], ◌∷◌, Bool, true, false, ret, update}
use libpwq.Witem.Cache.{Cell, Store, witem_alloc, witem_free, witem_cache_cleanup}

-- The memory of the items, the value of `witem_cache_key` in each thread, and which items are in use:
-- witem_alloc gave them, and witem_free did not get them back yet.
pub record Caches : Type 0 where
  pub cell : ℕ → Option Cell
  pub head : ℕ → Option ℕ
  pub used : ℕ → Bool

-- What a thread sees.
abbrev pub store_of : Caches → ℕ → Store
store_of h t = record { cell = h.cell; head = h.head t }

-- malloc gives no block that is allocated.
abbrev pub AreNew : List (Option (ℕ × Cell)) → (ℕ → Option Cell) → Type 0
AreNew [] cell = Unit {0}
AreNew (none ∷ rest) cell = AreNew rest cell
AreNew (some (p, old) ∷ rest) cell = (cell p ≡ none) × AreNew rest cell

pub data Step (h : Caches) : Caches → Type 0 where
  allocs :
      (t : ℕ) (mallocs : List (Option (ℕ × Cell))) (func : Option ℕ) (arg : ℕ) {p : ℕ} {s : Store}
      → AreNew mallocs h.cell
      → witem_alloc mallocs func arg (store_of h t) ≡ ret (p, s)
      → Step h
          (record { cell = s.cell; head = update h.head t s.head; used = update h.used p true })
  frees :
      (t p : ℕ) {s : Store}
      → h.used p ≡ true
      → witem_free p (store_of h t) ≡ ret s
      → Step h
          (record { cell = s.cell; head = update h.head t s.head; used = update h.used p false })
  leaves :
      (t rounds : ℕ) {cell' : ℕ → Option Cell}
      → witem_cache_cleanup rounds (h.head t) h.cell ≡ ret cell'
      → Step h (record h { cell = cell'; head = update h.head t none })

-- At the start nothing is allocated.
pub data Reach : Caches → Type 0 where
  start : Reach (record { cell = λ p. none; head = λ t. none; used = λ p. false })
  later : {h k : Caches} → Reach h → Step h k → Reach k

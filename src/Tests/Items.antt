-- ===== src/Tests/Items.antt =====
-- The items and the caches of two threads at concrete addresses.
use libpwq.Prelude.{
  ℕ, ◌≡◌, ◌≢◌, refl, Option, some, none, List, [], ◌∷◌, true, false, ret, update, length, suc,
}
use libpwq.Witem.Cache.{Cell, Store, witem_alloc, witem_free, witem_cache_cleanup}
use libpwq.Witem.Cache.Laws.{IsClean, Chain, Absent, Freed}
use libpwq.Witem.Cache.Threads.{Caches, store_of, Reach, start, later, allocs, frees}
use libpwq.Witem.Cache.Threads.Unused.{alloc_unused, freed_by_any, exit_keeps_used}

-- What malloc finds in its memory, and the item at the end of witem_alloc_from_heap.
abbrev junk : Cell
junk = record {
  stqe_next = some 8;
  func = none;
  func_arg = 0;
  flags = 3;
  gencount = 4;
  wi_next = some 9;
}

abbrev block : Cell
block = record junk { stqe_next = none; flags = 0; gencount = 0 }

-- Thread 0 takes an item at 64 when malloc succeeds for the second time.
abbrev taken : Store
taken = record {
  cell =
      update (update (λ p. none) 64 (some block)) 64
        (some (record block { func = some 5; func_arg = 6 }));
  head = none;
}

abbrev one_taken : Caches
one_taken = record {
  cell = taken.cell;
  head = update (λ t. none) 0 none;
  used = update (λ p. false) 64 true;
}

one_taken-Reach : Reach one_taken
unfolding witem_alloc
one_taken-Reach =
    later start
      (allocs 0 (none ∷ some (64, junk) ∷ []) (some 5) 6 {p = 64} {s = taken} (refl, tt) refl)

-- Then thread 1 frees that item.
abbrev after_free : Store
after_free = record {
  cell = update one_taken.cell 64 (
      some (record {
        stqe_next = none;
        func = none;
        func_arg = 0;
        flags = 0;
        gencount = 0;
        wi_next = none;
      }));
  head = some 64;
}

abbrev one_freed : Caches
one_freed = record {
  cell = after_free.cell;
  head = update one_taken.head 1 (some 64);
  used = update one_taken.used 64 false;
}

one_freed-Reach : Reach one_freed
unfolding witem_free
one_freed-Reach = later one_taken-Reach (frees 1 64 {s = after_free} refl refl)

alloc_unused_example :
    (p : ℕ) × (s : Store) × (c : Cell) × (witem_alloc
        (none ∷ some (128, junk) ∷ [])
        (some 7)
        3
        (store_of one_freed 1)
      ≡ ret (p, s))
    × (one_freed.used p ≡ false)
    × (s.cell p ≡ some c)
    × (c.func ≡ some 7)
    × (c.func_arg ≡ 3)
    × IsClean c
    × ((q : ℕ) → p ≢ q → s.cell q ≡ one_freed.cell q)
alloc_unused_example =
    alloc_unused one_freed-Reach 1 (none ∷ some (128, junk) ∷ []) (some 7) 3 (refl, tt) tt

freed_by_any_example :
    (s s' : Store) × (witem_free 64 (store_of one_taken 1) ≡ ret s)
    × (witem_alloc [] (some 7) 3 s ≡ ret (64, s'))
freed_by_any_example = freed_by_any one_taken-Reach 1 64 refl [] (some 7) 3

exit_keeps_used_example :
    (ps : List ℕ) × (cell' : ℕ → Option Cell) × Chain one_freed.cell (one_freed.head 1) ps
    × (witem_cache_cleanup (suc (length ps)) (one_freed.head 1) one_freed.cell ≡ ret cell')
    × Freed ps cell'
    × ((q : ℕ) → Absent q ps → cell' q ≡ one_freed.cell q)
    × ((q : ℕ) → one_freed.used q ≡ true → cell' q ≡ one_freed.cell q)
exit_keeps_used_example = exit_keeps_used one_freed-Reach 1

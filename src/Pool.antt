-- ===== src/Pool.antt =====
-- What a pool of threads promises its clients, whatever its queues and its threads look like: items
-- are added, a thread takes each of them once, and its function ends. src/posix/manager.c has two such
-- pools, for the plain workqueues and for those with overcommit, and src/windows/manager.c has one for
-- Windows XP.
pub mod Bags
pub mod Service
pub mod View
use libpwq.Prelude.{◌≡◌, List, [], ◌∷◌, ◌++◌}
use libpwq.Workqueue.{Work}
use libpwq.Pool.Bags.{Bag, none_in, put}

-- The items that wait, those that a thread has, and those that are done with.
pub record Pool : Type 0 where
  pub pending : Bag
  pub taken : Bag
  pub done : Bag

-- What may happen to a pool; the list has the items that come from a client.
pub data Act (p : Pool) : List Work → Pool → Type 0 where
  rests : {q : Pool} → q.pending ≡ p.pending → q.taken ≡ p.taken → q.done ≡ p.done → Act p [] q
  gains :
      {q : Pool} (w : Work)
      → q.pending ≡ put w p.pending
      → q.taken ≡ p.taken
      → q.done ≡ p.done
      → Act p (w ∷ []) q
  takes :
      {q : Pool} (w : Work)
      → p.pending ≡ put w q.pending
      → q.taken ≡ put w p.taken
      → q.done ≡ p.done
      → Act p [] q
  ends :
      {q : Pool} (w : Work)
      → q.pending ≡ p.pending
      → p.taken ≡ put w q.taken
      → q.done ≡ put w p.done
      → Act p [] q

-- Acts from the empty pool on, with the items that came, the last one first.
pub data Acts : List Work → Pool → Type 0 where
  begins : {p : Pool} → p.pending ≡ none_in → p.taken ≡ none_in → p.done ≡ none_in → Acts [] p
  goes_on : {p q : Pool} {ws vs : List Work} → Acts ws p → Act p vs q → Acts (vs ++ ws) q

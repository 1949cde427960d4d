-- ===== src/Windows/Pools.antt =====
-- src/windows/manager.c without PROVIDE_LEGACY_XP_SUPPORT: each workqueue has a thread pool of
-- Windows, and its items go there one by one.
use libpwq.Prelude.{
  ℕ, ℤ, pos, ◌*◌, ◌%◌, Option, none, some, List, [], ◌∷◌, ◌++◌, Bool, is_nonzero, not, ◌==◌,
  if◌then◌else◌, Outcome, ret, aborts, faults,
}
use libpwq.Word.{u32_mod}
use libpwq.Workqueue.{Work, Workqueue}

-- TP_CALLBACK_PRIORITY_…
pub data Priority : Type 0 where
  low normal high : Priority

-- A thread pool as far as the library sets it: the priority of its callbacks, the maximum of
-- threads if one is set, and the work submitted to it that has not begun.
pub record Pool : Type 0 where
  pub priority : Priority
  pub maximum : Option ℕ
  pub submitted : List Work

-- The switch on `workq->queueprio`: the most urgent queues get the low priority of Windows, and
-- the low ones the high priority.
unfoldable pub callback_priority : ℤ → Priority
callback_priority (pos n) = if n == 0 then low else if n == 2 then high else normal
callback_priority _ = normal

-- `created` says whether CreateThreadpool succeeds: if not, the workqueue stays without a pool,
-- and no error is reported. `processors` is dwNumberOfProcessors.
unfoldable pub manager_workqueue_create : Bool → ℕ → Workqueue → Option Pool
unfolding callback_priority
manager_workqueue_create created processors q =
    if not created
    then none
    else some (record {
      priority = callback_priority q.queueprio;
      maximum = if is_nonzero q.overcommit then some (processors * 2 % u32_mod) else none;
      submitted = [];
    })

-- `created` says whether CreateThreadpoolWork succeeds: if not, the item is dropped.
unfoldable pub manager_workqueue_additem : Bool → Pool → Work → Pool
manager_workqueue_additem created p w =
    if created then record p { submitted = p.submitted ++ w ∷ [] } else p

-- The callback: the work item whose function it calls, before it frees the item. A NULL function
-- is called as well.
unfoldable pub worker_main : Work → Outcome ℕ
worker_main w = elim w.func [ none ↦ faults | some f ↦ ret f ]

-- manager_peek of Windows knows no key.
unfoldable pub manager_peek : Outcome ℕ
manager_peek = aborts

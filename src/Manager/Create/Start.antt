-- ===== src/Manager/Create/Start.antt =====
-- manager_start: when it ends.
use libpwq.Prelude.{
  ℕ, is_nonzero, not, ◌&&◌, ◌==◌, if◌then◌else◌, ◌≡◌, refl, List, [], ◌∷◌, ret, arith, get_elem?,
  some,
}
use libpwq.Workqueue.{Workqueue}
use libpwq.Manager.{Manager}
use libpwq.Manager.Invariant.{Inv}
use libpwq.Manager.Create.{
  Spawn, created, eagain, refused, manager_start, store_workqueue, manager_workqueue_create,
}

-- pthread_create succeeds after a while, with no error but EAGAIN before.
abbrev pub CanStart : List Spawn → Type 0
CanStart [] = ⊥
CanStart (created ∷ rest) = Unit {0}
CanStart (eagain ∷ rest) = CanStart rest
CanStart (refused ∷ rest) = ⊥

pub manager_start_lem :
    (spawns : List Spawn) (m : Manager)
    → CanStart spawns
    → manager_start spawns m ≡ ret (record m { wqlist_has_manager = 1 })
unfolding manager_start
manager_start_lem [] m h = elim h [ ]
manager_start_lem (created ∷ rest) m h = refl
manager_start_lem (eagain ∷ rest) m h = manager_start_lem rest m h
manager_start_lem (refused ∷ rest) m h = elim h [ ]

-- Whether there is a manager thread after a workqueue was created.
abbrev pub manager_after : Manager → Workqueue → ℕ
manager_after m q =
    if not (is_nonzero q.overcommit) && (m.wqlist_has_manager == 0) then 1 else m.wqlist_has_manager

abbrev pub started : Manager → Workqueue → Manager
started m q = record m { wqlist_has_manager = manager_after m q }

pub started-Inv : {m : Manager} (q : Workqueue) → Inv m → Inv (started m q)
started-Inv q v = record { normal = v.normal; over = v.over; registered = v.registered }

-- Once the manager thread runs, the rest is the branch that fills a table.
pub create-store :
    (spawns : List Spawn) (m : Manager) (a : ℕ) (q : Workqueue)
    → CanStart spawns
    → get_elem? m.heap a ≡ some q
    → manager_workqueue_create spawns m a ≡ store_workqueue (started m q) a q
unfolding manager_workqueue_create
create-store spawns m a q can at = ground (arith, manager_start_lem spawns m can, at)

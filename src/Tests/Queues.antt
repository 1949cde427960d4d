-- ===== src/Tests/Queues.antt =====
-- Scans and insertions on two workqueues, each with an item.
use libpwq.Prelude.{ℤ, ◌≡◌, refl, Option, List, [], ◌∷◌, ◌++◌, true, false, ret}
use libpwq.Workqueue.{Work, Workqueue}
use libpwq.Manager.{Manager, Effect}
use libpwq.Manager.Invariant.{Inv, pending_items}
use libpwq.Manager.Additem.{manager_workqueue_additem}
use libpwq.Manager.Scan.{wqlist_scan}
use libpwq.Manager.Scan.Priority.{ScanResult, wqlist_scan-ScanResult}
use libpwq.Manager.Backlog.{backlog, gather}
use libpwq.Manager.Backlog.Refine.{Takes, scan_refines, additem_refines}
use libpwq.Manager.Overcommit.{take_overcommit}
use libpwq.Manager.Overcommit.Laws.{TakeResult, take_overcommit-TakeResult}
use libpwq.Tests.Fixtures.{plain_queue, over_queue, work_64, work_128, loaded, loaded-Inv}

abbrev full_plain : Workqueue
full_plain = record plain_queue { item_listhead = work_64 ∷ [] }

abbrev full_over : Workqueue
full_over = record over_queue { item_listhead = work_128 ∷ [] }

scan_refines_example :
    (m' : Manager) × (found : Option (Work × ℤ)) × (wqlist_scan loaded true ≡ ret (m', found))
    × Inv m'
    × Takes true loaded m' found
scan_refines_example = scan_refines true loaded-Inv

additem_refines_example :
    (m' : Manager) × (effects : List Effect) × (manager_workqueue_additem loaded 0 work_128
      ≡ ret (m', effects))
    × Inv m'
    × (backlog m'
        ≡ gather 2 0 (pending_items loaded) ++ work_128 ∷ gather 29 2 (pending_items loaded))
additem_refines_example = additem_refines 0 full_plain work_128 loaded-Inv refl refl

wqlist_scan-ScanResult_example : ScanResult loaded false (wqlist_scan loaded false)
wqlist_scan-ScanResult_example = wqlist_scan-ScanResult loaded-Inv false

take_overcommit-TakeResult_example : TakeResult loaded (take_overcommit loaded)
take_overcommit-TakeResult_example = take_overcommit-TakeResult loaded-Inv

-- Two overcommit threads wait.

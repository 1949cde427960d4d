-- ===== src/Manager/Scan/Stale.antt =====
-- A scan that read `wqlist_mask` before another thread emptied the queue that it picked.
use libpwq.Prelude.{ℕ, pos, ◌≡◌, some, none, List, [], ◌∷◌, Bool, false, ret, arith}
use libpwq.Workqueue.{Work, slot}
use libpwq.Manager.{Manager}
use libpwq.Manager.Invariant.{Inv, pending_items, pending-lt}
use libpwq.Manager.Scan.{take_first, scan_queue, wqlist_scan}
use libpwq.Manager.Scan.Priority.{nothing, held_back, took, wqlist_scan-ScanResult}

-- The queue at index `i` is empty by the time that a scan which picked it holds its lock: the scan
-- finds nothing and changes nothing, also where another queue has an item and a scan that starts
-- now takes one. So a worker may go to sleep with items in the queues.
pub stale_scan :
    {m : Manager} (i a j : ℕ) (skip : Bool) (w : Work) (rest : List Work)
    → Inv m
    → slot m.wqlist i ≡ some a
    → pending_items m i ≡ []
    → pending_items m j ≡ w ∷ rest
    → (m' : Manager) × (u : Work) × (k : ℕ) × (scan_queue m i skip ≡ ret (m, none))
      × (wqlist_scan m false ≡ ret (m', some (u, pos k)))
unfolding scan_queue take_first
stale_scan {m} i a j skip w rest v own empty busy =
    let (q, at, _) = v.normal.entry i a own in
    let stale : scan_queue m i skip ≡ ret (m, none) = ground (arith, own, at, empty) in
    elim (wqlist_scan-ScanResult v false) [
      | nothing idle e ↦
          absurd (ground (arith, idle j (omega (arith, pending-lt v j w rest busy)), busy))
      | held_back k u left exits small at_k before e ↦ absurd (ground (arith, exits))
      | took k u left m' runs t e ↦ (m', u, k, stale, e)
    ]

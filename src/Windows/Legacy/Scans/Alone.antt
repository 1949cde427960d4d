-- ===== src/Windows/Legacy/Scans/Alone.antt =====
-- A scan of the manager for Windows XP (wqlist_scan of src/windows/manager.c) that nothing comes
-- between, round by round and as a whole.
use libpwq.Prelude.{
  ℕ, zero, suc, ◌+◌, ◌-◌, ◌<◌, ◌≤◌, ◌≡◌, Option, none, some, List, [], ◌∷◌, length, Outcome, ret,
  waits,
}
use libpwq.Workqueue.{Work, Workqueue}
use libpwq.Windows.Legacy.{Legacy, scan_list}
use libpwq.Windows.Legacy.Scans.{
  Look, empty_here, found, at_end, PoolThread, resting, scanning, running, scan_on,
}
use libpwq.Windows.Legacy.Scans.Rest.{size}

-- What follows a round.
unfoldable pub after_round :
    (ℕ → Legacy → Outcome (Legacy × Option Work))
    → Legacy
    → PoolThread
    → Outcome (Legacy × Option Work)
after_round on s resting = ret (s, none)
after_round on s (scanning m) = on m s
after_round on s (running w) = ret (s, some w)

-- The rounds of a scan that is behind `m` workqueues, given how many it may take.
unfoldable pub scan_alone : ℕ → ℕ → Legacy → Outcome (Legacy × Option Work)
unfolding scan_on after_round
scan_alone zero m s = waits
scan_alone (suc rounds) m s = let (s', t) = scan_on m s in after_round (scan_alone rounds) s' t

-- A whole scan that leaves out the first `m` workqueues.
unfoldable from_list : ℕ → List (ℕ × Workqueue) → Option (Work × List (ℕ × Workqueue))
unfolding scan_list
from_list m [] = none
from_list zero (e ∷ rest) = scan_list (e ∷ rest)
from_list (suc m) (e ∷ rest) = elim (from_list m rest) [
  | none ↦ none
  | some (w, rest') ↦ some (w, e ∷ rest')
]

unfoldable or_later :
    List (ℕ × Workqueue)
    → List (List (ℕ × Workqueue))
    → Option (Work × List (ℕ × Workqueue))
    → Option (Work × List (List (ℕ × Workqueue)))
    → Option (Work × List (List (ℕ × Workqueue)))
or_later queues rest (some (w, queues')) o = some (w, queues' ∷ rest)
or_later queues rest none none = none
or_later queues rest none (some (w, rest')) = some (w, queues ∷ rest')

unfoldable from_lists :
    ℕ → List (List (ℕ × Workqueue)) → Option (Work × List (List (ℕ × Workqueue)))
unfolding from_list or_later
from_lists m [] = none
from_lists m (queues ∷ rest) =
    or_later queues rest (from_list m queues) (from_lists (m - length queues) rest)

-- A look tells how the scan goes on.
data GoesOn {A : Type 0} (from : ℕ → A → Option (Work × A)) (size : A → ℕ) (m : ℕ) (x : A)
    (r : Look A) : Type 0 where
  next : r ≡ empty_here → m < size x → from m x ≡ from (suc m) x → GoesOn from size m x r
  here :
      (w : Work) (y : A)
      → r ≡ found w y
      → m < size x
      → from m x ≡ some (w, y)
      → GoesOn from size m x r
  over :
      (k : ℕ)
      → r ≡ at_end k
      → m ≡ size x + k
      → ((j : ℕ) → m ≤ j → from j x ≡ none)
      → GoesOn from size m x r

result : Legacy → Option (Work × List (List (ℕ × Workqueue))) → Legacy × Option Work
result s none = (s, none)
result s (some (w, lists)) = (record { wqlist = lists }, some w)

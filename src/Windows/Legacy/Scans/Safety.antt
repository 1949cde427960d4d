-- ===== src/Windows/Legacy/Scans/Safety.antt =====
-- The scans of the manager for Windows XP (src/windows/manager.c), however they and the clients are
-- interleaved.
use native.Mathlib.Decide.{ℕ_discrete, dec_lt}
use libpwq.Prelude.{
  true, ◌∷◌, Bool-cases, ℕ, zero, suc, ◌+◌, ◌<◌, ◌≤◌, ◌≡◌, refl, sym, subst, List, [], false, ◌==◌,
  update, sum_over, sum_over-update, sum_over-member, sum_over-zero, sum_over_mono, ret, arith, inl,
  inr,
}
use libpwq.Workqueue.{Work, Workqueue, is_null}
use libpwq.Manager.Weigh.{weigh}
use libpwq.Windows.Legacy.{Legacy, manager_init, manager_workqueue_create, insert_in}
use libpwq.Windows.Legacy.Sums.{sum_in, sum_all, items_of, is_at, sum_all-insert_in, sum_all-set}
use libpwq.Windows.Legacy.Run.{null_function, create_at}
use libpwq.Windows.Legacy.Scans.{PoolThread, resting, scanning, running, at_rest, is_past, Scans}
use libpwq.Windows.Legacy.Scans.Rest.{
  rest_all, rest_all-zero, rest_all-past, rest_all-insert_in, size,
}

abbrev pub one : Work → ℕ
one w = 1

-- As many scans passed `k` workqueues as there are items behind those, or less.
pub record ScansInv (n : ℕ) (r : Scans) : Type 0 where
  pub apart : (a : ℕ) → sum_all (is_at a) r.manager.wqlist ≤ 1
  pub matched :
      sum_all (items_of one) r.manager.wqlist
      ≡ r.callbacks + r.adding + sum_over (is_past 0) n r.thread
  pub ahead : (k : ℕ) → sum_over (is_past k) n r.thread ≤ rest_all one k r.manager.wqlist
  pub callable : sum_all (items_of null_function) r.manager.wqlist ≡ 0

pub start-ScansInv : (n : ℕ) → ScansInv n at_rest
unfolding manager_init sum_all sum_in
start-ScansInv n =
    let quiet : (k : ℕ) → sum_over (is_past k) n (λ i. resting) ≡ 0 =
      λ k. sum_over-zero (is_past k) n (λ i. resting) (λ i lt. refl) in
    record {
      apart = λ a. omega arith;
      matched = rw (quiet 0) refl;
      ahead = λ k. omega (arith, quiet k);
      callable = refl;
    }

pub creates-ScansInv :
    {n : ℕ} {r : Scans} (a : ℕ) (q : Workqueue) {s : Legacy}
    → ScansInv n r
    → sum_over (is_past 0) n r.thread ≡ 0
    → sum_all (is_at a) r.manager.wqlist ≡ 0
    → q.item_listhead ≡ []
    → manager_workqueue_create r.manager a q ≡ ret s
    → ScansInv n (record r { manager = s; making = update r.making a true })
unfolding weigh
creates-ScansInv {n} {r} a q {s} h quiet absent bare call =
    let (i, queues, at, is) = create_at r.manager a q call in
    let grown : (f : ℕ × Workqueue → ℕ)
        → sum_all f s.wqlist ≡ f (a, q) + sum_all f r.manager.wqlist =
      λ f. rw is (sum_all-set f r.manager.wqlist i (a, q) queues at) in
    record {
      apart = λ b. elim (Bool-cases (b == a)) [
        | inl same ↦
            let e : b ≡ a = ground (arith, same) in
            subst (λ c. sum_all (is_at c) s.wqlist ≤ 1) (sym e)
              (ground (arith, grown (is_at a), absent))
        | inr other ↦ ground (arith, grown (is_at b), other, h.apart b)
      ];
      matched = ground (arith, grown (items_of one), bare, h.matched);
      ahead = λ k.
          let fewer = sum_over_mono (is_past k) (is_past 0) n r.thread (λ t. ground arith) in
          omega (arith, fewer, quiet);
      callable = ground (arith, grown (items_of null_function), bare, h.callable);
    }

pub inserts-ScansInv :
    {n : ℕ} {r : Scans} (a : ℕ) (w : Work)
    → ScansInv n r
    → 0 < sum_all (is_at a) r.manager.wqlist
    → is_null w.func ≡ false
    → ScansInv n (record r {
      manager = record { wqlist = insert_in a w r.manager.wqlist };
      adding = r.adding + 1;
      added = w ∷ r.added;
    })
inserts-ScansInv {n} {r} a w h there runs =
    let (sizes, places) = sum_all-insert_in a w r.manager.wqlist in
    let single : sum_all (is_at a) r.manager.wqlist ≡ 1 = omega (arith, there, h.apart a) in
    record {
      apart = λ b. omega (arith, h.apart b, places b);
      matched = ground (arith, sizes one, single, h.matched);
      ahead = λ k. omega (arith, h.ahead k, rest_all-insert_in one a w k r.manager.wqlist);
      callable = ground (arith, sizes null_function, single, h.callable, runs);
    }

-- A thread whose scan begins is behind none.
pub begins-ScansInv :
    {n : ℕ} {r : Scans} (i : ℕ) {k : ℕ}
    → ScansInv n r
    → i < n
    → r.thread i ≡ resting
    → r.callbacks ≡ suc k
    → ScansInv n (record r { callbacks = k; thread = update r.thread i (scanning 0) })
begins-ScansInv {n} {r} i {k} h lt at e =
    let moved : (j : ℕ)
        → sum_over (is_past j) n (update r.thread i (scanning 0))
          ≡ sum_over (is_past j) n r.thread + is_past j (scanning 0) =
      λ j. ground (arith, sum_over-update (is_past j) n r.thread i (scanning 0) lt, at) in
    record {
      apart = h.apart;
      matched = omega (arith, h.matched, e, moved 0);
      ahead = λ j.
          elim j
            as (λ (x : ℕ).
              sum_over (is_past x) n (update r.thread i (scanning 0))
              ≤ rest_all one x r.manager.wqlist) [
                | zero ↦ omega (arith, h.matched, e, moved 0, rest_all-zero one r.manager.wqlist)
                | suc x ↦ ground (arith, moved (suc x), h.ahead (suc x))
              ];
      callable = h.callable;
    }

-- One round of a scan that is behind `m` workqueues.
module _ {n : ℕ} {r : Scans} (h : ScansInv n r) (i m : ℕ) (lt : i < n)
    (at : r.thread i ≡ scanning m) where
  moved :
      (t : PoolThread) (j : ℕ)
      → sum_over (is_past j) n (update r.thread i t) + is_past j (scanning m)
        ≡ sum_over (is_past j) n r.thread + is_past j t
  moved t j = ground (arith, sum_over-update (is_past j) n r.thread i t lt, at)

  -- It passes a workqueue that has no item.
  pub passes-ScansInv :
      rest_all one (suc m) r.manager.wqlist ≡ rest_all one m r.manager.wqlist
      → ScansInv n (record r { thread = update r.thread i (scanning (suc m)) })
  passes-ScansInv same =
      let after = update r.thread i (scanning (suc m)) in
      let fewer = sum_over_mono (is_past (suc m)) (is_past m) n after (λ t. ground arith) in
      record {
        apart = h.apart;
        matched = ground (arith, h.matched, moved (scanning (suc m)) 0);
        ahead = λ j. elim (ℕ_discrete j (suc m)) [
          | yes e ↦
              subst (λ (x : ℕ). sum_over (is_past x) n after ≤ rest_all one x r.manager.wqlist)
                (sym e) (ground (arith, fewer, same, moved (scanning (suc m)) m, h.ahead m))
          | no ne ↦ ground (arith, moved (scanning (suc m)) j, h.ahead j, ne)
        ];
        callable = h.callable;
      }

  -- It takes an item.
  pub takes-ScansInv :
      (w : Work) (y : List (List (ℕ × Workqueue)))
      → ((g : Work → ℕ) (k : ℕ) → k ≤ m → rest_all g k r.manager.wqlist ≡ g w + rest_all g k y)
      → ((g : Work → ℕ) (k : ℕ) → m < k → rest_all g k r.manager.wqlist ≡ rest_all g k y)
      → ((b : ℕ) → sum_all (is_at b) y ≡ sum_all (is_at b) r.manager.wqlist)
      → ScansInv n
          (record r { manager = record { wqlist = y }; thread = update r.thread i (running w) })
  takes-ScansInv w y before after places =
      let fewer : (g : Work → ℕ)
          → sum_all (items_of g) r.manager.wqlist ≡ g w + sum_all (items_of g) y =
        λ g.
          omega (
            arith,
            before g 0 (omega arith),
            rest_all-zero g r.manager.wqlist,
            rest_all-zero g y,
          ) in
      record {
        apart = λ b. omega (arith, h.apart b, places b);
        matched = ground (arith, h.matched, fewer one, moved (running w) 0);
        ahead = λ j. elim (dec_lt m j) [
          | yes far ↦ ground (arith, h.ahead j, after one j far, moved (running w) j, far)
          | no near ↦
              ground (arith, h.ahead j, before one j (omega arith), moved (running w) j, near)
        ];
        callable = omega (arith, h.callable, fewer null_function);
      }

  -- A scan does not come to the end of the workqueues.
  pub not_at_end : m < size r.manager.wqlist
  not_at_end = elim (dec_lt m (size r.manager.wqlist)) [
    | yes inside ↦ inside
    | no beyond ↦
        let here = sum_over-member (is_past m) n r.thread i lt in
        let nothing_left = rest_all-past one m r.manager.wqlist (omega arith) in
        absurd (ground (arith, h.ahead m, at, here, nothing_left))
  ]

-- ===== src/Windows/Legacy/Scans/Finds.antt =====
-- Each call of worker_main on Windows XP (src/windows/manager.c) finds an item, however the scans and
-- the clients are interleaved.
use libpwq.Prelude.{
  ◌∷◌, Option-cases, ℕ, suc, ◌+◌, ◌<◌, ◌≡◌, refl, sym, subst, ◌∙◌, some, update, sum_over,
  sum_over-update, update_self, arith, inl, inr, ◌⊎◌,
}
use libpwq.Workqueue.{Work}
use libpwq.Windows.Legacy.{Legacy}
use libpwq.Windows.Legacy.Sums.{sum_all, items_of}
use libpwq.Windows.Legacy.Run.{null_function}
use libpwq.Windows.Legacy.Scans.{
  PoolThread, resting, scanning, running, scan_on, is_past, Scans, Step, creates, inserts, makes,
  queues_call, begins, looks, ends, Reach, start, later,
}
use libpwq.Windows.Legacy.Scans.Rest.{
  rest_all-zero, size, sees_none, sees, sees_end, look_lists-Looked,
}
use libpwq.Windows.Legacy.Scans.Safety.{
  one, ScansInv, start-ScansInv, creates-ScansInv, inserts-ScansInv, begins-ScansInv,
  passes-ScansInv, takes-ScansInv, not_at_end,
}

-- What one round of a scan comes to.
pub data Turn (n : ℕ) (r : Scans) (i m : ℕ) : Type 0 where
  passes :
      scan_on m r.manager ≡ (r.manager, scanning (suc m))
      → ScansInv n (record r { thread = update r.thread i (scanning (suc m)) })
      → Turn n r i m
  takes :
      (s : Legacy) (w : Work) (f : ℕ)
      → scan_on m r.manager ≡ (s, running w)
      → w.func ≡ some f
      → ((g : Work → ℕ)
          → sum_all (items_of g) r.manager.wqlist ≡ g w + sum_all (items_of g) s.wqlist)
      → ScansInv n (record r { manager = s; thread = update r.thread i (running w) })
      → Turn n r i m

pub scan_on-Turn :
    {n : ℕ} {r : Scans} → ScansInv n r → (i m : ℕ) → i < n → r.thread i ≡ scanning m → Turn n r i m
unfolding scan_on
scan_on-Turn {n} {r} h i m lt at = elim (look_lists-Looked m r.manager.wqlist) [
  | sees_none e inside same ↦ passes (rw (scan_on, e) refl) (passes-ScansInv h i m lt at (same one))
  | sees w y e inside long before after places ↦ elim (Option-cases w.func) [
    | inl null ↦ absurd (
        ground (
          arith,
          null,
          h.callable,
          before null_function 0 (omega arith),
          rest_all-zero null_function r.manager.wqlist,
        ))
    | inr (f, has) ↦
        takes (record { wqlist = y }) w f (rw (scan_on, e) refl) has
          (λ g.
            omega (
              arith,
              before g 0 (omega arith),
              rest_all-zero g r.manager.wqlist,
              rest_all-zero g y,
            ))
          (takes-ScansInv h i m lt at w y before after places)
  ]
  | sees_end k e long ↦ absurd (omega (arith, long, not_at_end h i m lt at))
]

looks-ScansInv :
    {n : ℕ} {r : Scans} (i m : ℕ) {s : Legacy} {t : PoolThread}
    → ScansInv n r
    → i < n
    → r.thread i ≡ scanning m
    → scan_on m r.manager ≡ (s, t)
    → ScansInv n (record r { manager = s; thread = update r.thread i t })
looks-ScansInv {n} {r} i m {s} {t} h lt at call =
    let to : Legacy × PoolThread → Type 0 =
      λ x. ScansInv n (record r { manager = x.0; thread = update r.thread i x.1 }) in
    elim (scan_on-Turn h i m lt at) [
      | passes e v ↦ subst to (sym e ∙ call) v
      | takes s' w f e has fewer v ↦ subst to (sym e ∙ call) v
    ]

ends-ScansInv :
    {n : ℕ} {r : Scans} (i : ℕ) (w : Work)
    → ScansInv n r
    → i < n
    → r.thread i ≡ running w
    → ScansInv n (record r { thread = update r.thread i resting; done = w ∷ r.done })
ends-ScansInv {n} {r} i w h lt at =
    let same : (j : ℕ)
        → sum_over (is_past j) n (update r.thread i resting) ≡ sum_over (is_past j) n r.thread =
      λ j. ground (arith, sum_over-update (is_past j) n r.thread i resting lt, at) in
    record {
      apart = h.apart;
      matched = omega (arith, h.matched, same 0);
      ahead = λ j. omega (arith, h.ahead j, same j);
      callable = h.callable;
    }

pub Step-ScansInv : {n : ℕ} {r t : Scans} → Step n r t → ScansInv n r → ScansInv n t
Step-ScansInv (creates a q quiet absent bare call) h = creates-ScansInv a q h quiet absent bare call
Step-ScansInv (inserts a w made there runs) h = inserts-ScansInv a w h there runs
Step-ScansInv (makes a still) h = record {
  apart = h.apart;
  matched = h.matched;
  ahead = h.ahead;
  callable = h.callable;
}
Step-ScansInv (queues_call {k} e) h = record {
  apart = h.apart;
  matched = omega (arith, h.matched, e);
  ahead = h.ahead;
  callable = h.callable;
}
Step-ScansInv (begins i {k} lt at e) h = begins-ScansInv i h lt at e
Step-ScansInv (looks i m lt at made call) h = looks-ScansInv i m h lt at call
Step-ScansInv (ends i w lt at) h = ends-ScansInv i w h lt at

pub Reach-ScansInv : {n : ℕ} {r : Scans} → Reach n r → ScansInv n r
Reach-ScansInv {n} start = start-ScansInv n
Reach-ScansInv (later reach step) = Step-ScansInv step (Reach-ScansInv reach)

-- In every state of the manager for Windows XP that clients and the threads of the pool of Windows
-- lead to, one workqueue of a scan at a time, where each workqueue is created once and items with a
-- function are added to workqueues that were created, and as long as no scan comes to a workqueue
-- whose spin lock manager_workqueue_create has still to initialise: there are as many items as calls of
-- worker_main that are queued, clients that are yet to queue one, and scans; and a scan that is behind `m`
-- workqueues either takes an item with a function from the next one, or passes that one and has a further one
-- in front of it. So no scan comes to its end without an item, although others add and take items
-- behind it, and no item is left behind.
pub scan_finds :
    {n : ℕ} {r : Scans}
    → Reach n r
    → (i m : ℕ) → i < n
    → r.thread i ≡ scanning m
    → (sum_all (items_of (λ w. 1)) r.manager.wqlist
        ≡ r.callbacks + r.adding + sum_over (is_past 0) n r.thread)
      × (((scan_on m r.manager ≡ (r.manager, scanning (suc m))) × (suc m < size r.manager.wqlist))
          ⊎ ((s : Legacy) × (w : Work) × (f : ℕ) × (scan_on m r.manager ≡ (s, running w))
              × (w.func ≡ some f)))
scan_finds {n} {r} reach i m lt at =
    let h = Reach-ScansInv reach in
    (
      h.matched,
      elim (scan_on-Turn h i m lt at) [
        | passes e v ↦
            inl (e, not_at_end v i (suc m) lt (update_self r.thread i (scanning (suc m))))
        | takes s w f e has fewer v ↦ inr (s, w, f, e, has)
      ],
    )

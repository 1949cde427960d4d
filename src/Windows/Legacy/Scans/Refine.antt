-- ===== src/Windows/Legacy/Scans/Refine.antt =====
-- The manager for Windows XP (src/windows/manager.c), its scans one workqueue at a time, as a pool of
-- threads.
use native.Mathlib.Nat.{one-mul}
use libpwq.Prelude.{
  ℕ, suc, ◌+◌, ◌*◌, ◌<◌, ◌≡◌, refl, sym, ap, subst, ◌∙◌, List, [], ◌∷◌, ◌++◌, arith, ret, update,
  sum_over, sum_over-update, sum_over-zero,
}
use libpwq.Workqueue.{Work, Workqueue}
use libpwq.Manager.Weigh.{weigh, weigh-append}
use libpwq.Pool
use libpwq.Pool.{Pool, Act, Acts}
use libpwq.Pool.View.{View, seen, rest-Act, gain-Act, take-Act, end-Act}
use libpwq.Pool.Bags.{same_bag, listing, weigh-listing}
use libpwq.Pool.Service.{Service, Run, nothing_yet, one_more, Run-Act}
use libpwq.Windows.Legacy.{Legacy, manager_init, manager_workqueue_create}
use libpwq.Windows.Legacy.Laws.{items_in, all_items}
use libpwq.Windows.Legacy.Sums.{sum_in, sum_all, items_of, is_at, sum_all-insert_in, sum_all-set}
use libpwq.Windows.Legacy.Run.{create_at}
use libpwq.Windows.Legacy.Scans.{
  makes, PoolThread, resting, scanning, running, scan_on, Scans, Step, creates, inserts,
  queues_call, begins, looks, ends, Reach, start, later, at_rest,
}
use libpwq.Windows.Legacy.Scans.Safety.{ScansInv, start-ScansInv}
use libpwq.Windows.Legacy.Scans.Finds.{passes, takes, scan_on-Turn, Step-ScansInv}

-- The item that a thread has.
abbrev pub in_hand : PoolThread → List Work
in_hand (running w) = w ∷ []
in_hand _ = []

abbrev pub held : (Work → ℕ) → PoolThread → ℕ
held f t = weigh f (in_hand t)

weigh-items_in :
    (f : Work → ℕ) (queues : List (ℕ × Workqueue))
    → weigh f (items_in queues) ≡ sum_in (items_of f) queues
unfolding items_in sum_in weigh
weigh-items_in f [] = refl
weigh-items_in f ((a, q) ∷ rest) =
    omega (arith, weigh-append f q.item_listhead (items_in rest), weigh-items_in f rest)

pub weigh-all_items :
    (f : Work → ℕ) (lists : List (List (ℕ × Workqueue)))
    → weigh f (all_items lists) ≡ sum_all (items_of f) lists
unfolding all_items sum_all weigh
weigh-all_items f [] = refl
weigh-all_items f (queues ∷ rest) = omega (
  arith,
  weigh-append f (items_in queues) (all_items rest),
  weigh-items_in f queues,
  weigh-all_items f rest,
)

-- The workqueues and `n` threads as the queues and the threads of a pool.
abbrev pub threads : ℕ → View Legacy (ℕ → PoolThread)
threads n = record {
  queued = λ s. all_items s.wqlist;
  in_hand = λ thread. listing in_hand n thread;
  load = λ f s. sum_all (items_of f) s.wqlist;
  hold = λ f thread. sum_over (held f) n thread;
  weigh-queued = λ f s. weigh-all_items f s.wqlist;
  weigh-in_hand = λ f thread. weigh-listing f in_hand (held f) (λ t. refl) n thread;
}

abbrev pub pool_of : ℕ → Scans → Pool
pool_of n r = seen (threads n) r.manager r.thread r.done

-- A workqueue that is made brings no items.
create_items :
    (s : Legacy) (a : ℕ) (q : Workqueue) {s' : Legacy} (f : Work → ℕ)
    → q.item_listhead ≡ []
    → manager_workqueue_create s a q ≡ ret s'
    → sum_all (items_of f) s'.wqlist ≡ sum_all (items_of f) s.wqlist
unfolding weigh
create_items s a q {s'} f bare call =
    let (i, queues, at, is) = create_at s a q call in
    let grown = sum_all-set (items_of f) s.wqlist i (a, q) queues at in
    ground (arith, is, grown, bare)

module _ (n : ℕ) (r : Scans) where
  -- What a thread holds changes with what it does.
  hand :
      (i : ℕ) (t t' : PoolThread) (f : Work → ℕ)
      → i < n
      → r.thread i ≡ t
      → sum_over (held f) n (update r.thread i t') + held f t
        ≡ sum_over (held f) n r.thread + held f t'
  hand i t t' f lt at =
      subst
        (λ x.
          sum_over (held f) n (update r.thread i t') + held f x
          ≡ sum_over (held f) n r.thread + held f t')
        at (sum_over-update (held f) n r.thread i t' lt)

  look-Act :
      ScansInv n r
      → (i m : ℕ) {s : Legacy} {t : PoolThread} → i < n
      → r.thread i ≡ scanning m
      → scan_on m r.manager ≡ (s, t)
      → Act (pool_of n r) [] (pool_of n (record r { manager = s; thread = update r.thread i t }))
  unfolding weigh
  look-Act h i m {s} {t} lt at call =
      let to : Legacy × PoolThread → Type 0 = λ x.
        Act (pool_of n r) []
          (pool_of n (record r { manager = x.0; thread = update r.thread i x.1 })) in
      elim (scan_on-Turn h i m lt at) [
        | passes e v ↦ subst to (sym e ∙ call) (
            rest-Act (threads n) r.manager r.manager (λ f. refl)
              (λ f. omega (arith, hand i (scanning m) (scanning (suc m)) f lt at)) refl)
        | takes s' w func e has fewer v ↦ subst to (sym e ∙ call) (
            take-Act (threads n) r.manager s' w (λ f. omega (arith, fewer f))
              (λ f. omega (arith, hand i (scanning m) (running w) f lt at)) refl)
      ]

  Step-Act :
      {t : Scans}
      → ScansInv n r
      → Step n r t
      → (ws : List Work) × (t.added ≡ ws ++ r.added) × Act (pool_of n r) ws (pool_of n t)
  unfolding weigh
  Step-Act {t} h (creates a q {s} quiet absent bare call) = (
    [],
    refl,
    rest-Act (threads n) r.manager s (λ f. create_items r.manager a q f bare call) (λ f. refl) refl,
  )
  Step-Act {t} h (inserts a w made there runs) =
      let (sizes, places) = sum_all-insert_in a w r.manager.wqlist in
      let single : sum_all (is_at a) r.manager.wqlist ≡ 1 = omega (arith, there, h.apart a) in
      (
        w ∷ [],
        refl,
        gain-Act (threads n) r.manager t.manager w
            (λ f. omega (arith, sizes f, ap (λ k. k * f w) single, one-mul (f w))) (λ f. refl) refl,
      )
  Step-Act {t} h (makes a still) =
      ([], refl, rest-Act (threads n) r.manager r.manager (λ f. refl) (λ f. refl) refl)
  Step-Act {t} h (queues_call e) =
      ([], refl, rest-Act (threads n) r.manager r.manager (λ f. refl) (λ f. refl) refl)
  Step-Act {t} h (begins i lt at e) = (
    [],
    refl,
    rest-Act (threads n) r.manager r.manager (λ f. refl)
        (λ f. omega (arith, hand i resting (scanning 0) f lt at)) refl,
  )
  Step-Act {t} h (looks i m lt at made call) = ([], refl, look-Act h i m lt at call)
  Step-Act {t} h (ends i w lt at) = (
    [],
    refl,
    end-Act (threads n) r.manager r.manager w (λ f. refl)
        (λ f. omega (arith, hand i (running w) resting f lt at)) refl,
  )

at_rest_empty : (n : ℕ) → Acts [] (pool_of n at_rest)
unfolding weigh manager_init sum_all sum_in
at_rest_empty n =
    Pool.begins (same_bag (λ f. weigh-all_items f manager_init.wqlist))
      (same_bag (λ f.
        weigh-listing f in_hand (held f) (λ t. refl) n (λ i. resting)
        ∙ sum_over-zero (held f) n (λ i. resting) (λ i lt. refl)))
      refl

module _ (n : ℕ) where
  -- What the manager for Windows XP gives to the interface of a pool.
  abbrev legacy_pool : Service
  legacy_pool = record {
    State = Scans;
    initial = at_rest;
    Step = Step n;
    IsKept = ScansInv n;
    added = λ r. r.added;
    view = pool_of n;
    initial-IsKept = start-ScansInv n;
    step-IsKept = λ h st. Step-ScansInv st h;
    initial_empty = at_rest_empty n;
    step_acts = λ {s} h st. Step-Act n s h st;
  }

  Reach-Run : {r : Scans} → Reach n r → Run legacy_pool r
  Reach-Run start = nothing_yet
  Reach-Run (later r st) = one_more (Reach-Run r) st

-- The workqueues and the pool of threads of Windows XP, with clients that add items with a function to
-- workqueues that were created once, in any order of the steps and as long as no scan comes to a
-- workqueue whose spin lock manager_workqueue_create has still to initialise, are a pool of threads:
-- each step from a state that they reach is exactly one act of the pool that these states are seen as,
-- without the order of the items and without the queued calls. The step leaves all items where they
-- are, or one item comes from a client, or one item that waited is with a thread, or one that a thread
-- had is done with; the items that were added grow by those of the act.
pub legacy_pool_refines :
    {n : ℕ} {r t : Scans}
    → Reach n r
    → Step n r t
    → (ws : List Work) × (t.added ≡ ws ++ r.added) × Act (pool_of n r) ws (pool_of n t)
legacy_pool_refines {n} reach st = Run-Act (legacy_pool n) (Reach-Run n reach) st

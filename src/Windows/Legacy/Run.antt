-- ===== src/Windows/Legacy/Run.antt =====
-- The manager for Windows XP (src/windows/manager.c) at work: clients add items, and Windows runs
-- worker_main once for each call of QueueUserWorkItem. A scan is one step.
use libpwq.Prelude.{
  Bool-cases, ℤ, Option-cases, ℕ, zero, suc, pos, negsuc, ◌+◌, ◌<◌, ◌≤◌, ◌≡◌, refl, sym, ap, subst,
  ◌∙◌, Option, some, List, [], ◌∷◌, true, false, ◌==◌, if◌then◌else◌, get_elem?, set, ret,
  same_result, arith, inl, inr,
}
use libpwq.Workqueue.{Work, Workqueue, is_null}
use libpwq.Manager.Weigh.{weigh}
use libpwq.Windows.Legacy.{
  Legacy, manager_init, manager_workqueue_create, wqlist_scan, worker_main, insert_in,
  manager_workqueue_additem,
}
use libpwq.Windows.Legacy.Sums.{
  sum_in, sum_all, items_of, is_at, sum_all-insert_in, sum_all-set, nothing, took,
  scan_lists-Scanned,
}

-- `callbacks` counts the calls of worker_main that are queued.
pub record Run : Type 0 where
  pub manager : Legacy
  pub callbacks : ℕ

pub data Step (r : Run) : Run → Type 0 where
  creates :
      (a : ℕ) (q : Workqueue) {s : Legacy}
      → sum_all (is_at a) r.manager.wqlist ≡ 0
      → q.item_listhead ≡ []
      → manager_workqueue_create r.manager a q ≡ ret s
      → Step r (record r { manager = s })
  adds :
      (a : ℕ) (w : Work) {s : Legacy}
      → 0 < sum_all (is_at a) r.manager.wqlist
      → is_null w.func ≡ false
      → manager_workqueue_additem true r.manager a w ≡ ret s
      → Step r (record { manager = s; callbacks = r.callbacks + 1 })
  calls_back :
      {k : ℕ} {s : Legacy} {f : Option ℕ}
      → r.callbacks ≡ suc k
      → worker_main r.manager ≡ ret (s, f)
      → Step r (record { manager = s; callbacks = k })

pub data Reach : Run → Type 0 where
  start : Reach (record { manager = manager_init; callbacks = 0 })
  later : {r t : Run} → Reach r → Step r t → Reach t

pub create_at :
    (s : Legacy) (a : ℕ) (q : Workqueue) {s' : Legacy}
    → manager_workqueue_create s a q ≡ ret s'
    → (i : ℕ) × (queues : List (ℕ × Workqueue)) × (get_elem? s.wqlist i ≡ some queues)
      × (s'.wqlist ≡ set s.wqlist i ((a, q) ∷ queues))
unfolding manager_workqueue_create
create_at s a q {s'} call = by_prio q.queueprio refl
  where
    by_prio :
        (p : ℤ)
        → q.queueprio ≡ p
        → (i : ℕ) × (queues : List (ℕ × Workqueue)) × (get_elem? s.wqlist i ≡ some queues)
          × (s'.wqlist ≡ set s.wqlist i ((a, q) ∷ queues))
    by_prio (pos i) e = elim (Option-cases (get_elem? s.wqlist i)) [
      | inl gone ↦ absurd (ground (arith, e, gone, call))
      | inr (queues, at) ↦ (i, queues, at, ground (arith, e, at, call))
    ]
    by_prio (negsuc n) e = absurd (ground (arith, e, call))

abbrev pub null_function : Work → ℕ
null_function w = if is_null w.func then 1 else 0

record RunInv (r : Run) : Type 0 where
  apart : (a : ℕ) → sum_all (is_at a) r.manager.wqlist ≤ 1
  matched : sum_all (items_of (λ w. 1)) r.manager.wqlist ≡ r.callbacks
  callable : sum_all (items_of null_function) r.manager.wqlist ≡ 0

start-RunInv : RunInv (record { manager = manager_init; callbacks = 0 })
unfolding manager_init sum_all sum_in
start-RunInv = record { apart = λ a. omega arith; matched = refl; callable = refl }

-- A queued call of worker_main finds an item and calls its function.
record Called (r : Run) (k : ℕ) : Type 0 where
  next : Legacy
  function : ℕ
  call : worker_main r.manager ≡ ret (next, some function)
  valid : RunInv (record { manager = next; callbacks = k })

call-Called : (r : Run) (k : ℕ) → RunInv r → r.callbacks ≡ suc k → Called r k
unfolding worker_main wqlist_scan
call-Called r k h e = elim (scan_lists-Scanned r.manager.wqlist) [
  | nothing none_there nil ↦ absurd (omega (arith, h.matched, e, nil (λ w. 1)))
  | took w y at fewer places ↦ elim (Option-cases w.func) [
    | inl null ↦ absurd (ground (arith, fewer null_function, null, h.callable))
    | inr (f, has) ↦ record {
      next = record { wqlist = y };
      function = f;
      call =
          let scanned : wqlist_scan r.manager ≡ (record { wqlist = y }, some w) =
            rw (wqlist_scan, at) refl in
          ground (arith, scanned, has);
      valid = record {
        apart = λ a. omega (arith, h.apart a, places a);
        matched = omega (arith, h.matched, e, fewer (λ v. 1));
        callable = omega (arith, h.callable, fewer null_function);
      };
    }
  ]
]

Step-RunInv : {r t : Run} → Step r t → RunInv r → RunInv t
unfolding weigh manager_workqueue_additem
Step-RunInv {r} (creates a q {s} absent bare call) h =
    let (i, queues, at, is) = create_at r.manager a q call in
    let grown : (f : ℕ × Workqueue → ℕ)
        → sum_all f s.wqlist ≡ f (a, q) + sum_all f r.manager.wqlist =
      λ f. rw is (sum_all-set f r.manager.wqlist i (a, q) queues at) in
    record {
      apart = λ b. elim (Bool-cases (b == a)) [
        | inl same ↦
            let e : b ≡ a = ground (arith, same) in
            subst (λ c. sum_all (is_at c) s.wqlist ≤ 1) (sym e)
              (ground (arith, grown (is_at a), absent))
        | inr other ↦ ground (arith, grown (is_at b), other, h.apart b)
      ];
      matched = ground (arith, grown (items_of (λ w. 1)), bare, h.matched);
      callable = ground (arith, grown (items_of null_function), bare, h.callable);
    }
Step-RunInv {r} (adds a w {s} there runs call) h =
    let same : s.wqlist ≡ insert_in a w r.manager.wqlist = ground (arith, call) in
    let (sizes, places) = sum_all-insert_in a w r.manager.wqlist in
    let one : sum_all (is_at a) r.manager.wqlist ≡ 1 = omega (arith, there, h.apart a) in
    record {
      apart = λ b. rw same (omega (arith, h.apart b, places b));
      matched = rw same (ground (arith, sizes (λ v. 1), one, h.matched));
      callable = rw same (ground (arith, sizes null_function, one, h.callable, runs));
    }
Step-RunInv {r} (calls_back {k} {s} e call) h =
    let c = call-Called r k h e in
    let same : ◌≡◌ {A = Legacy × Option ℕ} (c.next, some c.function) _ = same_result c.call call in
    subst (λ x. RunInv (record { manager = x; callbacks = k }))
      (ap (λ (x : Legacy × Option ℕ). x.0) same) c.valid

Reach-RunInv : {r : Run} → Reach r → RunInv r
Reach-RunInv start = start-RunInv
Reach-RunInv (later reach step) = Step-RunInv step (Reach-RunInv reach)

-- With no call of worker_main queued there is no item; otherwise there are as many as calls, and the
-- next call calls a function.
abbrev pub IsServed : ℕ → Legacy → Type 0
IsServed zero s = sum_all (items_of (λ w. 1)) s.wqlist ≡ 0
IsServed (suc k) s =
    (sum_all (items_of (λ w. 1)) s.wqlist ≡ suc k)
    × (s' : Legacy) × (f : ℕ) × (worker_main s ≡ ret (s', some f))

-- In every state of the manager for Windows XP that clients and calls of worker_main lead to, where
-- each workqueue is created once and items with a function are added to workqueues that were
-- created, there are as many items as queued calls of worker_main, and if there is such a call, it
-- finds an item and calls its function: no item is left behind and no call is in vain.
pub legacy_calls_matched : {r : Run} → Reach r → IsServed r.callbacks r.manager
legacy_calls_matched {r} reach = by_count r.callbacks refl
  where
    inv : RunInv r
    inv = Reach-RunInv reach

    by_count : (n : ℕ) → r.callbacks ≡ n → IsServed n r.manager
    by_count zero e = inv.matched ∙ e
    by_count (suc k) e =
        let c = call-Called r k inv e in (inv.matched ∙ e, c.next, c.function, c.call)

-- ===== src/Pool/Service.antt =====
-- The interface of a pool of threads: a system of steps that is seen as a pool.
use libpwq.Prelude.{ℕ, ◌+◌, ◌≡◌, refl, List, ◌++◌, arith}
use libpwq.Workqueue.{Work}
use libpwq.Manager.Weigh.{weigh, weigh-append}
use libpwq.Pool.{Pool, Act, rests, gains, takes, ends, Acts, begins, goes_on}
use libpwq.Pool.Bags.{bag_weight, bag_weight-put}

-- What an implementation gives: its states and steps, the states that its operations keep to, the
-- items that clients added, and how it is seen; and that each of its steps is an act of a pool.
pub record Service : Type 1 where
  pub State : Type 0
  pub initial : State
  pub Step : State → State → Type 0
  pub IsKept : State → Type 0
  pub added : State → List Work
  pub view : State → Pool
  pub initial-IsKept : IsKept initial
  pub step-IsKept : {s t : State} → IsKept s → Step s t → IsKept t
  pub initial_empty : Acts (added initial) (view initial)
  pub step_acts :
      {s t : State}
      → IsKept s
      → Step s t
      → (ws : List Work) × (added t ≡ ws ++ added s) × Act (view s) ws (view t)

-- In a pool no item is lost and none is taken twice.
Act-weight :
    (f : Work → ℕ) {p q : Pool} {ws : List Work}
    → Act p ws q
    → bag_weight f q.pending + bag_weight f q.taken + bag_weight f q.done
      ≡ bag_weight f p.pending + bag_weight f p.taken + bag_weight f p.done + weigh f ws
unfolding weigh
Act-weight f {p} {q} (rests e e' e'') = rw (e, e', e'') (omega arith)
Act-weight f {p} {q} (gains w e e' e'') =
    rw (e, e', e'', bag_weight-put f w p.pending) (omega arith)
Act-weight f {p} {q} (takes w e e' e'') =
    rw (e, e', e'', bag_weight-put f w q.pending, bag_weight-put f w p.taken) (omega arith)
Act-weight f {p} {q} (ends w e e' e'') =
    rw (e, e', e'', bag_weight-put f w q.taken, bag_weight-put f w p.done) (omega arith)

pub Acts-weight :
    (f : Work → ℕ) {p : Pool} {ws : List Work}
    → Acts ws p
    → bag_weight f p.pending + bag_weight f p.taken + bag_weight f p.done ≡ weigh f ws
unfolding weigh bag_weight
Acts-weight f (begins e e' e'') = rw (e, e', e'') refl
Acts-weight f (goes_on {ws = ws} {vs = vs} before act) =
    omega (arith, Act-weight f act, Acts-weight f before, weigh-append f vs ws)

module _ (c : Service) where
  open c use {
    State, initial, Step, IsKept, added, view, initial-IsKept, step-IsKept, initial_empty,
    step_acts,
  }

  -- The states that the steps lead to.
  pub data Run : State → Type 0 where
    nothing_yet : Run initial
    one_more : {s t : State} → Run s → Step s t → Run t

  Run-IsKept : {s : State} → Run s → IsKept s
  Run-IsKept nothing_yet = initial-IsKept
  Run-IsKept (one_more r st) = step-IsKept (Run-IsKept r) st

  -- Each step from a state that the steps lead to is one act of the pool, with the items that it adds.
  pub Run-Act :
      {s t : State}
      → Run s
      → Step s t
      → (ws : List Work) × (added t ≡ ws ++ added s) × Act (view s) ws (view t)
  Run-Act r st = step_acts (Run-IsKept r) st

  pub Run-Acts : {s : State} → Run s → Acts (added s) (view s)
  Run-Acts nothing_yet = initial_empty
  Run-Acts (one_more r st) =
      let (ws, e, act) = step_acts (Run-IsKept r) st in rw e (goes_on (Run-Acts r) act)

  -- So in an implementation no item is lost and none is taken twice.
  pub Run-weight :
      (f : Work → ℕ) {s : State}
      → Run s
      → bag_weight f (view s).pending + bag_weight f (view s).taken + bag_weight f (view s).done
        ≡ weigh f (added s)
  Run-weight f r = Acts-weight f (Run-Acts r)

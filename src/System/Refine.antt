-- ===== src/System/Refine.antt =====
-- The workers and the plain workqueues of src/posix/manager.c as a pool of threads.
pub mod Turns
use libpwq.Prelude.{
  ℕ, ◌+◌, ◌<◌, ◌≡◌, refl, ap, ◌∙◌, Bool, List, [], ◌∷◌, ◌++◌, arith, update, sum_over,
  sum_over-update, sum_over-zero,
}
use libpwq.Workqueue.{Work}
use libpwq.Manager.{Manager}
use libpwq.Manager.Weigh.{weigh}
use libpwq.Pool
use libpwq.Pool.{Pool, Act, Acts}
use libpwq.Pool.View.{seen, rest-Act, gain-Act, take-Act, end-Act}
use libpwq.Pool.Bags.{same_bag, weigh-listing}
use libpwq.Pool.Service.{Service, Run, nothing_yet, one_more, Run-Act}
use libpwq.System
use libpwq.System.{
  Pc, absent, created, Move, freed, is_free, System, Step, moves, starts, fails, stops_one, adds,
  checks, signals, adds_over, takes_over, tunes, creates, Reach, start, later,
}
use libpwq.System.Items.{load, load-congr, load-added, held}
use libpwq.System.Invariant.{SystemInv, sum_over-Signalled}
use libpwq.System.Outside.{
  stop-Put, enqueue-Put, enqueue_overcommit-Aside, take_overcommit-Aside, create-Grown,
}
use libpwq.Manager.Pool.{worker_start}
use libpwq.System.Preserved.{IsFresh, fresh_load, Step-SystemInv, Reach-SystemInv}
use libpwq.System.Refine.Turns.{
  in_hand, weigh-in_hand, weigh-waiting, workers, pool_of, rests, takes, ends, Move-Turn,
}

module _ (n : ℕ) where
  Move-Act :
      {s : System} (i : ℕ) {m' : Manager} {p' : Pc}
      → i < n
      → SystemInv n s
      → Move s.manager (is_free n s.pc) (s.pc i) m' p'
      → Act (pool_of n s) [] (seen (workers n) m' (update s.pc i p') (freed (s.pc i) p' ++ s.done))
  Move-Act {s} i {m'} {p'} lt h mv = elim (Move-Turn h.valid mv) [
    | rests loads holds over ↦
        rest-Act (workers n) s.manager m' loads (λ f. omega (arith, moved f, holds f))
          (ap (λ ws. ws ++ s.done) over)
    | takes w loads holds over ↦
        take-Act (workers n) s.manager m' w loads (λ f. omega (arith, moved f, holds f))
          (ap (λ ws. ws ++ s.done) over)
    | ends w loads holds over ↦
        end-Act (workers n) s.manager m' w loads (λ f. omega (arith, moved f, holds f))
          (ap (λ ws. ws ++ s.done) over)
  ]
    where
      moved :
          (f : Work → ℕ)
          → sum_over (held f) n (update s.pc i p') + held f (s.pc i)
            ≡ sum_over (held f) n s.pc + held f p'
      moved f = sum_over-update (held f) n s.pc i p' lt

  Step-Act :
      {stops : Bool} {s t : System}
      → SystemInv n s
      → Step n stops s t
      → (ws : List Work) × (t.added ≡ ws ++ s.added) × Act (pool_of n s) ws (pool_of n t)
  unfolding worker_start load
  Step-Act {s = s} {t = t} h (moves i lt mv) = ([], refl, Move-Act i lt h mv)
  Step-Act {s = s} {t = t} h (starts i lt gone) =
      let moved = λ (f : Work → ℕ). sum_over-update (held f) n s.pc i created lt in
      let here : (f : Work → ℕ) → held f (s.pc i) ≡ 0 = λ f. ap (held f) gone in
      (
        [],
        refl,
        rest-Act (workers n) s.manager t.manager (λ f. refl) (λ f. omega (arith, moved f, here f))
            refl,
      )
  Step-Act {s = s} {t = t} h fails =
      ([], refl, rest-Act (workers n) s.manager t.manager (λ f. refl) (λ f. refl) refl)
  Step-Act {s = s} {t = t} h (stops_one {m'} w allowed ask free call sig) =
      let (i, p) = stop-Put w h.valid call in
      (
        w ∷ [],
        refl,
        gain-Act (workers n) s.manager t.manager w
            (λ f. load-added f s.manager m' i w p.index_lt p.items)
            (λ f. sum_over-Signalled (held f) n refl sig) refl,
      )
  Step-Act {s = s} {t = t} h (adds a q w {m'} at plain runs call) =
      let p = enqueue-Put a q w h.valid at plain call in
      (
        w ∷ [],
        refl,
        gain-Act (workers n) s.manager t.manager w
            (λ f. load-added f s.manager m' q.wqlist_index w p.index_lt p.items) (λ f. refl) refl,
      )
  Step-Act {s = s} {t = t} h (checks e) =
      ([], refl, rest-Act (workers n) s.manager t.manager (λ f. refl) (λ f. refl) refl)
  Step-Act {s = s} {t = t} h (signals e free sig) = (
    [],
    refl,
    rest-Act (workers n) s.manager t.manager (λ f. refl)
        (λ f. sum_over-Signalled (held f) n refl sig) refl,
  )
  Step-Act {s = s} {t = t} h (adds_over a q w at oc) = (
    [],
    refl,
    rest-Act (workers n) s.manager t.manager
        (λ f. load-congr f (enqueue_overcommit-Aside a q w h.valid at oc).queues) (λ f. refl) refl,
  )
  Step-Act {s = s} {t = t} h (takes_over item call) = (
    [],
    refl,
    rest-Act (workers n) s.manager t.manager
        (λ f. load-congr f (take_overcommit-Aside item h.valid call).queues) (λ f. refl) refl,
  )
  Step-Act {s = s} {t = t} h (tunes runqueue about sem suspend) =
      ([], refl, rest-Act (workers n) s.manager t.manager (λ f. refl) (λ f. refl) refl)
  Step-Act {s = s} {t = t} h (creates attr spawns accepted can free call) = (
    [],
    refl,
    rest-Act (workers n) s.manager t.manager
        (λ f. load-congr f (create-Grown attr spawns h.valid accepted can call).queues) (λ f. refl)
        refl,
  )

-- The start of Reach.
abbrev at_rest : Manager → System
at_rest m = record {
  manager = m;
  pc = λ i. absent;
  checking = 0;
  signalling = 0;
  failed = 0;
  added = [];
  done = [];
}

at_rest_empty : (n : ℕ) (m : Manager) → IsFresh n m → Acts [] (pool_of n (at_rest m))
unfolding weigh
at_rest_empty n m fresh =
    Pool.begins (same_bag (λ f. weigh-waiting f m ∙ fresh_load f n m fresh))
      (same_bag (λ f.
        weigh-listing f in_hand (held f) (weigh-in_hand f) n (λ i. absent)
        ∙ sum_over-zero (held f) n (λ i. absent) (λ i lt. refl)))
      refl

module _ {n : ℕ} {m0 : Manager} (stops : Bool) (fresh : IsFresh n m0) where
  -- What the workers and the plain queues give to the interface of a pool.
  abbrev worker_pool : Service
  worker_pool = record {
    State = System;
    initial = at_rest m0;
    Step = Step n stops;
    IsKept = SystemInv n;
    added = λ s. s.added;
    view = pool_of n;
    initial-IsKept = Reach-SystemInv {stops = stops} fresh start;
    step-IsKept = λ h st. Step-SystemInv st h;
    initial_empty = at_rest_empty n m0 fresh;
    step_acts = λ h st. Step-Act n h st;
  }

  Reach-Run : {s : System} → Reach n stops m0 s → Run worker_pool s
  Reach-Run start = nothing_yet
  Reach-Run (later r st) = one_more (Reach-Run r) st

  -- The workers, clients and the manager thread, in any order, are a pool of threads: each step from a
  -- state that they reach from a manager with no workers and no items is exactly one act of the pool
  -- that these states are seen as, without the order of the items and without queues, masks, counters,
  -- locks and signals. The step leaves all items where they are, or one item comes from a client or
  -- the manager thread, or one item that waited is with a worker, or one that a worker had is done
  -- with; the items that were added grow by those of the act.
  pub worker_pool_refines :
      {s t : System}
      → Reach n stops m0 s
      → Step n stops s t
      → (ws : List Work) × (t.added ≡ ws ++ s.added) × Act (pool_of n s) ws (pool_of n t)
  worker_pool_refines r st = Run-Act worker_pool (Reach-Run r) st

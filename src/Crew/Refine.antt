-- ===== src/Crew/Refine.antt =====
-- The overcommit threads and queues of src/posix/manager.c as a pool of threads.
use libpwq.Prelude.{
  ℕ, ◌+◌, ◌<◌, ◌≡◌, refl, ◌∙◌, List, [], ◌∷◌, ◌++◌, arith, update, sum_over, sum_over-update,
  sum_over-zero, ret,
}
use libpwq.Workqueue.{Work, workqueue_max}
use libpwq.Manager.{Manager}
use libpwq.Manager.Invariant.{overcommit_items}
use libpwq.Manager.Weigh.{weigh, total, total-zero}
use libpwq.Pool
use libpwq.Pool.{Pool, Act, Acts}
use libpwq.Pool.View.{View, seen, rest-Act, gain-Act, take-Act, end-Act}
use libpwq.Pool.Bags.{same_bag, listing, weigh-listing}
use libpwq.Pool.Service.{Service, Run, nothing_yet, one_more, Run-Act}
use libpwq.Manager.Overcommit.{Wait}
use libpwq.Crew.{
  wake_up, Place, absent, looking, busy, roused, Crew, Step, looks, wakes, wakes_alone, returns,
  adds, adds_unheard, adds_silently, adds_thread, adds_alone, creates, adds_plain, takes_plain,
  Reach, start, later,
}
use libpwq.Crew.Weights.{held, over, look-Looked, signalled, leaves, wake_up-Woken}
use libpwq.Crew.Adding.{
  enqueue_overcommit-Added, over-Apart, enqueue-Apart, scan-Apart, create-Apart,
}
use libpwq.Crew.Invariant.{CrewInv}
use libpwq.Crew.Turns.{Step-CrewInv}
use libpwq.Crew.Safety.{IsFresh, Reach-CrewInv}

-- The item that a thread has.
abbrev pub in_hand : Place → List Work
in_hand (busy w) = w ∷ []
in_hand _ = []

pub weigh-in_hand : (f : Work → ℕ) (p : Place) → weigh f (in_hand p) ≡ held f p
unfolding weigh
weigh-in_hand f p = ground arith

pub weigh-waiting :
    (f : Work → ℕ) (m : Manager)
    → weigh f (listing (λ xs. xs) workqueue_max (overcommit_items m)) ≡ over f m
unfolding total
weigh-waiting f m =
    weigh-listing f (λ xs. xs) (weigh f) (λ xs. refl) workqueue_max (overcommit_items m)

-- The overcommit queues and `n` threads as the queues and the threads of a pool.
abbrev pub threads : ℕ → View Manager (ℕ → Place)
threads n = record {
  queued = λ m. listing (λ xs. xs) workqueue_max (overcommit_items m);
  in_hand = λ place. listing in_hand n place;
  load = over;
  hold = λ f place. sum_over (held f) n place;
  weigh-queued = weigh-waiting;
  weigh-in_hand = λ f place. weigh-listing f in_hand (held f) (weigh-in_hand f) n place;
}

abbrev pub pool_of : ℕ → Crew → Pool
pool_of n c = seen (threads n) c.manager c.place c.done

module _ (n : ℕ) where
  -- A thread that had no item looks for one.
  look-Act :
      (c : Crew) (i : ℕ) (p' : Place) (m' : Manager)
      → i < n
      → ((f : Work → ℕ) → held f (c.place i) ≡ 0)
      → ((f : Work → ℕ) → over f m' + held f p' ≡ over f c.manager)
      → Act (pool_of n c) [] (pool_of n (record c { manager = m'; place = update c.place i p' }))
  look-Act c i (busy w) m' lt none_held moved =
      take-Act (threads n) c.manager m' w moved
        (λ f. omega (arith, sum_over-update (held f) n c.place i (busy w) lt, none_held f)) refl
  look-Act c i p' m' lt none_held moved =
      rest-Act (threads n) c.manager m' (λ f. omega (arith, moved f))
        (λ f. omega (arith, sum_over-update (held f) n c.place i p' lt, none_held f)) refl

  -- A thread that comes back from pthread_cond_timedwait.
  wake-Act :
      (c : Crew) (i : ℕ) (r : Wait) {m' : Manager} {p' : Place}
      → CrewInv n c
      → i < n
      → ((f : Work → ℕ) → held f (c.place i) ≡ 0)
      → wake_up c.manager r ≡ ret (m', p')
      → Act (pool_of n c) [] (pool_of n (record c { manager = m'; place = update c.place i p' }))
  wake-Act c i r {m'} {p'} h lt none_held call = elim (wake_up-Woken r h.valid call) [
    | signalled some_signal l ↦ look-Act c i p' m' lt none_held l.moved
    | leaves none_there is gone ↦ look-Act c i p' m' lt none_held (λ f. rw (is, gone) (omega arith))
  ]

  Step-Act :
      {c d : Crew}
      → CrewInv n c
      → Step n c d
      → (ws : List Work) × (d.added ≡ ws ++ c.added) × Act (pool_of n c) ws (pool_of n d)
  Step-Act {c} {d} h (looks i {m'} {p'} lt at call) =
      ([], refl, look-Act c i p' m' lt (λ f. rw at refl) (look-Looked h.valid call).moved)
  Step-Act {c} {d} h (wakes i r lt at call) = ([], refl, wake-Act c i r h lt (λ f. rw at refl) call)
  Step-Act {c} {d} h (wakes_alone i r lt at call) =
      ([], refl, wake-Act c i r h lt (λ f. rw at refl) call)
  Step-Act {c} {d} h (returns i w lt at) =
      let had : (f : Work → ℕ) → held f (c.place i) ≡ f w = λ f. rw at refl in
      (
        [],
        refl,
        end-Act (threads n) c.manager c.manager w (λ f. refl)
            (λ f. omega (arith, sum_over-update (held f) n c.place i looking lt, had f)) refl,
      )
  Step-Act {c} {d} h (adds a i q w at oc signal lt waits) =
      let none_held : (f : Work → ℕ) → held f (c.place i) ≡ 0 = λ f. rw waits refl in
      (
        w ∷ [],
        refl,
        gain-Act (threads n) c.manager d.manager w
            (enqueue_overcommit-Added a q w h.valid at oc).moved
            (λ f. omega (arith, sum_over-update (held f) n c.place i roused lt, none_held f)) refl,
      )
  Step-Act {c} {d} h (adds_unheard a q w at oc signal nobody) = (
    w ∷ [],
    refl,
    gain-Act (threads n) c.manager d.manager w (enqueue_overcommit-Added a q w h.valid at oc).moved
        (λ f. refl) refl,
  )
  Step-Act {c} {d} h (adds_silently a q w at oc silent) = (
    w ∷ [],
    refl,
    gain-Act (threads n) c.manager d.manager w (enqueue_overcommit-Added a q w h.valid at oc).moved
        (λ f. refl) refl,
  )
  Step-Act {c} {d} h (adds_thread a i q w at oc thread lt gone) =
      let none_held : (f : Work → ℕ) → held f (c.place i) ≡ 0 = λ f. rw gone refl in
      (
        w ∷ [],
        refl,
        gain-Act (threads n) c.manager d.manager w
            (enqueue_overcommit-Added a q w h.valid at oc).moved
            (λ f. omega (arith, sum_over-update (held f) n c.place i looking lt, none_held f)) refl,
      )
  Step-Act {c} {d} h (adds_alone a q w at oc thread) = (
    w ∷ [],
    refl,
    gain-Act (threads n) c.manager d.manager w (enqueue_overcommit-Added a q w h.valid at oc).moved
        (λ f. refl) refl,
  )
  Step-Act {c} {d} h (creates attr spawns accepted can call) = (
    [],
    refl,
    rest-Act (threads n) c.manager d.manager
        (λ f. over-Apart f (create-Apart attr spawns h.valid accepted can call)) (λ f. refl) refl,
  )
  Step-Act {c} {d} h (adds_plain a q w at plain call) = (
    [],
    refl,
    rest-Act (threads n) c.manager d.manager
        (λ f. over-Apart f (enqueue-Apart a q w h.valid at plain call)) (λ f. refl) refl,
  )
  Step-Act {c} {d} h (takes_plain i a skip x own call) = (
    [],
    refl,
    rest-Act (threads n) c.manager d.manager
        (λ f. over-Apart f (scan-Apart i a skip x h.valid own call)) (λ f. refl) refl,
  )

-- The start of Reach.
abbrev at_rest : Manager → Crew
at_rest m = record { manager = m; place = λ i. absent; failed = 0; added = []; done = [] }

at_rest_empty : (n : ℕ) (m : Manager) → IsFresh n m → Acts [] (pool_of n (at_rest m))
unfolding weigh
at_rest_empty n m fresh =
    Pool.begins
      (same_bag
        (λ f. weigh-waiting f m ∙ total-zero f (overcommit_items m) (λ j lt. fresh.no_items j)))
      (same_bag (λ f.
        weigh-listing f in_hand (held f) (weigh-in_hand f) n (λ i. absent)
        ∙ sum_over-zero (held f) n (λ i. absent) (λ i lt. refl)))
      refl

module _ {n : ℕ} {m0 : Manager} (fresh : IsFresh n m0) where
  -- What the overcommit threads and queues give to the interface of a pool.
  abbrev overcommit_pool : Service
  overcommit_pool = record {
    State = Crew;
    initial = at_rest m0;
    Step = Step n;
    IsKept = CrewInv n;
    added = λ c. c.added;
    view = pool_of n;
    initial-IsKept = Reach-CrewInv fresh start;
    step-IsKept = λ h st. Step-CrewInv st h;
    initial_empty = at_rest_empty n m0 fresh;
    step_acts = λ h st. Step-Act n h st;
  }

  Reach-Run : {c : Crew} → Reach n m0 c → Run overcommit_pool c
  Reach-Run start = nothing_yet
  Reach-Run (later r st) = one_more (Reach-Run r) st

  -- The overcommit threads and the clients, fewer than 2 ^ 32 threads and in any order, are a pool of
  -- threads: each step from a state that they reach, from a well-formed manager with no overcommit
  -- threads and no items in overcommit queues, is exactly one act of the pool that these states are
  -- seen as, without the order of the items and without queues, counters and signals. The step leaves
  -- all items where they are, or one item comes from a client, or one item that waited is with a thread,
  -- or one that a thread had is done with; the items that were added grow by those of the act.
  pub overcommit_pool_refines :
      {c d : Crew}
      → Reach n m0 c
      → Step n c d
      → (ws : List Work) × (d.added ≡ ws ++ c.added) × Act (pool_of n c) ws (pool_of n d)
  overcommit_pool_refines r st = Run-Act overcommit_pool (Reach-Run r) st

-- ===== src/System/Refine/Turns.antt =====
-- What the steps of the workers of src/posix/manager.c do to the items, as a pool of threads has them.
use libpwq.Prelude.{ℕ, ◌+◌, ◌≡◌, refl, Bool, List, [], ◌∷◌, arith, sum_over}
use libpwq.Workqueue.{Work, workqueue_max}
use libpwq.Manager.{Manager}
use libpwq.Manager.Invariant.{Inv, pending_items}
use libpwq.Manager.Weigh.{weigh, total}
use libpwq.Pool.{Pool}
use libpwq.Pool.View.{View, seen}
use libpwq.Pool.Bags.{listing, weigh-listing}
use libpwq.System
use libpwq.System.{
  Pc, absent, created, got, ready, running, Move, freed, is_free, System, Step, moves, starts,
  fails, stops_one, adds, checks, signals, adds_over, takes_over, tunes, creates, Reach, start,
  later,
}
use libpwq.System.Items.{load, held, Move-kept}

-- The item that a worker has.
abbrev pub in_hand : Pc → List Work
in_hand (got c w) = w ∷ []
in_hand (ready w) = w ∷ []
in_hand (running w) = w ∷ []
in_hand _ = []

pub weigh-in_hand : (f : Work → ℕ) (p : Pc) → weigh f (in_hand p) ≡ held f p
unfolding weigh
weigh-in_hand f p = ground arith

pub weigh-waiting :
    (f : Work → ℕ) (m : Manager)
    → weigh f (listing (λ xs. xs) workqueue_max (pending_items m)) ≡ load f m
unfolding load total
weigh-waiting f m =
    weigh-listing f (λ xs. xs) (weigh f) (λ xs. refl) workqueue_max (pending_items m)

-- The plain queues and `n` workers as the queues and the threads of a pool.
abbrev pub workers : ℕ → View Manager (ℕ → Pc)
workers n = record {
  queued = λ m. listing (λ xs. xs) workqueue_max (pending_items m);
  in_hand = λ pc. listing in_hand n pc;
  load = load;
  hold = λ f pc. sum_over (held f) n pc;
  weigh-queued = weigh-waiting;
  weigh-in_hand = λ f pc. weigh-listing f in_hand (held f) (weigh-in_hand f) n pc;
}

abbrev pub pool_of : ℕ → System → Pool
pool_of n s = seen (workers n) s.manager s.pc s.done

-- A worker takes an item, ends with one, or does neither.
pub data Turn (m m' : Manager) (p p' : Pc) : Type 0 where
  rests :
      ((f : Work → ℕ) → load f m' ≡ load f m)
      → ((f : Work → ℕ) → held f p' ≡ held f p)
      → freed p p' ≡ []
      → Turn m m' p p'
  takes :
      (w : Work)
      → ((f : Work → ℕ) → load f m' + f w ≡ load f m)
      → ((f : Work → ℕ) → held f p' ≡ held f p + f w)
      → freed p p' ≡ []
      → Turn m m' p p'
  ends :
      (w : Work)
      → ((f : Work → ℕ) → load f m' ≡ load f m)
      → ((f : Work → ℕ) → held f p' + f w ≡ held f p)
      → freed p p' ≡ w ∷ []
      → Turn m m' p p'

pub Move-Turn :
    {m m' : Manager} {free : Bool} {p p' : Pc} → Inv m → Move m free p m' p' → Turn m m' p p'
unfolding weigh
Move-Turn v mv = by_case mv (λ f. Move-kept f v mv)
  where
    by_case :
        {m m' : Manager} {free : Bool} {p p' : Pc}
        → Move m free p m' p'
        → ((f : Work → ℕ) → load f m' + held f p' + weigh f (freed p p') ≡ load f m + held f p)
        → Turn m m' p p'
    by_case (System.takes {w = w} call) kept =
        takes w (λ f. omega (arith, kept f)) (λ f. omega arith) refl
    by_case (System.returns {w = w}) kept =
        ends w (λ f. omega (arith, kept f)) (λ f. omega arith) refl
    by_case (System.exits {w = w} e) kept =
        ends w (λ f. omega (arith, kept f)) (λ f. omega arith) refl
    by_case mv kept = rests (λ f. omega (arith, kept f)) (λ f. refl) refl

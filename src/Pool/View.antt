-- ===== src/Pool/View.antt =====
-- How a state of queues and threads is seen as a pool, and the acts that its changes are.
use libpwq.Prelude.{ℕ, ◌+◌, ◌≡◌, ap, List, [], ◌∷◌, arith}
use libpwq.Workqueue.{Work}
use libpwq.Manager.Weigh.{weigh}
use libpwq.Pool.{Pool, Act, rests, gains, takes, ends}
use libpwq.Pool.Bags.{bag_of, put, same_bag}

-- The items in the queues `M` and with the threads `P`, and what they weigh.
pub record View (M P : Type 0) : Type 0 where
  pub queued : M → List Work
  pub in_hand : P → List Work
  pub load : (Work → ℕ) → M → ℕ
  pub hold : (Work → ℕ) → P → ℕ
  pub weigh-queued : (f : Work → ℕ) (m : M) → weigh f (queued m) ≡ load f m
  pub weigh-in_hand : (f : Work → ℕ) (p : P) → weigh f (in_hand p) ≡ hold f p

module _ {M P : Type 0} (v : View M P) where
  abbrev pub seen : M → P → List Work → Pool
  seen m p done = record {
    pending = bag_of (v.queued m);
    taken = bag_of (v.in_hand p);
    done = bag_of done;
  }

  module _ (m m' : M) {p p' : P} {done done' : List Work} where
    pub rest-Act :
        ((f : Work → ℕ) → v.load f m' ≡ v.load f m)
        → ((f : Work → ℕ) → v.hold f p' ≡ v.hold f p)
        → done' ≡ done
        → Act (seen m p done) [] (seen m' p' done')
    rest-Act loads holds over =
        rests (same_bag (λ f. omega (arith, v.weigh-queued f m, v.weigh-queued f m', loads f)))
          (same_bag (λ f. omega (arith, v.weigh-in_hand f p, v.weigh-in_hand f p', holds f)))
          (ap bag_of over)

    pub gain-Act :
        (w : Work)
        → ((f : Work → ℕ) → v.load f m' ≡ v.load f m + f w)
        → ((f : Work → ℕ) → v.hold f p' ≡ v.hold f p)
        → done' ≡ done
        → Act (seen m p done) (w ∷ []) (seen m' p' done')
    unfolding put weigh
    gain-Act w loads holds over =
        gains w (same_bag (λ f. omega (arith, v.weigh-queued f m, v.weigh-queued f m', loads f)))
          (same_bag (λ f. omega (arith, v.weigh-in_hand f p, v.weigh-in_hand f p', holds f)))
          (ap bag_of over)

    pub take-Act :
        (w : Work)
        → ((f : Work → ℕ) → v.load f m' + f w ≡ v.load f m)
        → ((f : Work → ℕ) → v.hold f p' ≡ v.hold f p + f w)
        → done' ≡ done
        → Act (seen m p done) [] (seen m' p' done')
    unfolding put weigh
    take-Act w loads holds over =
        takes w (same_bag (λ f. omega (arith, v.weigh-queued f m, v.weigh-queued f m', loads f)))
          (same_bag (λ f. omega (arith, v.weigh-in_hand f p, v.weigh-in_hand f p', holds f)))
          (ap bag_of over)

    pub end-Act :
        (w : Work)
        → ((f : Work → ℕ) → v.load f m' ≡ v.load f m)
        → ((f : Work → ℕ) → v.hold f p' + f w ≡ v.hold f p)
        → done' ≡ w ∷ done
        → Act (seen m p done) [] (seen m' p' done')
    unfolding put weigh
    end-Act w loads holds over =
        ends w (same_bag (λ f. omega (arith, v.weigh-queued f m, v.weigh-queued f m', loads f)))
          (same_bag (λ f. omega (arith, v.weigh-in_hand f p, v.weigh-in_hand f p', holds f)))
          (ap bag_of over)

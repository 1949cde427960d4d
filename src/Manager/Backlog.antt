-- ===== src/Manager/Backlog.antt =====
-- The queues with no overcommit seen as one list: the items in the order in which they are taken.
pub mod Refine
use native.Mathlib.Decide.{ℕ_discrete}
use mathlib.Core.List.{append_assoc, append-nil}
use libpwq.Prelude.{
  ℕ, zero, suc, ◌+◌, ◌<◌, ◌≤◌, ◌≡◌, refl, ◌∙◌, List, [], ◌∷◌, ◌++◌, ◌==◌, ◌&&◌, if◌then◌else◌,
  arith,
}
use libpwq.Workqueue.{Work, workqueue_max}
use libpwq.Manager.{Manager}
use libpwq.Manager.Invariant.{pending_items}

-- The items of the `n` queues from index `i` on, queue after queue.
unfoldable pub gather : ℕ → ℕ → (ℕ → List Work) → List Work
gather zero i items = []
gather (suc n) i items = items i ++ gather n (i + 1) items

abbrev pub backlog : Manager → List Work
backlog m = gather workqueue_max 0 (pending_items m)

gather-congr :
    (n i : ℕ) (f g : ℕ → List Work) → ((j : ℕ) → i ≤ j → f j ≡ g j) → gather n i f ≡ gather n i g
unfolding gather
gather-congr zero i f g h = refl
gather-congr (suc n) i f g h =
    rw (h i (omega arith), gather-congr n (i + 1) f g (λ j le. h j (omega arith)))

-- If the first item is `w`, in queue `k`, then it heads the list, and the list without it is that
-- of the queues without it.
pub gather-take :
    (n i k : ℕ) (f g : ℕ → List Work) (w : Work) (rest : List Work)
    → i ≤ k
    → k < i + n
    → ((j : ℕ) → j < k → f j ≡ [])
    → f k ≡ w ∷ rest
    → ((j : ℕ) → g j ≡ (if k == j then rest else f j))
    → gather n i f ≡ w ∷ gather n i g
unfolding gather
gather-take zero i k f g w rest le lt before at after = absurd (omega arith)
gather-take (suc n) i k f g w rest le lt before at after = elim (ℕ_discrete i k) [
  | yes e ↦
      let tails : gather n (i + 1) g ≡ gather n (i + 1) f =
        gather-congr n (i + 1) g f (λ j le_j. ground (arith, after j)) in
      rw tails (ground (arith, after i, at))
  | no ne ↦ ground (
    arith,
    before i,
    after i,
    gather-take n (i + 1) k f g w rest (omega arith) (omega arith) before at after,
  )
]

-- An item that is added at the end of queue `k` comes behind the items of the queues up to `k` and
-- before those of the later ones.
pub gather-insert :
    (a n b i k : ℕ) (f g : ℕ → List Work) (w : Work)
    → i + a ≡ k
    → n ≡ a + suc b
    → ((j : ℕ) → g j ≡ (if k == j then f j ++ w ∷ [] else f j))
    → gather n i g ≡ gather (suc a) i f ++ w ∷ gather b (k + 1) f
unfolding gather
gather-insert a zero b i k f g w e size after = absurd (omega arith)
gather-insert zero (suc n) b i k f g w e size after =
    let same : n ≡ b = omega arith in
    let place : i ≡ k = omega arith in
    let tails : gather n (i + 1) g ≡ gather n (i + 1) f =
      gather-congr n (i + 1) g f (λ j le_j. ground (arith, after j)) in
    let own : g i ≡ f i ++ w ∷ [] = ground (arith, after i, place) in
    rw (tails, same, ← place) (simp (own, append_assoc, append-nil))
gather-insert (suc a) (suc n) b i k f g w e size after =
    let own : g i ≡ f i = ground (arith, after i) in
    let rest = gather-insert a n b (i + 1) k f g w (omega arith) (omega arith) after in
    simp (own, rest, append_assoc)

pub gather-nil :
    (n i : ℕ) (f : ℕ → List Work) → ((j : ℕ) → j < i + n → f j ≡ []) → gather n i f ≡ []
unfolding gather
gather-nil zero i f h = refl
gather-nil (suc n) i f h =
    rw (h i (omega arith)) (gather-nil n (i + 1) f (λ j lt. h j (omega arith)))

-- ===== src/Windows/Legacy/Scans/Rest.antt =====
-- What lies before a scan of src/windows/manager.c: the items in the workqueues that it has not passed.
use libpwq.Prelude.{
  ℕ, zero, suc, ◌+◌, ◌-◌, ◌<◌, ◌≤◌, ◌≡◌, refl, ap, List, [], ◌∷◌, length, arith, inl, inr,
}
use libpwq.Workqueue.{Work, Workqueue}
use libpwq.Manager.Scan.Priority.{List-cases}
use libpwq.Manager.Additem.{insert_tail}
use libpwq.Manager.Weigh.{weigh, weigh-append}
use libpwq.Windows.Legacy.{insert_at, insert_in}
use libpwq.Windows.Legacy.Sums.{sum_in, sum_all, items_of, is_at}
use libpwq.Windows.Legacy.Scans.{Look, empty_here, found, at_end, look_list, look_lists}

-- The items behind the first `m` workqueues weigh this.
unfoldable pub rest_in : (Work → ℕ) → ℕ → List (ℕ × Workqueue) → ℕ
rest_in g m [] = 0
rest_in g zero (e ∷ rest) = items_of g e + rest_in g zero rest
rest_in g (suc m) (e ∷ rest) = rest_in g m rest

unfoldable pub rest_all : (Work → ℕ) → ℕ → List (List (ℕ × Workqueue)) → ℕ
unfolding rest_in
rest_all g m [] = 0
rest_all g m (queues ∷ rest) = rest_in g m queues + rest_all g (m - length queues) rest

rest_in-zero :
    (g : Work → ℕ) (queues : List (ℕ × Workqueue)) → rest_in g 0 queues ≡ sum_in (items_of g) queues
unfolding rest_in sum_in
rest_in-zero g [] = refl
rest_in-zero g (e ∷ rest) = omega (arith, rest_in-zero g rest)

pub rest_all-zero :
    (g : Work → ℕ) (lists : List (List (ℕ × Workqueue)))
    → rest_all g 0 lists ≡ sum_all (items_of g) lists
unfolding rest_all sum_all
rest_all-zero g [] = refl
rest_all-zero g (queues ∷ rest) = ground (arith, rest_in-zero g queues, rest_all-zero g rest)

rest_in-past :
    (g : Work → ℕ) (m : ℕ) (queues : List (ℕ × Workqueue))
    → length queues ≤ m
    → rest_in g m queues ≡ 0
unfolding rest_in
rest_in-past g m [] h = refl
rest_in-past g zero (e ∷ rest) h = absurd (omega arith)
rest_in-past g (suc m) (e ∷ rest) h = rest_in-past g m rest (omega arith)

-- What a look at the workqueue behind `m` others finds.
pub data Looked {A : Type 0} (rest : (Work → ℕ) → ℕ → A → ℕ) (sum : (ℕ × Workqueue → ℕ) → A → ℕ)
    (size : A → ℕ) (m : ℕ) (x : A) (r : Look A) : Type 0 where
  sees_none :
      r ≡ empty_here
      → m < size x
      → ((g : Work → ℕ) → rest g (suc m) x ≡ rest g m x)
      → Looked rest sum size m x r
  sees :
      (w : Work) (y : A)
      → r ≡ found w y
      → m < size x
      → size y ≡ size x
      → ((g : Work → ℕ) (k : ℕ) → k ≤ m → rest g k x ≡ g w + rest g k y)
      → ((g : Work → ℕ) (k : ℕ) → m < k → rest g k x ≡ rest g k y)
      → ((b : ℕ) → sum (is_at b) y ≡ sum (is_at b) x)
      → Looked rest sum size m x r
  sees_end : (k : ℕ) → r ≡ at_end k → m ≡ size x + k → Looked rest sum size m x r

-- A further workqueue in front.
module _ (g : Work → ℕ) (v m : ℕ) (e : ℕ × Workqueue) (x y : List (ℕ × Workqueue)) where
  before_cons :
      ((k : ℕ) → k ≤ m → rest_in g k x ≡ v + rest_in g k y)
      → (k : ℕ) → k ≤ suc m
      → rest_in g k (e ∷ x) ≡ v + rest_in g k (e ∷ y)
  unfolding rest_in
  before_cons h zero le = omega (arith, h 0 (omega arith))
  before_cons h (suc k) le = h k (omega arith)

  after_cons :
      ((k : ℕ) → m < k → rest_in g k x ≡ rest_in g k y)
      → (k : ℕ) → suc m < k
      → rest_in g k (e ∷ x) ≡ rest_in g k (e ∷ y)
  unfolding rest_in
  after_cons h zero lt = absurd (omega arith)
  after_cons h (suc k) lt = h k (omega arith)

pub look_list-Looked :
    (m : ℕ) (queues : List (ℕ × Workqueue))
    → Looked rest_in sum_in length m queues (look_list m queues)
unfolding look_list rest_in sum_in weigh
look_list-Looked m [] = sees_end m refl (omega arith)
look_list-Looked zero ((a, q) ∷ rest) = elim (List-cases q.item_listhead) [
  | inl none_here ↦
      sees_none (rw none_here refl) (omega arith)
        (λ g. ground (arith, none_here, rest_in-zero g rest))
  | inr (w, items, holds) ↦
      sees w ((a, record q { item_listhead = items }) ∷ rest) (rw holds refl) (omega arith) refl
        (λ g k h. ground (arith, holds)) (λ g k h. ground arith) (λ b. refl)
]
look_list-Looked (suc m) (e ∷ rest) = elim (look_list-Looked m rest) [
  | sees_none here lt same ↦ sees_none (rw here refl) (omega arith) same
  | sees w y here lt size before after places ↦
      sees w (e ∷ y) (rw here refl) (omega arith) (omega arith)
        (λ g. before_cons g (g w) m e rest y (before g))
        (λ g. after_cons g (g w) m e rest y (after g)) (λ b. omega (arith, places b))
  | sees_end k here size ↦ sees_end k (rw here refl) (omega arith)
]

-- The workqueues of all priorities.
unfoldable pub size : List (List (ℕ × Workqueue)) → ℕ
size [] = 0
size (queues ∷ rest) = length queues + size rest

pub look_lists-Looked :
    (m : ℕ) (lists : List (List (ℕ × Workqueue)))
    → Looked rest_all sum_all size m lists (look_lists m lists)
unfolding look_lists rest_all sum_all size
look_lists-Looked m [] = sees_end m refl (omega arith)
look_lists-Looked m (queues ∷ rest) = elim (look_list-Looked m queues) [
  | sees_none here lt same ↦
      let next : suc m - length queues ≡ m - length queues = omega arith in
      sees_none (ground (arith, here)) (omega arith) (λ g. rw (same g, next) refl)
  | sees w y here lt long before after places ↦
      sees w (y ∷ rest) (ground (arith, here)) (omega arith) (omega arith)
        (λ g k h. rw (before g k h, long) (omega arith)) (λ g k h. rw (after g k h, long) refl)
        (λ b. omega (arith, places b))
  | sees_end j here long ↦
      let at : m - length queues ≡ j = omega arith in
      let gone : (g : Work → ℕ) (k : ℕ) → m ≤ k → rest_in g k queues ≡ 0 =
        λ g k h. rest_in-past g k queues (omega arith) in
      elim (look_lists-Looked j rest) [
        | sees_none here' lt same ↦
            let next : suc m - length queues ≡ suc j = omega arith in
            sees_none (ground (arith, here, here')) (omega arith) (λ g.
              rw (gone g (suc m) (omega arith), gone g m (omega arith), next, at)
                (ap (λ v. 0 + v) (same g)))
        | sees w y here' lt long' before after places ↦
            sees w (queues ∷ y) (ground (arith, here, here')) (omega arith) (omega arith)
              (λ g k h. omega (arith, before g (k - length queues) (omega arith)))
              (λ g k h. omega (arith, after g (k - length queues) (omega arith)))
              (λ b. omega (arith, places b))
        | sees_end k here' long' ↦ sees_end k (ground (arith, here, here')) (omega arith)
      ]
]

-- Behind all workqueues there is nothing.
pub rest_all-past :
    (g : Work → ℕ) (m : ℕ) (lists : List (List (ℕ × Workqueue)))
    → size lists ≤ m
    → rest_all g m lists ≡ 0
unfolding rest_all size
rest_all-past g m [] h = refl
rest_all-past g m (queues ∷ rest) h = omega (
  arith,
  rest_in-past g m queues (omega arith),
  rest_all-past g (m - length queues) rest (omega arith),
)

-- An item that is added never leaves less before a scan.
insert_at-length :
    (a : ℕ) (w : Work) (queues : List (ℕ × Workqueue))
    → length (insert_at a w queues) ≡ length queues
unfolding insert_at
insert_at-length a w [] = refl
insert_at-length a w ((b, q) ∷ rest) = ground (arith, insert_at-length a w rest)

rest_in-insert_at :
    (g : Work → ℕ) (a : ℕ) (w : Work) (m : ℕ) (queues : List (ℕ × Workqueue))
    → rest_in g m queues ≤ rest_in g m (insert_at a w queues)
unfolding rest_in insert_at insert_tail weigh
rest_in-insert_at g a w m [] = omega arith
rest_in-insert_at g a w zero ((b, q) ∷ rest) =
    ground (arith, rest_in-insert_at g a w 0 rest, weigh-append g q.item_listhead (w ∷ []))
rest_in-insert_at g a w (suc m) ((b, q) ∷ rest) = ground (arith, rest_in-insert_at g a w m rest)

pub rest_all-insert_in :
    (g : Work → ℕ) (a : ℕ) (w : Work) (m : ℕ) (lists : List (List (ℕ × Workqueue)))
    → rest_all g m lists ≤ rest_all g m (insert_in a w lists)
unfolding rest_all insert_in
rest_all-insert_in g a w m [] = omega arith
rest_all-insert_in g a w m (queues ∷ rest) = rw (insert_at-length a w queues) (
    omega
      (arith, rest_in-insert_at g a w m queues, rest_all-insert_in g a w (m - length queues) rest))

-- ===== src/Windows/Legacy/Sums.antt =====
-- Sums over the workqueues of the manager for Windows XP (src/windows/manager.c), and what a scan and a
-- new item do to them.
use libpwq.Prelude.{
  ◌*◌, ℕ, zero, suc, ◌+◌, ◌≡◌, refl, Option, none, some, List, [], ◌∷◌, ◌==◌, if◌then◌else◌,
  get_elem?, set, arith, inl, inr,
}
use native.Mathlib.Nat.{add-mul, zero-mul, one-mul}
use libpwq.Workqueue.{Work, Workqueue}
use libpwq.Manager.Scan.Priority.{List-cases}
use libpwq.Manager.Additem.{insert_tail}
use libpwq.Manager.Weigh.{weigh, weigh-append}
use libpwq.Windows.Legacy.{scan_list, scan_lists, insert_at, insert_in}

-- The sum of a weight over the workqueues of a priority, and over all.
unfoldable pub sum_in : (ℕ × Workqueue → ℕ) → List (ℕ × Workqueue) → ℕ
sum_in f [] = 0
sum_in f (e ∷ rest) = f e + sum_in f rest

unfoldable pub sum_all : (ℕ × Workqueue → ℕ) → List (List (ℕ × Workqueue)) → ℕ
unfolding sum_in
sum_all f [] = 0
sum_all f (queues ∷ rest) = sum_in f queues + sum_all f rest

-- What the items of a workqueue weigh, and whether it is the one at address `a`.
abbrev pub items_of : (Work → ℕ) → ℕ × Workqueue → ℕ
items_of g e = weigh g e.1.item_listhead

abbrev pub is_at : ℕ → ℕ × Workqueue → ℕ
is_at a e = if a == e.0 then 1 else 0

sum_in-insert_at :
    (a : ℕ) (w : Work) (queues : List (ℕ × Workqueue))
    → ((g : Work → ℕ)
        → sum_in (items_of g) (insert_at a w queues)
          ≡ sum_in (items_of g) queues + sum_in (is_at a) queues * g w)
      × ((b : ℕ) → sum_in (is_at b) (insert_at a w queues) ≡ sum_in (is_at b) queues)
unfolding insert_at insert_tail sum_in weigh
sum_in-insert_at a w [] = (λ g. omega (arith, zero-mul (g w)), λ b. refl)
sum_in-insert_at a w ((b, q) ∷ rest) =
    let (sizes, places) = sum_in-insert_at a w rest in
    (
      λ g. ground (
        arith,
        weigh-append g q.item_listhead (w ∷ []),
        sizes g,
        add-mul (is_at a (b, q)) (sum_in (is_at a) rest) (g w),
        one-mul (g w),
        zero-mul (g w),
      ),
      λ c. ground (arith, places c),
    )

pub sum_all-insert_in :
    (a : ℕ) (w : Work) (lists : List (List (ℕ × Workqueue)))
    → ((g : Work → ℕ)
        → sum_all (items_of g) (insert_in a w lists)
          ≡ sum_all (items_of g) lists + sum_all (is_at a) lists * g w)
      × ((b : ℕ) → sum_all (is_at b) (insert_in a w lists) ≡ sum_all (is_at b) lists)
unfolding insert_in sum_all
sum_all-insert_in a w [] = (λ g. omega (arith, zero-mul (g w)), λ b. refl)
sum_all-insert_in a w (queues ∷ rest) =
    let (sizes, places) = sum_in-insert_at a w queues in
    let (sizes', places') = sum_all-insert_in a w rest in
    (
      λ g. omega (
        arith,
        sizes g,
        sizes' g,
        add-mul (sum_in (is_at a) queues) (sum_all (is_at a) rest) (g w),
      ),
      λ b. omega (arith, places b, places' b),
    )

-- A workqueue that is put in front of those of its priority.
pub sum_all-set :
    (f : ℕ × Workqueue → ℕ) (lists : List (List (ℕ × Workqueue))) (i : ℕ) (e : ℕ × Workqueue)
    (queues : List (ℕ × Workqueue))
    → get_elem? lists i ≡ some queues
    → sum_all f (set lists i (e ∷ queues)) ≡ f e + sum_all f lists
unfolding sum_all sum_in
sum_all-set f [] i e queues at = cc
sum_all-set f (x ∷ rest) zero e queues at = ground (arith, at)
sum_all-set f (x ∷ rest) (suc i) e queues at = omega (arith, sum_all-set f rest i e queues at)

-- What a scan does to the workqueues: it takes an item, or there is none.
pub data Scanned {ℓ} {A : Type ℓ} (sum : (ℕ × Workqueue → ℕ) → A → ℕ) (x : A)
    (r : Option (Work × A)) : Type ℓ where
  nothing : r ≡ none → ((g : Work → ℕ) → sum (items_of g) x ≡ 0) → Scanned sum x r
  took :
      (w : Work) (y : A)
      → r ≡ some (w, y)
      → ((g : Work → ℕ) → sum (items_of g) x ≡ g w + sum (items_of g) y)
      → ((b : ℕ) → sum (is_at b) y ≡ sum (is_at b) x)
      → Scanned sum x r

scan_list-Scanned : (queues : List (ℕ × Workqueue)) → Scanned sum_in queues (scan_list queues)
unfolding scan_list sum_in weigh
scan_list-Scanned [] = nothing refl (λ g. refl)
scan_list-Scanned ((a, q) ∷ rest) = elim (List-cases q.item_listhead) [
  | inl none_here ↦ elim (scan_list-Scanned rest) [
    | nothing e nil ↦ nothing (rw (none_here, e) refl) (λ g. ground (arith, none_here, nil g))
    | took w y e fewer places ↦
        took w ((a, q) ∷ y) (ground (arith, none_here, e)) (λ g. ground (arith, none_here, fewer g))
          (λ b. omega (arith, places b))
  ]
  | inr (w, items, holds) ↦
      took w ((a, record q { item_listhead = items }) ∷ rest) (rw holds refl)
        (λ g. ground (arith, holds)) (λ b. refl)
]

pub scan_lists-Scanned :
    (lists : List (List (ℕ × Workqueue))) → Scanned sum_all lists (scan_lists lists)
unfolding scan_lists sum_all
scan_lists-Scanned [] = nothing refl (λ g. refl)
scan_lists-Scanned (queues ∷ rest) = elim (scan_list-Scanned queues) [
  | nothing e nil ↦ elim (scan_lists-Scanned rest) [
    | nothing e' nil' ↦ nothing (ground (arith, e, e')) (λ g. omega (arith, nil g, nil' g))
    | took w y e' fewer places ↦
        took w (queues ∷ y) (ground (arith, e, e')) (λ g. omega (arith, nil g, fewer g))
          (λ b. omega (arith, places b))
  ]
  | took w y e fewer places ↦
      took w (y ∷ rest) (ground (arith, e)) (λ g. omega (arith, fewer g))
        (λ b. omega (arith, places b))
]

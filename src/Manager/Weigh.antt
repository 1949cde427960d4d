-- ===== src/Manager/Weigh.antt =====
-- Items of workqueues, weighed: for any weight of an item, what a list of items and a table of lists
-- weigh.
use libpwq.Prelude.{
  ℕ, ◌+◌, ◌<◌, ◌≡◌, refl, ◌∙◌, List, [], ◌∷◌, ◌++◌, ◌==◌, if◌then◌else◌, arith, update, sum_over,
  sum_over-congr, sum_over-update, sum_over-zero,
}
use libpwq.Workqueue.{Work, workqueue_max}
use libpwq.Manager.Additem.Laws.{append_at}

module _ (f : Work → ℕ) where
  unfoldable pub weigh : List Work → ℕ
  weigh [] = 0
  weigh (w ∷ rest) = f w + weigh rest

  pub weigh-append : (xs ys : List Work) → weigh (xs ++ ys) ≡ weigh xs + weigh ys
  unfolding weigh
  weigh-append [] ys = omega arith
  weigh-append (x ∷ xs) ys = omega (arith, weigh-append xs ys)

  -- All lists of a table.
  unfoldable pub total : (ℕ → List Work) → ℕ
  total items = sum_over weigh workqueue_max items

  pub total-congr :
      (items items' : ℕ → List Work) → ((j : ℕ) → items' j ≡ items j) → total items' ≡ total items
  unfolding total
  total-congr items items' same = sum_over-congr weigh _ _ _ (λ j lt. same j)

  pub total-zero :
      (items : ℕ → List Work) → ((j : ℕ) → j < workqueue_max → items j ≡ []) → total items ≡ 0
  unfolding total weigh
  total-zero items none_there =
      sum_over-zero weigh workqueue_max items (λ j lt. rw (none_there j lt) refl)

  -- The head of one list was taken.
  pub total-taken :
      (items items' : ℕ → List Work) (i : ℕ) (w : Work) (rest : List Work)
      → i < workqueue_max
      → items i ≡ w ∷ rest
      → ((j : ℕ) → items' j ≡ (if i == j then rest else items j))
      → total items' + f w ≡ total items
  unfolding total weigh
  total-taken items items' i w rest lt found left =
      let same = sum_over-congr weigh workqueue_max items' (update items i rest) (λ j h. left j) in
      let moved = sum_over-update weigh workqueue_max items i rest lt in
      let head : weigh (items i) ≡ f w + weigh rest = rw found refl in
      omega (arith, same, moved, head)

  -- An item was appended to one list.
  pub total-append_at :
      (items items' : ℕ → List Work) (i : ℕ) (w : Work)
      → i < workqueue_max
      → ((j : ℕ) → items' j ≡ append_at items i w j)
      → total items' ≡ total items + f w
  unfolding total weigh
  total-append_at items items' i w lt after =
      let put : List Work = items i ++ w ∷ [] in
      let same =
        sum_over-congr weigh workqueue_max items' (update items i put)
          (λ j h. after j ∙ ground arith) in
      let moved = sum_over-update weigh workqueue_max items i put lt in
      omega (arith, same, moved, weigh-append (items i) (w ∷ []))

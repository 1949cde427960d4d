-- ===== src/Prelude/Family.antt =====
-- Families indexed by numbers (threads, queues, addresses): a write at one index, and sums over
-- the first indices.
use Prim.Native.Nat.{ℕ, zero, suc, ◌+◌, ◌≤◌, ◌<◌}
use mathlib.Core.Path.{◌≡◌, refl}
use mathlib.Core.Logic.{◌≢◌}
use native.Mathlib.Decide.{ℕ_discrete, dec_lt}
use native.Mathlib.Omega.{arith}
use libpwq.Prelude.Tests.{◌==◌, ==_refl, ==_ne, if◌then◌else◌}

abbrev pub update {ℓ} : {A : Type ℓ} → (ℕ → A) → ℕ → A → ℕ → A
update f p v j = if p == j then v else f j

pub update_self {ℓ} : {A : Type ℓ} (f : ℕ → A) (p : ℕ) (v : A) → update f p v p ≡ v
update_self f p v = rw (==_refl p) refl

pub update_ne {ℓ} : {A : Type ℓ} (f : ℕ → A) (p q : ℕ) (v : A) → p ≢ q → update f p v q ≡ f q
update_ne f p q v ne = rw (==_ne p q ne) refl

-- The sum of the weights of the first `n` members.
unfoldable pub sum_over {ℓ} : {A : Type ℓ} → (A → ℕ) → ℕ → (ℕ → A) → ℕ
sum_over w zero f = 0
sum_over w (suc n) f = w (f n) + sum_over w n f

module _ {ℓ} {A : Type ℓ} (w : A → ℕ) where
  pub sum_over-congr :
      (n : ℕ) (f g : ℕ → A) → ((j : ℕ) → j < n → f j ≡ g j) → sum_over w n f ≡ sum_over w n g
  unfolding sum_over
  sum_over-congr zero f g h = refl
  sum_over-congr (suc n) f g h =
      rw (h n (omega arith), sum_over-congr n f g (λ j lt. h j (omega arith)))

  -- A write takes the old weight out and puts the new one in.
  pub sum_over-update :
      (n : ℕ) (f : ℕ → A) (i : ℕ) (a : A)
      → i < n
      → sum_over w n (update f i a) + w (f i) ≡ sum_over w n f + w a
  unfolding sum_over
  sum_over-update zero f i a h = absurd (omega arith)
  sum_over-update (suc n) f i a h = elim (ℕ_discrete i n) [
    | yes e ↦
        let below =
          sum_over-congr n (update f i a) f
            (λ j lt. update_ne f i j a (λ q. omega (arith, e, q))) in
        ground (arith, below, e)
    | no ne ↦ ground (arith, sum_over-update n f i a (omega arith))
  ]

  pub sum_over-le : ((a : A) → w a ≤ 1) → (n : ℕ) (f : ℕ → A) → sum_over w n f ≤ n
  unfolding sum_over
  sum_over-le small zero f = omega arith
  sum_over-le small (suc n) f = omega (arith, small (f n), sum_over-le small n f)

  -- A member weighs no more than all of them.
  pub sum_over-member : (n : ℕ) (f : ℕ → A) (i : ℕ) → i < n → w (f i) ≤ sum_over w n f
  unfolding sum_over
  sum_over-member zero f i h = absurd (omega arith)
  sum_over-member (suc n) f i h = elim (ℕ_discrete i n) [
    | yes e ↦ rw e (omega arith)
    | no ne ↦ omega (arith, sum_over-member n f i (omega arith))
  ]

  -- And two members no more than all.
  pub sum_over-pair :
      (n : ℕ) (f : ℕ → A) (i j : ℕ) → i < n → j < n → i ≢ j → w (f i) + w (f j) ≤ sum_over w n f
  unfolding sum_over
  sum_over-pair zero f i j h k ne = absurd (omega arith)
  sum_over-pair (suc n) f i j h k ne = elim (ℕ_discrete i n) [
    | yes e ↦ let other = sum_over-member n f j (omega arith) in rw e (omega arith)
    | no i_ne ↦ elim (ℕ_discrete j n) [
      | yes e ↦ let other = sum_over-member n f i (omega arith) in rw e (omega arith)
      | no j_ne ↦ omega (arith, sum_over-pair n f i j (omega arith) (omega arith) ne)
    ]
  ]

  pub sum_over-zero : (n : ℕ) (f : ℕ → A) → ((i : ℕ) → i < n → w (f i) ≡ 0) → sum_over w n f ≡ 0
  unfolding sum_over
  sum_over-zero zero f h = refl
  sum_over-zero (suc n) f h =
      omega (arith, h n (omega arith), sum_over-zero n f (λ i lt. h i (omega arith)))

  -- A sum that is not 0 has a member that weighs something.
  pub sum_over-some : (n : ℕ) (f : ℕ → A) → 0 < sum_over w n f → (i : ℕ) × (i < n) × (0 < w (f i))
  unfolding sum_over
  sum_over-some zero f h = absurd (omega arith)
  sum_over-some (suc n) f h = elim (dec_lt 0 (w (f n))) [
    | yes pos ↦ (n, omega arith, pos)
    | no none_here ↦ let (i, lt, pos) = sum_over-some n f (omega arith) in (i, omega arith, pos)
  ]

pub sum_over_mono {ℓ} :
    {A : Type ℓ} (v w : A → ℕ) (n : ℕ) (f : ℕ → A)
    → ((a : A) → v a ≤ w a)
    → sum_over v n f ≤ sum_over w n f
unfolding sum_over
sum_over_mono v w zero f h = omega arith
sum_over_mono v w (suc n) f h = omega (arith, h (f n), sum_over_mono v w n f h)

pub sum_over-plus {ℓ} :
    {A : Type ℓ} (v w : A → ℕ) (n : ℕ) (f : ℕ → A)
    → sum_over (λ a. v a + w a) n f ≡ sum_over v n f + sum_over w n f
unfolding sum_over
sum_over-plus v w zero f = refl
sum_over-plus v w (suc n) f = omega (arith, sum_over-plus v w n f)

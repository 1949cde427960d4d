-- ===== src/Pool/Bags.antt =====
-- Lists of items of which the order is forgotten.
use mathlib.Core.Quot
use mathlib.Core.Quot.{Quot, Quot-set}
use native.Mathlib.Nat.{ℕ_set}
use libpwq.Prelude.{ℕ, zero, suc, ◌+◌, ◌≡◌, refl, List, [], ◌∷◌, ◌++◌, arith, sum_over}
use libpwq.Workqueue.{Work}
use libpwq.Manager.Weigh.{weigh, weigh-append}

-- Two lists have the same items, each as often: they weigh the same for every weight.
abbrev pub SameItems : List Work → List Work → Type 0
SameItems xs ys = (f : Work → ℕ) → weigh f xs ≡ weigh f ys

abbrev pub Bag : Type 0
Bag = Quot SameItems

abbrev pub bag_of : List Work → Bag
bag_of xs = Quot.mk xs

abbrev pub none_in : Bag
none_in = bag_of []

pub SameItems-cons : (w : Work) (xs ys : List Work) → SameItems xs ys → SameItems (w ∷ xs) (w ∷ ys)
unfolding weigh
SameItems-cons w xs ys h f = omega (arith, h f)

unfoldable pub put : Work → Bag → Bag
put w =
    Quot.lift Quot-set (λ xs. bag_of (w ∷ xs)) (λ xs ys h. Quot.sound (SameItems-cons w xs ys h))

pub same_bag : {xs ys : List Work} → SameItems xs ys → bag_of xs ≡ bag_of ys
same_bag h = Quot.sound h

-- The weight of a bag does not depend on an order.
unfoldable pub bag_weight : (Work → ℕ) → Bag → ℕ
bag_weight f = Quot.lift ℕ_set (weigh f) (λ xs ys h. h f)

pub bag_weight-put :
    (f : Work → ℕ) (w : Work) (b : Bag) → bag_weight f (put w b) ≡ f w + bag_weight f b
unfolding bag_weight put weigh
bag_weight-put f w = Quot.ind (λ b. ℕ_set _ _) (λ xs. refl)

-- The lists of the first `n` members of a family, one after the other.
unfoldable pub listing {ℓ} : {A : Type ℓ} → (A → List Work) → ℕ → (ℕ → A) → List Work
listing g zero h = []
listing g (suc n) h = g (h n) ++ listing g n h

pub weigh-listing {ℓ} :
    {A : Type ℓ} (f : Work → ℕ) (g : A → List Work) (w : A → ℕ)
    → ((a : A) → weigh f (g a) ≡ w a)
    → (n : ℕ) (h : ℕ → A) → weigh f (listing g n h) ≡ sum_over w n h
unfolding listing weigh sum_over
weigh-listing f g w e zero h = refl
weigh-listing f g w e (suc n) h =
    omega (arith, weigh-append f (g (h n)) (listing g n h), e (h n), weigh-listing f g w e n h)

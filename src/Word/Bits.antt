-- ===== src/Word/Bits.antt =====
-- Setting and clearing a bit of a mask, read back bit by bit.
mod Step
use Step.{bit_or_step, bit_and_step}
use native.Mathlib.Nat.{pow-suc, one-le-pow}
use libpwq.Prelude.{
  ℕ, zero, suc, ◌+◌, ◌-◌, ◌*◌, ◌/◌, ◌%◌, ◌^◌, ◌<◌, ◌≡◌, refl, ◌∙◌, ap, false, not, ◌&&◌, ◌||◌,
  bit_and, bit_or, ◌==◌, if◌then◌else◌, ◌≤◌, arith,
}
use libpwq.Word.{index_bit, complement, bit, set_bit, clear_bit}

bit-bit_or : (j a b : ℕ) → bit j (bit_or a b) ≡ (bit j a || bit j b)
unfolding bit
bit-bit_or zero a b = ground (arith, bit_or_step a b)
bit-bit_or (suc j) a b = ap (bit j) (omega (arith, bit_or_step a b)) ∙ bit-bit_or j (a / 2) (b / 2)

bit-bit_and : (j a b : ℕ) → bit j (bit_and a b) ≡ (bit j a && bit j b)
unfolding bit
bit-bit_and zero a b = ground (arith, bit_and_step a b)
bit-bit_and (suc j) a b =
    ap (bit j) (omega (arith, bit_and_step a b)) ∙ bit-bit_and j (a / 2) (b / 2)

pub bit-zero : (j : ℕ) → bit j 0 ≡ false
unfolding bit
bit-zero zero = refl
bit-zero (suc j) = bit-zero j

bit-pow : (j i : ℕ) → bit j (2 ^ i) ≡ (i == j)
unfolding bit
bit-pow zero zero = refl
bit-pow zero (suc i) = ground (arith, pow-suc 2 i)
bit-pow (suc j) zero = ground (arith, bit-zero j)
bit-pow (suc j) (suc i) = ap (bit j) (omega (arith, pow-suc 2 i)) ∙ bit-pow j i ∙ ground arith

bit-flip : (j w x : ℕ) → j < w → x < 2 ^ w → bit j (2 ^ w - 1 - x) ≡ not (bit j x)
unfolding bit
bit-flip j zero x h fits = absurd (omega arith)
bit-flip zero (suc w) x h fits = ground (arith, pow-suc 2 w)
bit-flip (suc j) (suc w) x h fits =
    ap (bit j) (omega (arith, pow-suc 2 w))
    ∙ bit-flip j w (x / 2) (omega arith) (omega (arith, pow-suc 2 w))

pow_lt : (i w : ℕ) → i < w → 2 ^ i < 2 ^ w
pow_lt i zero h = absurd (omega arith)
pow_lt zero (suc w) h = omega (arith, pow-suc 2 w, one-le-pow w 2)
pow_lt (suc i) (suc w) h = omega (arith, pow-suc 2 i, pow-suc 2 w, pow_lt i w (omega arith))

-- Setting bit `i` sets it and leaves the others.
pub bit-set_bit : (mask i j : ℕ) → bit j (set_bit mask i) ≡ (bit j mask || (i == j))
unfolding set_bit
bit-set_bit mask i j = bit-bit_or j mask (2 ^ i) ∙ ap (λ b. bit j mask || b) (bit-pow j i)

-- Clearing bit `i` of 32 clears it and leaves the others.
pub bit-clear_bit :
    (mask i j : ℕ) → i < 32 → j < 32 → bit j (clear_bit mask i) ≡ (bit j mask && not (i == j))
unfolding clear_bit
bit-clear_bit mask i j hi hj =
    bit-bit_and j mask (complement (2 ^ i))
    ∙ ap (λ b. bit j mask && b) (bit-flip j 32 (2 ^ i) hj (pow_lt i 32 hi) ∙ ap not (bit-pow j i))

bit_and-zero : (n a : ℕ) → a ≤ n → bit_and a 0 ≡ 0
bit_and-zero n zero h = refl
bit_and-zero zero (suc a) h = absurd (omega arith)
bit_and-zero (suc n) (suc a) h =
    omega (arith, bit_and_step (suc a) 0, bit_and-zero n (suc a / 2) (omega arith))

bit_and-pow : (i mask : ℕ) → bit_and mask (2 ^ i) ≡ (if bit i mask then 2 ^ i else 0)
unfolding bit
bit_and-pow zero mask = ground (arith, bit_and_step mask 1, bit_and-zero (mask / 2) (mask / 2))
bit_and-pow (suc i) mask =
    bit_and_step mask (2 ^ suc i)
    ∙ (omega (arith, pow-suc 2 i, ap (bit_and (mask / 2)) halved)
        ∙ doubled (bit_and-pow i (mask / 2)))
  where
    halved : 2 ^ suc i / 2 ≡ 2 ^ i
    halved = omega (arith, pow-suc 2 i)

    doubled :
        bit_and (mask / 2) (2 ^ i) ≡ (if bit i (mask / 2) then 2 ^ i else 0)
        → bit_and (mask / 2) (2 ^ i) * 2 ≡ (if bit i (mask / 2) then 2 ^ suc i else 0)
    doubled e = ground (arith, pow-suc 2 i)

-- The C test `mask & (0x1 << i)` reads bit `i`.
pub bit_and-index_bit : (mask i : ℕ) → not (bit_and mask (index_bit i) == 0) ≡ bit i mask
bit_and-index_bit mask i = ground (arith, bit_and-pow i mask, one-le-pow i 2)

-- Low bits that are all ones keep a number that fits them.
pub bit_and_ones : (k y : ℕ) → y < 2 ^ k → bit_and y (2 ^ k - 1) ≡ y
bit_and_ones zero y h =
    let none_left : y ≡ 0 = omega arith in rw none_left (bit_and-zero 0 0 (omega arith))
bit_and_ones (suc k) y h =
    let half : (2 ^ suc k - 1) / 2 ≡ 2 ^ k - 1 = omega (arith, pow-suc 2 k) in
    omega (
      arith,
      bit_and_step y (2 ^ suc k - 1),
      ap (bit_and (y / 2)) half,
      bit_and_ones k (y / 2) (omega (arith, pow-suc 2 k)),
      pow-suc 2 k,
      one-le-pow k 2,
    )

-- A mask that ends in 0 clears the last bit.
pub bit_and_even : (y b : ℕ) → bit_and y (2 * b) ≡ 2 * bit_and (y / 2) b
bit_and_even y b =
    let half : 2 * b / 2 ≡ b = omega arith in
    omega (arith, bit_and_step y (2 * b), ap (bit_and (y / 2)) half)

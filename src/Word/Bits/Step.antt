-- ===== src/Word/Bits/Step.antt =====
-- The native bit operations, a digit at a time.
use Prim.Native.Nat.{digits, bit_or-bitwise, bit_and-bitwise}
use libpwq.Prelude.{
  ℕ, zero, suc, ◌+◌, ◌*◌, ◌/◌, ◌%◌, ◌≤◌, ◌≡◌, refl, min, max, bit_and, bit_or, arith,
}

-- The recursion that both operations stand for does not depend on its fuel.
module _ (base : ℕ → ℕ) (op : ℕ → ℕ → ℕ) where
  digits_fuel :
      (fuel more a b : ℕ) → a ≤ fuel → a ≤ more → digits base op fuel a b ≡ digits base op more a b
  digits_fuel zero zero a b enough also = refl
  digits_fuel zero (suc more) zero b enough also = refl
  digits_fuel zero (suc more) (suc a) b enough also = absurd (omega arith)
  digits_fuel (suc fuel) zero zero b enough also = refl
  digits_fuel (suc fuel) zero (suc a) b enough also = absurd (omega arith)
  digits_fuel (suc fuel) (suc more) zero b enough also = refl
  digits_fuel (suc fuel) (suc more) (suc a) b enough also =
      omega (arith, digits_fuel fuel more (suc a / 2) (b / 2) (omega arith) (omega arith))

  -- One step of the recursion, with its fuel brought back to the number itself.
  digits_step :
      (a b : ℕ)
      → digits base op (suc a) (suc a) b
        ≡ digits base op (suc a / 2) (suc a / 2) (b / 2) * 2 + op (suc a % 2) (b % 2)
  digits_step a b =
      omega (arith, digits_fuel a (suc a / 2) (suc a / 2) (b / 2) (omega arith) (omega arith))

pub bit_and_step : (a b : ℕ) → bit_and a b ≡ bit_and (a / 2) (b / 2) * 2 + min (a % 2) (b % 2)
bit_and_step zero b = omega (arith, bit_and-bitwise 0 b, bit_and-bitwise 0 (b / 2))
bit_and_step (suc a) b = omega (
  arith,
  bit_and-bitwise (suc a) b,
  bit_and-bitwise (suc a / 2) (b / 2),
  digits_step (λ _. zero) min a b,
)

pub bit_or_step : (a b : ℕ) → bit_or a b ≡ bit_or (a / 2) (b / 2) * 2 + max (a % 2) (b % 2)
bit_or_step zero b = omega (arith, bit_or-bitwise 0 b, bit_or-bitwise 0 (b / 2))
bit_or_step (suc a) b = omega (
  arith,
  bit_or-bitwise (suc a) b,
  bit_or-bitwise (suc a / 2) (b / 2),
  digits_step (λ b. b) max a b,
)

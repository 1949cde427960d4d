-- ===== src/Witem/Rounding.antt =====
-- ROUND_UP_TO_CACHELINE_SIZE.
use libpwq.Prelude.{ℕ, ◌+◌, ◌-◌, ◌*◌, ◌/◌, ◌%◌, ◌^◌, ◌≤◌, ◌<◌, ◌≡◌, ap, ◌∙◌, bit_and, arith}
use libpwq.Word.Bits.{bit_and_ones, bit_and_even}
use libpwq.Witem.{cacheline_size, round_up_to_cacheline_size}

-- Clearing the low six bits.
bit_and_lines : (y b : ℕ) → bit_and y (64 * b) ≡ 64 * bit_and (y / 64) b
bit_and_lines y b =
    let e5 : y / 2 / 2 / 2 / 2 / 2 / 2 ≡ y / 64 = omega arith in
    let e : 64 * b ≡ 2 * (2 * (2 * (2 * (2 * (2 * b))))) = omega arith in
    ap (bit_and y) e
    ∙ omega (
      arith,
      bit_and_even y (2 * (2 * (2 * (2 * (2 * b))))),
      bit_and_even (y / 2) (2 * (2 * (2 * (2 * b)))),
      bit_and_even (y / 2 / 2) (2 * (2 * (2 * b))),
      bit_and_even (y / 2 / 2 / 2) (2 * (2 * b)),
      bit_and_even (y / 2 / 2 / 2 / 2) (2 * b),
      bit_and_even (y / 2 / 2 / 2 / 2 / 2) b,
      ap (λ n. bit_and n b) e5,
    )

-- For a size that does not overflow, the result is the least multiple of 64 that is no less.
pub round_up_lem :
    (x : ℕ)
    → x + 63 < 2 ^ 64
    → (round_up_to_cacheline_size x % cacheline_size ≡ 0)
      × (x ≤ round_up_to_cacheline_size x)
      × (round_up_to_cacheline_size x < x + cacheline_size)
unfolding round_up_to_cacheline_size
round_up_lem x h =
    let masked : bit_and (x + 63) (2 ^ 64 - 64) ≡ 64 * ((x + 63) / 64) =
      bit_and_lines (x + 63) (2 ^ 58 - 1)
      ∙ ap (λ n. 64 * n) (bit_and_ones 58 ((x + 63) / 64) (omega arith)) in
    omega (arith, masked)

-- ===== src/Word.antt =====
-- The 32-bit masks of pending queues (posix/manager.c): bits of an unsigned int, and ffs().
pub mod Bits
pub mod Ffs
use libpwq.Prelude.{
  ℕ, zero, suc, ◌+◌, ◌-◌, ◌*◌, ◌/◌, ◌%◌, ◌^◌, Bool, bit_and, bit_or, ◌==◌, if◌then◌else◌,
}

-- The values of an `unsigned int` are those below this.
abbrev pub u32_mod : ℕ
u32_mod = 2 ^ 32

-- atomic_inc and atomic_dec on an `unsigned int` wrap round.
abbrev pub inc32 : ℕ → ℕ
inc32 n = (n + 1) % u32_mod

abbrev pub dec32 : ℕ → ℕ
dec32 n = (n + u32_mod - 1) % u32_mod

-- `0x1 << i`
abbrev pub index_bit : ℕ → ℕ
index_bit i = 2 ^ i

-- `~x` on an `unsigned int`
abbrev pub complement : ℕ → ℕ
complement x = u32_mod - 1 - x

-- `mask |= 0x1 << i`, which is also what atomic_or stores and returns
unfoldable pub set_bit : ℕ → ℕ → ℕ
set_bit mask i = bit_or mask (index_bit i)

-- `mask &= ~(0x1 << i)`, which is also what atomic_and stores and returns
unfoldable pub clear_bit : ℕ → ℕ → ℕ
clear_bit mask i = bit_and mask (complement (index_bit i))

-- Is bit `i` of the mask set?
unfoldable pub bit : ℕ → ℕ → Bool
bit zero mask = mask % 2 == 1
bit (suc i) mask = bit i (mask / 2)

-- ffs() of the C library: one more than the position of the lowest set bit, and 0 for 0. The first
-- argument bounds the positions looked at.
ffs_below : ℕ → ℕ → ℕ
ffs_below zero mask = 0
ffs_below (suc n) mask =
    let rest = ffs_below n (mask / 2) in
    if mask % 2 == 1 then 1 else if rest == 0 then 0 else rest + 1

unfoldable pub ffs : ℕ → ℕ
unfolding ffs_below
ffs = ffs_below 32

-- ===== src/Word/Ffs.antt =====
-- ffs() finds the lowest bit that is set.
use libpwq.Prelude.{ℕ, zero, suc, ◌/◌, ◌<◌, ◌≡◌, refl, true, false, arith}
use libpwq.Word.{bit, ffs, ffs_below}

ffs_below_zero : (n mask j : ℕ) → ffs_below n mask ≡ 0 → j < n → bit j mask ≡ false
unfolding ffs_below bit
ffs_below_zero zero mask j e h = absurd (omega arith)
ffs_below_zero (suc n) mask zero e h = ground arith
ffs_below_zero (suc n) mask (suc j) e h = ground (arith, ffs_below_zero n (mask / 2) j)

ffs_below_le : (n mask k : ℕ) → ffs_below n mask ≡ suc k → k < n
unfolding ffs_below
ffs_below_le zero mask k e = absurd (omega arith)
ffs_below_le (suc n) mask zero e = omega arith
ffs_below_le (suc n) mask (suc k) e = ground (arith, ffs_below_le n (mask / 2) k)

ffs_below-bit : (n mask k : ℕ) → ffs_below n mask ≡ suc k → bit k mask ≡ true
unfolding ffs_below bit
ffs_below-bit zero mask k e = absurd (omega arith)
ffs_below-bit (suc n) mask zero e = ground arith
ffs_below-bit (suc n) mask (suc k) e = ground (arith, ffs_below-bit n (mask / 2) k)

ffs_below_least : (n mask k j : ℕ) → ffs_below n mask ≡ suc k → j < k → bit j mask ≡ false
unfolding ffs_below bit
ffs_below_least zero mask k j e h = absurd (omega arith)
ffs_below_least (suc n) mask zero j e h = absurd (omega arith)
ffs_below_least (suc n) mask (suc k) zero e h = ground arith
ffs_below_least (suc n) mask (suc k) (suc j) e h = ground (arith, ffs_below_least n (mask / 2) k j)

-- ffs is 0 only where none of the 32 bits is set.
pub ffs_zero : (mask j : ℕ) → ffs mask ≡ 0 → j < 32 → bit j mask ≡ false
unfolding ffs
ffs_zero mask j e h = ffs_below_zero 32 mask j e h

-- Otherwise it is one more than the position of a set bit, and no lower bit is set.
pub ffs_lt : (mask k : ℕ) → ffs mask ≡ suc k → k < 32
unfolding ffs
ffs_lt mask k e = ffs_below_le 32 mask k e

pub bit-ffs : (mask k : ℕ) → ffs mask ≡ suc k → bit k mask ≡ true
unfolding ffs
bit-ffs mask k e = ffs_below-bit 32 mask k e

pub ffs_least : (mask k j : ℕ) → ffs mask ≡ suc k → j < k → bit j mask ≡ false
unfolding ffs
ffs_least mask k j e h = ffs_below_least 32 mask k j e h

ffs_runs : ffs 0x28 ≡ 4
unfolding ffs
ffs_runs = refl

-- ===== src/Manager/Limits/Laws.antt =====
-- The bounds of the process limit.
use libpwq.Prelude.{◌↔◌, ℕ, ◌<◌, ◌≤◌, ◌≡◌, Option, some, Bool, arith}
use libpwq.Word.{u32_mod}
use libpwq.Manager.Limits.{
  linux_process_limit, solaris_process_limit, min_process_limit, max_process_limit,
}

-- On Solaris the limit lies between 4 and 1000, whatever the system calls give.
pub solaris_limit_bounds :
    (memory : Bool) (rctl total : Option ℕ)
    → (min_process_limit ≤ solaris_process_limit memory rctl total)
      × (solaris_process_limit memory rctl total ≤ max_process_limit)
unfolding solaris_process_limit
solaris_limit_bounds memory rctl total = ground arith

-- On Linux the result is the hard limit of the process exactly if that fits 32 bits.
pub linux_limit_iff : (n : ℕ) → (linux_process_limit (some n) ≡ n) ↔ (n < u32_mod)
unfolding linux_process_limit
linux_limit_iff n = (λ h. omega arith, λ h. omega arith)

-- ===== src/Manager/Limits.antt =====
-- src/posix/manager.c: get_process_limit and get_runqueue_length.
pub mod Laws
use libpwq.Prelude.{
  ℕ, ◌+◌, ◌-◌, ◌%◌, ◌^◌, Option, none, some, Bool, true, false, not, ◌==◌, ltb, if◌then◌else◌,
}
use libpwq.Word.{u32_mod}

-- DEFAULT_PROCESS_LIMIT, MIN_PROCESS_LIMIT, MAX_PROCESS_LIMIT, THREADS_RESERVED
abbrev pub default_process_limit : ℕ
default_process_limit = 100

abbrev pub min_process_limit : ℕ
min_process_limit = 4

abbrev pub max_process_limit : ℕ
max_process_limit = 1000

abbrev pub threads_reserved : ℕ
threads_reserved = 5

-- Linux: `rlim_max` if getrlimit succeeds, cut to the 32 bits of the result.
unfoldable pub linux_process_limit : Option ℕ → ℕ
linux_process_limit none = default_process_limit
linux_process_limit (some rlim_max) = rlim_max % u32_mod

-- A value of `unsigned int` read as an `int`, as a signed number: is it below `k`, or above it?
abbrev pub signed_below : ℕ → ℕ → Bool
signed_below w k = if ltb w (2 ^ 31) then ltb w k else true

abbrev pub signed_above : ℕ → ℕ → Bool
signed_above w k = if ltb w (2 ^ 31) then ltb k w else false

-- Solaris, `num` kept as the 32 bits of an int: the block of memory for getrctl, the limit that
-- getrctl gives, and the number of threads if threads_runnable gives it.
unfoldable pub solaris_process_limit : Bool → Option ℕ → Option ℕ → ℕ
solaris_process_limit memory rctl total =
    if not memory
    then default_process_limit
    else let found : ℕ = elim rctl [ none ↦ default_process_limit | some n ↦ n % u32_mod ] in
      let left : ℕ = elim total [
        | none ↦ found
        | some n ↦ (found + u32_mod - n % u32_mod) % u32_mod
      ] in
      let num = (left + u32_mod - threads_reserved) % u32_mod in
      let num' = if signed_below num min_process_limit then min_process_limit else num in
      if signed_above num' max_process_limit then max_process_limit else num'

-- Other systems.
unfoldable pub other_process_limit : ℕ
other_process_limit = default_process_limit

-- ===== src/Solaris.antt =====
-- src/solaris/load.c and src/solaris/thread_info.c: what the library reads of the kernel statistics
-- and of /proc/self/lstatus.
pub mod Priority
use libpwq.Prelude.{
  ℕ, ◌+◌, ◌-◌, ◌/◌, ◌%◌, ◌^◌, ◌<◌, ◌≡◌, Option, none, some, List, [], ◌∷◌, Bool, true, not, ◌==◌,
  ltb, if◌then◌else◌, length, arith,
}
use libpwq.Word.{u32_mod}

-- The static variables `previous_runque` and `previous_updates`: 32 bits of an int each.
pub record Previous : Type 0 where
  pub runque : ℕ
  pub updates : ℕ

-- Division of two ints, as 32 bits each: it cuts towards 0, and the result is negative if just one
-- of the two is.
abbrev pub is_minus : ℕ → Bool
is_minus w = not (ltb w (2 ^ 31))

abbrev pub magnitude : ℕ → ℕ
magnitude w = if is_minus w then u32_mod - w else w

unfoldable pub int_div : ℕ → ℕ → ℕ
int_div a b =
    let q = magnitude a / magnitude b in
    if is_minus a
    then (if is_minus b then q % u32_mod else (u32_mod - q) % u32_mod)
    else if is_minus b
    then (u32_mod - q) % u32_mod
    else q

-- `sysinfo` holds runque and updates (32 bits each), `none` where kstat_open, kstat_lookup or
-- kstat_read fails; `closed` says whether kstat_close succeeds.
unfoldable pub solaris_get_runqueue_length : Option (ℕ × ℕ) → Bool → Previous → Previous × ℕ
unfolding int_div
solaris_get_runqueue_length none closed p = (p, 0)
solaris_get_runqueue_length (some (runque, updates)) closed p =
    let runque_diff = (runque + u32_mod - p.runque) % u32_mod in
    let updates_diff = (updates + u32_mod - p.updates) % u32_mod in
    let run_queue = if updates_diff == 0 then 0 else int_div runque_diff updates_diff in
    (record { runque = runque; updates = updates }, if closed then run_queue else 0)

-- The loop over the lwps: each says whether PR_ASLEEP is set in its flags.
unfoldable pub count_running : List Bool → ℕ → ℕ
count_running [] n = n
count_running (asleep ∷ rest) n = count_running rest (if asleep then n else n + 1)

-- `opened`: open and fcntl succeed. `header`: the first read gives a whole prheader_t. `memory`:
-- malloc succeeds. `body`: the second read gives all entries. The result is the running lwps and
-- all of them, or `none` for -1.
unfoldable pub threads_runnable : Bool → Bool → Bool → Bool → List Bool → Option (ℕ × ℕ)
unfolding count_running
threads_runnable opened header memory body lwps =
    if not opened
    then none
    else if not header
    then none
    else if not memory
    then none
    else if not body
    then none
    else some (count_running lwps 0, length lwps)

-- Two readings in a row, of counters that did not wrap round and grew by less than 2 ^ 31 each:
-- the second one gives the growth of the queue over the number of updates, and 0 with no update.
pub solaris_ratio :
    (p : Previous) (runque updates more k : ℕ)
    → runque + more < u32_mod
    → updates + k < u32_mod
    → more < 2 ^ 31
    → k < 2 ^ 31
    → let p' = (solaris_get_runqueue_length (some (runque, updates)) true p).0 in
      (solaris_get_runqueue_length (some (runque + more, updates + k)) true p').1
      ≡ (if k == 0 then 0 else more / k)
unfolding solaris_get_runqueue_length int_div
solaris_ratio p runque updates more k fits fits' small small' =
    let same : (runque + more + u32_mod - runque) % u32_mod ≡ more = omega (arith, fits) in
    let same' : (updates + k + u32_mod - updates) % u32_mod ≡ k = omega (arith, fits') in
    rw (same, same') (ground (arith, small, small'))

-- ===== src/Manager/Signals.antt =====
-- sigmask_init of src/posix/manager.c: the signals that a worker blocks.
use libpwq.Prelude.{ℕ, ◌≡◌, Bool, true, false, not, ◌==◌, ◌||◌, ◌&&◌, ◌+◌, if◌then◌else◌, arith}

-- The signals that the function names, and all others by number.
pub data Signal : Type 0 where
  sigill sigtrap sigemt sigfpe sigbus sigsegv sigsys sigpipe sigprof : Signal
  other : ℕ → Signal

abbrev pub sig_code : Signal → ℕ
sig_code sigill = 0
sig_code sigtrap = 1
sig_code sigemt = 2
sig_code sigfpe = 3
sig_code sigbus = 4
sig_code sigsegv = 5
sig_code sigsys = 6
sig_code sigpipe = 7
sig_code sigprof = 8
sig_code (other n) = 9 + n

-- A sigset_t, as the test of its members, and the calls on it.
abbrev pub sigfillset : Signal → Bool
sigfillset s = true

abbrev pub sigdelset : (Signal → Bool) → Signal → Signal → Bool
sigdelset set s t = if sig_code s == sig_code t then false else set t

-- `has_sigemt` says whether SIGEMT is defined, and `sigsys_used` whether SIGSYS is not SIGUNUSED.
-- `mask` is the mask of the thread, to which pthread_sigmask with SIG_BLOCK adds the set.
unfoldable pub sigmask_init : Bool → Bool → (Signal → Bool) → Signal → Bool
sigmask_init has_sigemt sigsys_used mask s =
    let set1 = sigdelset (sigdelset sigfillset sigill) sigtrap in
    let set2 = if has_sigemt then sigdelset set1 sigemt else set1 in
    let set3 = sigdelset (sigdelset (sigdelset set2 sigfpe) sigbus) sigsegv in
    let set4 = if sigsys_used then sigdelset set3 sigsys else set3 in
    mask s || sigdelset (sigdelset set4 sigpipe) sigprof s

-- The signals that a thread raises by what it does itself.
abbrev pub is_synchronous : Signal → Bool
is_synchronous (other n) = false
is_synchronous s = true

-- Those of them that the system has.
abbrev pub is_present : Bool → Bool → Signal → Bool
is_present has_sigemt sigsys_used sigemt = has_sigemt
is_present has_sigemt sigsys_used sigsys = sigsys_used
is_present has_sigemt sigsys_used s = true

-- After sigmask_init a worker blocks every signal but those that a thread raises itself, as far as
-- the system has them; of those it blocks the ones that it blocked before.
pub sigmask_init_lem :
    (has_sigemt sigsys_used : Bool) (mask : Signal → Bool) (s : Signal)
    → sigmask_init has_sigemt sigsys_used mask s
      ≡ (mask s || not (is_synchronous s && is_present has_sigemt sigsys_used s))
unfolding sigmask_init
sigmask_init_lem a b mask sigill = ground arith
sigmask_init_lem a b mask sigtrap = ground arith
sigmask_init_lem a b mask sigemt = ground arith
sigmask_init_lem a b mask sigfpe = ground arith
sigmask_init_lem a b mask sigbus = ground arith
sigmask_init_lem a b mask sigsegv = ground arith
sigmask_init_lem a b mask sigsys = ground arith
sigmask_init_lem a b mask sigpipe = ground arith
sigmask_init_lem a b mask sigprof = ground arith
sigmask_init_lem a b mask (other n) = ground arith

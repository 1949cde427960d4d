-- ===== src/Windows/Semaphore.antt =====
-- src/windows/posix_semaphore.h: the POSIX semaphore on one of Windows.
use libpwq.Prelude.{
  Bool, ℕ, zero, suc, ◌+◌, ◌-◌, ◌*◌, ◌/◌, ◌%◌, ◌<◌, ◌≤◌, ◌≡◌, refl, ap, ◌∙◌, Option, none, some,
  ltb, leb, if◌then◌else◌, arith,
}
use libpwq.Word.{u32_mod}

-- A semaphore of Windows: its count and the largest count.
pub record Semaphore : Type 0 where
  pub count : ℕ
  pub maximum : ℕ

-- CreateSemaphore(0, val, 1, 0) gives NULL if `val` is more than the maximum.
unfoldable pub sem_init : ℕ → Option Semaphore × ℕ
sem_init val = if leb val 1 then (some (record { count = val; maximum = 1 }), 0) else (none, 1)

-- `closed` says whether CloseHandle succeeds.
unfoldable pub sem_destroy : Bool → ℕ
sem_destroy closed = if closed then 0 else 1

-- ReleaseSemaphore(s, 1, 0) fails, and changes nothing, if the count is at its maximum.
unfoldable pub sem_post : Semaphore → Semaphore × ℕ
sem_post s = if ltb s.count s.maximum then (record s { count = s.count + 1 }, 0) else (s, 1)

-- WaitForSingleObject(s, INFINITE); `none` while the count is 0.
unfoldable pub sem_wait : Semaphore → Option (Semaphore × ℕ)
sem_wait s = if ltb 0 s.count then some (record s { count = s.count - 1 }, 0) else none

-- What WaitForSingleObject gives, and the results of sem_timedwait.
pub data Waited : Type 0 where
  wait_timeout wait_failed wait_object : Waited

pub data TimedWait : Type 0 where
  done etimedout einval : TimedWait

-- The milliseconds, 32 bits of a DWORD.
abbrev pub duration : ℕ → ℕ → ℕ
duration tv_sec tv_nsec = (tv_nsec / 1000000 % u32_mod + tv_sec * 1000 % u32_mod) % u32_mod

unfoldable pub sem_timedwait : (ℕ → Waited) → ℕ → ℕ → TimedWait
sem_timedwait wait_for tv_sec tv_nsec = elim (wait_for (duration tv_sec tv_nsec)) [
  | wait_timeout ↦ etimedout
  | wait_failed ↦ einval
  | wait_object ↦ done
]

-- `n` posts, one after the other.
unfoldable pub posts : ℕ → Semaphore → Semaphore
unfolding sem_post
posts zero s = s
posts (suc n) s = posts n (sem_post s).0

-- A post changes nothing while the count is at the maximum.
posts_full : (n : ℕ) (s : Semaphore) → s.count ≡ s.maximum → posts n s ≡ s
unfolding posts sem_post
posts_full zero s full = refl
posts_full (suc n) s full =
    let lost : (sem_post s).0 ≡ s = rw (sem_post, full) (ground arith) in
    ap (posts n) lost ∙ posts_full n s full

made_lem : (val : ℕ) (s : Semaphore) → sem_init val ≡ (some s, 0) → (s.count ≤ 1) × (s.maximum ≡ 1)
unfolding sem_init
made_lem val s made = (ground (arith, made), ground (arith, made))

-- However often it is posted after sem_init, the semaphore counts 1: all posts but the first are
-- lost.
pub posts_lost :
    (val n : ℕ) (s : Semaphore) → sem_init val ≡ (some s, 0) → 0 < n → (posts n s).count ≡ 1
unfolding sem_init posts sem_post
posts_lost val zero s made some_post = absurd (omega (arith, some_post))
posts_lost val (suc n) s made some_post =
    let one : (sem_post s).0 ≡ record { count = 1; maximum = 1 } =
      (let (le, full) = made_lem val s made in ground (arith, le, full)) in
    ap (λ t. t.count) (ap (posts n) one ∙ posts_full n (record { count = 1; maximum = 1 }) refl)

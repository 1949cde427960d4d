-- ===== src/Manager/Runqueue.antt =====
-- src/posix/manager.c: get_runqueue_length, and getloadavg for Android.
use libpwq.Prelude.{
  ℕ, ℤ, pos, negsuc, not, ◌≡◌, List, ◌-◌, ◌^◌, Option, none, some, Bool, false, ◌&&◌, ◌||◌, ltb,
  ◌==◌, if◌then◌else◌, arith,
}
use libpwq.Linux.{linux_get_runqueue_length}
use libpwq.Solaris.{Previous, solaris_get_runqueue_length}

-- A load average, a `double`: its sign, its whole part, and whether it has a fraction.
pub record Load : Type 0 where
  pub negative : Bool
  pub whole : ℕ
  pub fraction : Bool

abbrev pub int_max : ℕ
int_max = 2 ^ 31 - 1

abbrev is_one : ℤ → Bool
is_one (pos n) = n == 1
is_one (negsuc n) = false

-- The fallback on other systems: what getloadavg returns, and the value it stores.
unfoldable pub load_average : ℤ → Load → ℕ
load_average rv l =
    if not (is_one rv)
    then 1
    else if ltb int_max l.whole || (((l.whole == int_max) && l.fraction) || l.negative)
    then 1
    else l.whole

-- What the three kinds of systems read.
pub data Measured : Type 0 where
  linux : Option (List ℕ) → Measured
  solaris : Option (ℕ × ℕ) → Bool → Previous → Measured
  other : ℤ → Load → Measured

unfoldable pub get_runqueue_length : Measured → ℕ
unfolding load_average
get_runqueue_length (linux stat) = linux_get_runqueue_length stat
get_runqueue_length (solaris info closed p) = (solaris_get_runqueue_length info closed p).1
get_runqueue_length (other rv load) = load_average rv load

-- `opened` and `read`: open and read succeed; `scanned` is the value that sscanf finds, and
-- `before` what the caller's variable held.
unfoldable pub getloadavg : ℕ → Bool → Bool → Option Load → Load → ℤ × Load
getloadavg nelem opened read scanned before =
    if not (nelem == 1) || (not opened || not read)
    then (negsuc 0, before)
    else elim scanned [ none ↦ (negsuc 0, before) | some l ↦ (pos 0, l) ]

-- With the getloadavg for Android the fallback of get_runqueue_length is always 1, whatever load
-- the file tells: the one returns 0 for success, the other expects 1.
pub android_runqueue_length :
    (nelem : ℕ) (opened read : Bool) (scanned : Option Load) (before : Load)
    → let (rv, l) = getloadavg nelem opened read scanned before in
      get_runqueue_length (other rv l) ≡ 1
unfolding get_runqueue_length getloadavg
android_runqueue_length nelem opened read scanned before = ground arith

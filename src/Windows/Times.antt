-- ===== src/Windows/Times.antt =====
-- src/windows/times.h: gettimeofday on the time of Windows.
use libpwq.Prelude.{
  ℕ, ℤ, zero, suc, pos, negsuc, ◌+◌, ◌-◌, ◌*◌, ◌/◌, ◌%◌, ◌^◌, ◌<◌, ◌≡◌, Option, none, some, Bool,
  true, ◌==◌, if◌then◌else◌, arith,
}
use libpwq.Word.{u32_mod}

-- FILETIME, two words of 32 bits.
pub record FileTime : Type 0 where
  pub high : ℕ
  pub low : ℕ

abbrev pub delta_epoch_in_microsecs : ℕ
delta_epoch_in_microsecs = 11644473600000000

-- `_timezone` and `_daylight` of the C library, after _tzset.
pub record Zone : Type 0 where
  pub timezone : ℤ
  pub daylight : ℤ

-- Division of a long by 60 cuts towards 0.
abbrev pub minutes : ℤ → ℤ
minutes (pos n) = pos (n / 60)
minutes (negsuc n) = elim ((n + 1) / 60) [ zero ↦ pos 0 | suc k ↦ negsuc k ]

-- What the call stores: seconds (32 bits of a long) and microseconds, minutes west of Greenwich and
-- the daylight flag, and the static variable `tzflag`.
pub record Stored : Type 0 where
  pub tv : Option (ℕ × ℕ)
  pub tz : Option (ℤ × ℤ)
  pub tzflag : ℕ

-- The microseconds since 1970, as an unsigned __int64.
abbrev pub unix_microsecs : FileTime → ℕ
unix_microsecs ft =
    let tmpres = (ft.high * 2 ^ 32 + ft.low) % 2 ^ 64 / 10 in
    (tmpres + (2 ^ 64 - delta_epoch_in_microsecs)) % 2 ^ 64

abbrev pub split_time : ℕ → ℕ × ℕ
split_time tmpres = (tmpres / 1000000 % u32_mod, tmpres % 1000000)

-- `has_tv` and `has_tz` say which pointers are not NULL.
unfoldable pub gettimeofday : Bool → Bool → FileTime → Zone → ℕ → Stored × ℤ
gettimeofday has_tv has_tz ft zone tzflag = (
  record {
    tv = if has_tv then some (split_time (unix_microsecs ft)) else none;
    tz = if has_tz then some (minutes zone.timezone, zone.daylight) else none;
    tzflag = if has_tz then if tzflag == 0 then tzflag + 1 else tzflag else tzflag;
  },
  pos 0,
)

-- At `us` microseconds since 1970, which Windows gives as tenths of a microsecond since 1601,
-- gettimeofday stores the whole seconds and the microseconds that remain, up to the year 2038.
pub gettimeofday_epoch :
    (us tenths : ℕ) (has_tz : Bool) (ft : FileTime) (zone : Zone) (tzflag : ℕ)
    → ft.high * 2 ^ 32 + ft.low ≡ (us + delta_epoch_in_microsecs) * 10 + tenths
    → tenths < 10
    → us / 1000000 < 2 ^ 31
    → (gettimeofday true has_tz ft zone tzflag).0.tv ≡ some (us / 1000000, us % 1000000)
unfolding gettimeofday
gettimeofday_epoch us tenths has_tz ft zone tzflag now small early =
    let total : ft.high * 2 ^ 32 + ft.low < 2 ^ 64 = omega (arith, now, small, early) in
    let since : unix_microsecs ft ≡ us = omega (arith, now, small, early, total) in
    rw since (ground (arith, early))

-- ===== src/Platform/Time/Range.antt =====
-- What the conversions, the tolerance and the sleeps of include/corerat/platform/ do over the whole range.
use core_ra_t.Base.{
  ℕ, zero, suc, refl, ◌≢◌, ◌%◌, false, List, ◌+◌, ◌*◌, ◌/◌, ◌^◌, ◌<◌, ◌≤◌, ◌≡◌, ◌↔◌, ap, true, [],
  ◌∷◌, arith,
}
use core_ra_t.Base.Int.{ℤ, pos, negsuc}
use core_ra_t.Platform.Duration.{Duration, Timespec, nanoseconds}
use core_ra_t.Platform.Time.{
  to_uint64, to_int64, to_nanoseconds, from_nanoseconds, timestamp_of, SleepCall, diff,
  is_within_tolerance, usleep, report, nanosleep, sleep_until_time,
}
use core_ra_t.Platform.Time.Evl.{now, sleep, sleep_ns, sleep_until, is_eperm}

-- The difference of two timestamps is the distance between them, whichever is the later one.
pub is_within_tolerance_lem :
    (timestamp target tolerance : ℕ)
    → (is_within_tolerance timestamp target tolerance ≡ true)
      ↔ ((timestamp ≤ target + tolerance) × (target ≤ timestamp + tolerance))
unfolding is_within_tolerance diff
is_within_tolerance_lem timestamp target tolerance = ground arith

-- An int64_t.
abbrev pub IsInt64 : ℤ → Type 0
IsInt64 (pos n) = n < 2 ^ 63
IsInt64 (negsuc n) = n < 2 ^ 63

pub from-to_nanoseconds : (d : Duration) → IsInt64 d.ns → from_nanoseconds (to_nanoseconds d) ≡ d
unfolding from_nanoseconds to_nanoseconds to_int64 to_uint64
from-to_nanoseconds d h = ap nanoseconds (parts d.ns h)
  where
    parts : (n : ℤ) → IsInt64 n → to_int64 (to_uint64 n) ≡ n
    parts (pos n) h = ground (arith, h)
    parts (negsuc n) h = ground (arith, h)

is_eperm_other : (result : ℤ) → result ≢ negsuc 0 → is_eperm result ≡ false
unfolding is_eperm
is_eperm_other (pos k) other = refl
is_eperm_other (negsuc zero) other = absurd (other refl)
is_eperm_other (negsuc (suc k)) other = ground arith

-- A timespec is that of a number of nanoseconds: whole seconds, and less than one second.
abbrev pub IsTimespecOf : ℕ → ℕ → ℕ → Type 0
IsTimespecOf n sec nsec = (sec * 1000000000 + nsec ≡ n) × (nsec < 1000000000)

-- With a clock that reads `sec` seconds and `nsec` nanoseconds. A sleep of a time that is not positive
-- makes no call. One of a positive time of up to a second asks for the whole microseconds of it, so for
-- up to 999 nanoseconds less, where that call is not refused with -EPERM, and where it is, because the
-- thread is not attached, reports it and sleeps the time in full, in seconds and nanoseconds. A longer
-- one waits for the moment that is the time after now, whether the thread is attached or not.
pub sleep_lem :
    (sec nsec : ℕ) (result : ℤ) (n : ℕ)
    → 0 < n
    → n < 2 ^ 63
    → sec * 1000000000 + nsec + n < 2 ^ 64
    → let clock : Timespec = record { tv_sec = pos sec; tv_nsec = pos nsec } in
      let slept : ℤ → List SleepCall = λ ns. sleep clock result (nanoseconds ns) in
      (slept (pos 0) ≡ [])
      × ((k : ℕ) → slept (negsuc k) ≡ [])
      × (n ≤ 1000000000
          → (us s ns : ℕ) × (us * 1000 ≤ n)
            × (n < us * 1000 + 1000)
            × IsTimespecOf n s ns
            × (result ≢ negsuc 0 → slept (pos n) ≡ usleep us ∷ [])
            × (result ≡ negsuc 0
                → slept (pos n)
                  ≡ usleep us
                    ∷ report
                    ∷ nanosleep (record { tv_sec = pos s; tv_nsec = pos ns })
                    ∷ []))
      × (1000000000 < n
          → (s ns : ℕ) × IsTimespecOf (sec * 1000000000 + nsec + n) s ns
            × (slept (pos n) ≡ sleep_until_time (record { tv_sec = pos s; tv_nsec = pos ns }) ∷ []))
unfolding sleep sleep_ns sleep_until now timestamp_of to_nanoseconds to_uint64
sleep_lem sec nsec result n h small room = (
  ground arith,
  λ k. ground arith,
  λ short. (
    n / 1000,
    n / 1000000000,
    n % 1000000000,
    omega arith,
    omega arith,
    (omega arith, omega arith),
    λ other. ground (arith, h, small, short, is_eperm_other result other),
    λ refused. ground (arith, h, small, short, ap is_eperm refused),
  ),
  λ long. (
    (sec * 1000000000 + nsec + n) / 1000000000,
    (sec * 1000000000 + nsec + n) % 1000000000,
    (omega arith, omega arith),
    ground (arith, h, small, room, long),
  ),
)

-- ===== src/Platform/Time/Evl.antt =====
-- include/corerat/platform/evl/timestamp_impl.hpp: sleeping by the EVL core. The reading of its clock and
-- what evl_usleep returns are parameters.
use core_ra_t.Base.{
  ℕ, ◌+◌, ◌/◌, ◌%◌, ◌^◌, Bool, false, ◌||◌, List, [], ◌∷◌, leb, ◌==◌, if◌then◌else◌,
}
use core_ra_t.Base.Int.{ℤ, pos, negsuc}
use core_ra_t.Platform.Duration.{Duration, Timespec, is_zero, is_negative}
use core_ra_t.Platform.Time.{
  SleepCall, usleep, report, nanosleep, sleep_until_time, timestamp_of, to_nanoseconds,
}

unfoldable pub now : Timespec → ℕ
now clock = timestamp_of clock

-- A number of nanoseconds in seconds and nanoseconds.
abbrev pub timespec_of : ℕ → Timespec
timespec_of ns = record { tv_sec = pos (ns / 1000000000); tv_nsec = pos (ns % 1000000000) }

unfoldable pub sleep_until : ℕ → List SleepCall
sleep_until target = sleep_until_time (timespec_of target) ∷ []

-- -EPERM is -1.
unfoldable pub is_eperm : ℤ → Bool
is_eperm (pos n) = false
is_eperm (negsuc n) = n == 0

unfoldable pub sleep_ns : Timespec → ℤ → ℕ → List SleepCall
unfolding is_eperm
sleep_ns clock result ns =
    if ns == 0
    then []
    else if leb ns 1000000000
    then usleep (ns / 1000)
      ∷ (if is_eperm result then report ∷ nanosleep (timespec_of ns) ∷ [] else [])
    else sleep_until ((now clock + ns) % 2 ^ 64)

unfoldable pub sleep : Timespec → ℤ → Duration → List SleepCall
sleep clock result d =
    if is_zero d || is_negative d then [] else sleep_ns clock result (to_nanoseconds d)

-- ===== src/Platform/Time.antt =====
-- include/corerat/platform/: timestamps, the clocks and sleeping. A Timestamp is 64 bits wide. What the
-- clocks say is a parameter; a sleep is the calls of the system that it makes.
pub mod Std
pub mod Evl
pub mod Range
mod Tests
use core_ra_t.Base.{
  ℕ, suc, ◌+◌, ◌-◌, ◌*◌, ◌/◌, ◌%◌, ◌^◌, Bool, true, false, ◌||◌, Option, none, some, List, [], ◌∷◌,
  ltb, leb, ◌==◌, if◌then◌else◌,
}
use core_ra_t.Base.Int.{ℤ, pos, negsuc}
use core_ra_t.Platform.Duration.{Duration, Timespec, nanoseconds, is_zero, is_negative}

-- The casts between int64_t and uint64_t.
unfoldable pub to_uint64 : ℤ → ℕ
to_uint64 (pos n) = n % 2 ^ 64
to_uint64 (negsuc n) = 2 ^ 64 - 1 - n % 2 ^ 64

unfoldable pub to_int64 : ℕ → ℤ
to_int64 n = if ltb n (2 ^ 63) then pos n else negsuc (2 ^ 64 - 1 - n)

pub data ClockSource : Type 0 where
  system_clock steady_clock high_res_clock realtime_clock monotonic_clock : ClockSource

-- The clocks: nanoseconds since their epoch, and clock_gettime, which may fail.
pub record Clocks : Type 0 where
  pub system_ns : ℤ
  pub steady_ns : ℤ
  pub gettime_realtime : Option Timespec
  pub gettime_monotonic : Option Timespec

-- A timespec as a timestamp.
unfoldable pub timestamp_of : Timespec → ℕ
timestamp_of ts = (to_uint64 ts.tv_sec * 1000000000 + to_uint64 ts.tv_nsec) % 2 ^ 64

unfoldable pub posix_clock_now : Clocks → Option Timespec → ℕ
posix_clock_now clocks none = to_uint64 clocks.steady_ns
posix_clock_now clocks (some ts) = timestamp_of ts

unfoldable pub get_timestamp : Clocks → ClockSource → ℕ
get_timestamp clocks system_clock = to_uint64 clocks.system_ns
get_timestamp clocks steady_clock = to_uint64 clocks.steady_ns
get_timestamp clocks high_res_clock = to_uint64 clocks.steady_ns
get_timestamp clocks realtime_clock = posix_clock_now clocks clocks.gettime_realtime
get_timestamp clocks monotonic_clock = posix_clock_now clocks clocks.gettime_monotonic

-- The same on both platforms.
unfoldable pub to_nanoseconds : Duration → ℕ
to_nanoseconds d = to_uint64 d.ns

unfoldable pub from_nanoseconds : ℕ → Duration
from_nanoseconds n = nanoseconds (to_int64 n)

unfoldable pub milliseconds_to_ns : ℕ → ℕ
milliseconds_to_ns ms = ms * 1000000 % 2 ^ 64

unfoldable pub microseconds_to_ns : ℕ → ℕ
microseconds_to_ns us = us * 1000 % 2 ^ 64

unfoldable pub ns_to_milliseconds : ℕ → ℕ
ns_to_milliseconds ns = ns / 1000000

unfoldable pub ns_to_microseconds : ℕ → ℕ
ns_to_microseconds ns = ns / 1000

unfoldable pub diff : ℕ → ℕ → ℕ
diff t1 t2 = if ltb t2 t1 then t1 - t2 else t2 - t1

unfoldable pub is_within_tolerance : ℕ → ℕ → ℕ → Bool
unfolding diff
is_within_tolerance timestamp target tolerance = leb (diff timestamp target) tolerance

-- The calls that sleep, in order. std::this_thread::sleep_for takes signed nanoseconds.
pub data SleepCall : Type 0 where
  sleep_for : ℤ → SleepCall
  usleep : ℕ → SleepCall
  report : SleepCall
  nanosleep : Timespec → SleepCall
  sleep_until_time : Timespec → SleepCall

-- ===== src/Platform/Time/Tests.antt =====
-- Timestamps and sleeps on concrete numbers.
use core_ra_t.Base.{
  ℕ, ◌≢◌, List, ◌+◌, ◌*◌, ◌≤◌, ◌<◌, ◌≡◌, ◌↔◌, refl, true, none, some, [], ◌∷◌, arith,
}
use core_ra_t.Base.Int.{ℤ, pos, negsuc}
use core_ra_t.Platform.Duration.{Timespec, nanoseconds}
use core_ra_t.Platform.Time.{
  Clocks, SleepCall, monotonic_clock, timestamp_of, to_uint64, to_int64, posix_clock_now,
  get_timestamp, usleep, report, nanosleep, sleep_for, sleep_until_time, is_within_tolerance,
}
use core_ra_t.Platform.Time.Std as Std
use core_ra_t.Platform.Time.Evl.{sleep}
use core_ra_t.Platform.Time.Range.{IsTimespecOf, is_within_tolerance_lem, sleep_lem}

abbrev clocks : Clocks
clocks = record {
  system_ns = pos 7;
  steady_ns = pos 5;
  gettime_realtime = none;
  gettime_monotonic = some (record { tv_sec = pos 2; tv_nsec = pos 30 });
}

-- 1500000 nanoseconds are left.
std_sleep : Std.sleep_until clocks monotonic_clock 2001500030 ≡ sleep_for (pos 1500000) ∷ []
unfolding Std.sleep_until Std.now get_timestamp posix_clock_now timestamp_of to_uint64 to_int64
std_sleep = refl

abbrev clock : Timespec
clock = record { tv_sec = pos 2; tv_nsec = pos 30 }

is_within_tolerance_lem_example :
    (is_within_tolerance 7 12 5 ≡ true) ↔ ((7 ≤ 12 + 5) × (12 ≤ 7 + 5))
is_within_tolerance_lem_example = is_within_tolerance_lem 7 12 5

sleep_lem_example :
    let slept : ℤ → List SleepCall = λ ns. sleep clock (negsuc 0) (nanoseconds ns) in
    (slept (pos 0) ≡ [])
    × ((k : ℕ) → slept (negsuc k) ≡ [])
    × (2500 ≤ 1000000000
        → (us s ns : ℕ) × (us * 1000 ≤ 2500)
          × (2500 < us * 1000 + 1000)
          × IsTimespecOf 2500 s ns
          × (negsuc 0 ≢ negsuc 0 → slept (pos 2500) ≡ usleep us ∷ [])
          × (negsuc 0 ≡ negsuc 0
              → slept (pos 2500)
                ≡ usleep us
                  ∷ report
                  ∷ nanosleep (record { tv_sec = pos s; tv_nsec = pos ns })
                  ∷ []))
    × (1000000000 < 2500
        → (s ns : ℕ) × IsTimespecOf (2 * 1000000000 + 30 + 2500) s ns
          × (slept (pos 2500)
              ≡ sleep_until_time (record { tv_sec = pos s; tv_nsec = pos ns }) ∷ []))
sleep_lem_example = sleep_lem 2 30 (negsuc 0) 2500 (omega arith) (omega arith) (omega arith)

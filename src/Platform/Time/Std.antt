-- ===== src/Platform/Time/Std.antt =====
-- include/corerat/platform/std/timestamp_impl.hpp: sleeping by std::this_thread.
use core_ra_t.Base.{ℕ, ◌-◌, List, [], ◌∷◌, ltb, if◌then◌else◌}
use core_ra_t.Platform.Duration.{Duration}
use core_ra_t.Platform.Time.{SleepCall, sleep_for, to_int64, ClockSource, Clocks, get_timestamp}

unfoldable pub now : Clocks → ClockSource → ℕ
now clocks current_clock_source = get_timestamp clocks current_clock_source

unfoldable pub sleep : Duration → List SleepCall
sleep d = sleep_for d.ns ∷ []

unfoldable pub sleep_ns : ℕ → List SleepCall
sleep_ns ns = sleep_for (to_int64 ns) ∷ []

unfoldable pub sleep_until : Clocks → ClockSource → ℕ → List SleepCall
sleep_until clocks source target =
    let now_ts = now clocks source in
    if ltb now_ts target then sleep_for (to_int64 (target - now_ts)) ∷ [] else []

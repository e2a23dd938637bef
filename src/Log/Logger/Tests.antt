-- ===== src/Log/Logger/Tests.antt =====
-- Runs of the log ring of include/corerat/logging/rt_logger.hpp on concrete states.
use core_ra_t.Base.{◌≤◌, ◌≡◌, refl, true, false, List, [], ◌∷◌, ◌++◌, arith, length}
use core_ra_t.Log.Level.{debug, info}
use core_ra_t.Log.Logger.{
  RtLogEntry, init, is_full, fill, publish, is_empty, peek, advance, size_mod,
}
use core_ra_t.Log.Logger.Concurrent.{
  outside, passed, filled, looping, copied, stored, ended, System, checks, fills, publishes, copies,
  stores, dispatches, requests_stop, stops, Reach, here, next,
}
use core_ra_t.Log.Logger.Order.{IsRingSize}
use core_ra_t.Log.Logger.Fifo.{started, dispatched-prefix, flush_completes}

first : RtLogEntry
first = record { timestamp = 1; source_id = 3; level = info; message = 65 ∷ [] }

abbrev start : System
start = started 1 256 3 debug

size_one : IsRingSize 1
size_one = record {
  positive = omega arith;
  small = omega arith;
  divides = ∣ (size_mod, omega arith) ∣₁;
}

abbrev checked : System
checked = record start { writer = passed first }

abbrev written : System
written = record checked { writer = filled first; logger = fill checked.logger first }

abbrev committed_one : System
committed_one = record written {
  writer = outside;
  logger = publish written.logger;
  committed = first ∷ [];
}

-- One entry is committed.
commits_one : Reach start committed_one
unfolding init is_full fill
commits_one =
    next (next (next here (checks start first refl refl)) (fills checked first refl))
      (publishes written first refl)

abbrev stopping : System
stopping = record committed_one {
  logger = record committed_one.logger { drain_running = false };
  drain = looping true;
}

stops_one : Reach start stopping
unfolding fill publish
stops_one = next (next commits_one (requests_stop committed_one)) (
    stops (record committed_one { logger = record committed_one.logger { drain_running = false } })
      refl refl)

dispatched-prefix_example : (rest : List RtLogEntry) × (first ∷ [] ≡ [] ++ rest) × (length rest ≤ 2)
dispatched-prefix_example = dispatched-prefix 1 256 3 debug size_one committed_one commits_one

flush_completes_example :
    (t : System) × Reach stopping t
    × (t.drain ≡ ended)
    × (t.dispatched ≡ first ∷ [])
    × (t.committed ≡ first ∷ [])
flush_completes_example = flush_completes 1 256 3 debug size_one stopping stops_one refl

-- The flush loop takes the entry.
abbrev flushing : System
flushing = record stopping { drain = copied true (peek stopping.logger) }

abbrev storing : System
storing = record flushing {
  drain = stored true (peek stopping.logger);
  logger = advance flushing.logger;
}

abbrev flushed : System
flushed = record storing { drain = looping true; dispatched = peek stopping.logger ∷ [] }

flushes_one : Reach start flushed
unfolding init fill publish is_empty
flushes_one =
    next
      (next (next stops_one (copies stopping true refl refl))
        (stores flushing true (peek stopping.logger) refl))
      (dispatches storing true (peek stopping.logger) refl)

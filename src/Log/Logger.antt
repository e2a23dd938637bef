-- ===== src/Log/Logger.antt =====
-- include/corerat/logging/rt_logger.hpp: the ring of log entries between the real-time threads, which
-- commit under `ring_mutex_`, and the drain thread, which reads without it.
-- `head` and `tail` are size_t counters that wrap at 2 ^ 64. The functions below are the pieces of
-- `commit` and `drain_loop` between two atomic accesses; `Concurrent` interleaves them.
-- `append`, which belongs to the sertial library, is a parameter: from a string, its capacity and
-- the bytes to append it makes the new string.
pub mod Concurrent
pub mod Order
pub mod Preserve
pub mod Fifo
mod Tests
use core_ra_t.Base.{
  ℕ, ◌+◌, ◌-◌, ◌%◌, ◌^◌, Bool, true, false, Option, none, some, List, [], ◌∷◌, ◌++◌, map, get_or,
  set, length, replicate, leb, ltb, ◌==◌, if◌then◌else◌,
}
use core_ra_t.Log.Level.{LogLevel, debug}

pub record RtLogEntry : Type 0 where
  pub timestamp : ℕ
  pub source_id : ℕ
  pub level : LogLevel
  pub message : List ℕ

abbrev pub no_entry : RtLogEntry
no_entry = record { timestamp = 0; source_id = 0; level = debug; message = [] }

abbrev pub Append : Type 0
Append = List ℕ → ℕ → List ℕ → List ℕ

abbrev pub size_mod : ℕ
size_mod = 2 ^ 64

abbrev pub max_sinks : ℕ
max_sinks = 4

-- A sink is known by a number.
pub record RtLogger : Type 0 where
  pub ring_size : ℕ
  pub max_msg_len : ℕ
  pub ring : List RtLogEntry
  pub head : ℕ
  pub tail : ℕ
  pub source_id : ℕ
  pub level : LogLevel
  pub sinks : List ℕ
  pub drain_running : Bool

pub init : ℕ → ℕ → ℕ → LogLevel → RtLogger
init ring_size max_msg_len source_id min_level = record {
  ring_size = ring_size;
  max_msg_len = max_msg_len;
  ring = replicate ring_size no_entry;
  head = 0;
  tail = 0;
  source_id = source_id;
  level = min_level;
  sinks = [];
  drain_running = false;
}

-- `head_ - tail_ >= RingSize`, in size_t.
pub is_full : RtLogger → Bool
is_full l = leb l.ring_size ((l.head + size_mod - l.tail) % size_mod)

pub make_entry : Append → RtLogger → LogLevel → List ℕ → ℕ → RtLogEntry
make_entry append l lvl msg now = record {
  timestamp = now;
  source_id = l.source_id;
  level = lvl;
  message = append [] l.max_msg_len msg;
}

-- `head_ & (RingSize - 1)` is the remainder, for a power of two.
pub fill : RtLogger → RtLogEntry → RtLogger
fill l e = record l { ring = set l.ring (l.head % l.ring_size) e }

pub publish : RtLogger → RtLogger
publish l = record l { head = (l.head + 1) % size_mod }

unfoldable pub commit : Append → RtLogger → LogLevel → List ℕ → ℕ → RtLogger
unfolding is_full fill publish make_entry
commit append l lvl msg now =
    if is_full l then l else publish (fill l (make_entry append l lvl msg now))

pub add_sink : RtLogger → Option ℕ → RtLogger
add_sink l none = l
add_sink l (some sink) =
    if ltb (length l.sinks) max_sinks then record l { sinks = l.sinks ++ (sink ∷ []) } else l

-- Whether the drain thread has to be started, or joined.
pub start_drain : RtLogger → Bool × RtLogger
start_drain l = if l.drain_running then (false, l) else (true, record l { drain_running = true })

pub stop_drain : RtLogger → Bool × RtLogger
stop_drain l = if l.drain_running then (true, record l { drain_running = false }) else (false, l)

pub set_level : RtLogger → LogLevel → RtLogger
set_level l lvl = record l { level = lvl }

-- `head_ == tail_`.
pub is_empty : RtLogger → Bool
is_empty l = l.head == l.tail

-- `ring_[t & (RingSize - 1)]` at `t = tail_`.
pub peek : RtLogger → RtLogEntry
peek l = get_or l.ring (l.tail % l.ring_size) no_entry

-- `tail_.store(t + 1)`.
pub advance : RtLogger → RtLogger
advance l = record l { tail = (l.tail + 1) % size_mod }

-- What each sink is given: a copy of the entry in a string of capacity 256.
pub dispatch : Append → RtLogger → RtLogEntry → List (ℕ × RtLogEntry)
dispatch append l e = map (λ sink. (sink, record e { message = append [] 256 e.message })) l.sinks

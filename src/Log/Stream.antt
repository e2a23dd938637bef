-- ===== src/Log/Stream.antt =====
-- include/corerat/logging/rt_log_stream.hpp: the chain of `<<` that builds a log record and commits it
-- when the stream goes.
-- How an item is put at the end of a string of a capacity belongs to the sertial library; it is the
-- parameter `append_item`.
use core_ra_t.Base.{ℕ, ◌≡◌, arith, Bool, List, [], ◌∷◌, if◌then◌else◌}
use core_ra_t.Base.Int.{ℤ}
use core_ra_t.Log.Level.{LogLevel, level_le}
use core_ra_t.Log.Logger.{RtLogger, Append, commit}

-- What the library is given to append.
pub data Item : Type 0 where
  chars : List ℕ → Item
  signed : ℤ → Item
  unsigned : ℕ → Item
  single : ℕ → Item
  double : ℕ → Item
  truth : Bool → Item
  hex : ℕ → Bool → Item

-- What a program gives the stream. A number in floating point is known by its bits.
pub data Operand : Type 0 where
  of_chars : List ℕ → Operand
  of_int32 : ℤ → Operand
  of_uint32 : ℕ → Operand
  of_int64 : ℤ → Operand
  of_uint64 : ℕ → Operand
  of_float : ℕ → Operand
  of_double : ℕ → Operand
  of_bool : Bool → Operand
  of_hex : ℕ → Bool → Operand
  of_hex32 : ℕ → Bool → Operand
  of_fixed_string : List ℕ → Operand

abbrev pub item_of : Operand → Item
item_of (of_chars s) = chars s
item_of (of_int32 v) = signed v
item_of (of_uint32 v) = unsigned v
item_of (of_int64 v) = signed v
item_of (of_uint64 v) = unsigned v
item_of (of_float v) = single v
item_of (of_double v) = double v
item_of (of_bool v) = truth v
item_of (of_hex v p) = hex v p
item_of (of_hex32 v p) = hex v p
item_of (of_fixed_string s) = chars s

pub record RtLogStream : Type 0 where
  pub level : LogLevel
  pub active : Bool
  pub buf : List ℕ

unfoldable pub open_stream : RtLogger → LogLevel → RtLogStream
open_stream l lvl = record { level = lvl; active = level_le lvl l.level; buf = [] }

module _ (append_item : ℕ → List ℕ → Item → List ℕ) (max_msg_len : ℕ) where
  -- `operator<<`.
  unfoldable pub push : RtLogStream → Operand → RtLogStream
  push s v = if s.active then record s { buf = append_item max_msg_len s.buf (item_of v) } else s

  -- A chain of them.
  unfoldable pub push_all : RtLogStream → List Operand → RtLogStream
  push_all s [] = s
  push_all s (v ∷ vs) = push_all (push s v) vs

  -- The destructor, at the time `now`; the logger is the one at that time.
  unfoldable pub close_stream : Append → RtLogger → RtLogStream → ℕ → RtLogger
  close_stream append l s now = if s.active then commit append l s.level s.buf now else l

  -- The string that the items make.
  unfoldable pub message_of : List ℕ → List Operand → List ℕ
  message_of buf [] = buf
  message_of buf (v ∷ vs) = message_of (append_item max_msg_len buf (item_of v)) vs

  push_all_lem :
      (s : RtLogStream) (vs : List Operand)
      → push_all s vs ≡ (if s.active then record s { buf = message_of s.buf vs } else s)
  unfolding push_all push message_of
  push_all_lem s [] = ground arith
  push_all_lem s (v ∷ vs) = ground (arith, push_all_lem (push s v) vs)

  -- A log statement, whatever happens to the logger while its chain runs: a record of a level that the
  -- logger had let through when the chain began is committed once, with the string that the items make
  -- in their order, and otherwise nothing is done to the logger.
  pub close_stream_lem :
      (append : Append) (l l' : RtLogger) (lvl : LogLevel) (vs : List Operand) (now : ℕ)
      → close_stream append l' (push_all (open_stream l lvl) vs) now
        ≡ (if level_le lvl l.level then commit append l' lvl (message_of [] vs) now else l')
  unfolding close_stream open_stream
  close_stream_lem append l l' lvl vs now = ground (arith, push_all_lem (open_stream l lvl) vs)

-- ===== src/Log/Sink.antt =====
-- include/corerat/logging/log_sink.hpp: the sinks that the drain thread writes entries to.
-- Parameter: whether the socket takes what is sent.
use Prim.Native.String.{String}
use core_ra_t.Base.{
  ℕ, ◌+◌, ◌*◌, ◌-◌, ◌/◌, ◌%◌, ◌^◌, ◌<◌, ◌≡◌, refl, ◌∙◌, arith, Bool, false, not, ◌||◌, Option, none,
  some, List, [], ◌∷◌, ◌++◌, length, if◌then◌else◌,
}
use core_ra_t.Base.Int.{ℤ, pos, negsuc}
use core_ra_t.Log.Level.{
  LogLevel, level_le, level_string, to_gdos_type, fatal, error, warn, info, debug, trace,
}
use core_ra_t.Log.Logger.{RtLogEntry}
use core_ra_t.Message.Wire.{WireHeader, header_bytes}
use core_ra_t.Tims.Protocol.{
  FrameHeader, frame_of_bytes, u32_of_bytes, u32_round_trip, msg_error, byte_int8,
}

-- The parts of the line that TerminalSink prints.
pub record Line : Type 0 where
  pub color : String
  pub hour : ℕ
  pub minute : ℕ
  pub second : ℕ
  pub millisecond : ℕ
  pub level : String
  pub source_id : ℕ
  pub message : List ℕ

unfoldable pub color_for : LogLevel → String
color_for fatal = "1;31"
color_for error = "0;31"
color_for warn = "0;33"
color_for info = "0;32"
color_for debug = "0;36"
color_for trace = "0;37"

-- `TerminalSink::write`: the line, or none. The colour is given without its escape characters.
unfoldable pub terminal_write : LogLevel → RtLogEntry → Option Line
terminal_write min_level e =
    let ts_ms = e.timestamp / 1000000 in
    let ts_s = ts_ms / 1000 in
    if not (level_le e.level min_level)
    then none
    else some (record {
      color = color_for e.level;
      hour = ts_s / 3600 % 24;
      minute = ts_s / 60 % 60;
      second = ts_s % 60;
      millisecond = ts_ms % 1000;
      level = level_string e.level;
      source_id = e.source_id;
      message = e.message;
    })

abbrev pub gdos_mailbox : ℕ
gdos_mailbox = 0x0C000000

abbrev pub head_len : ℕ
head_len = 32

-- `static_cast<uint32_t>` of an `int8_t`, sign-extended.
abbrev pub to_uint32 : ℤ → ℕ
to_uint32 (pos n) = n % 2 ^ 32
to_uint32 (negsuc n) = 2 ^ 32 - 1 - n

-- The head of `TimsSink::write`, written field by field at the offsets of a WireHeader.
unfoldable pub gdos_header : ℕ → RtLogEntry → WireHeader
gdos_header src_id e = record {
  msg_type = to_uint32 (to_gdos_type e.level);
  msg_size = (head_len + (length e.message + 1)) % 2 ^ 32;
  timestamp = e.timestamp;
  seq_number = 0;
  dest = gdos_mailbox;
  src = src_id;
  flags = 0;
}

-- `TimsSink::write`: what goes out on a socket that takes the head or not, and the text or not.
unfoldable pub tims_write : LogLevel → Bool → ℕ → Bool → Bool → RtLogEntry → List ℕ
tims_write min_level is_open src_id head_taken text_taken e =
    if not (level_le e.level min_level) || not is_open
    then []
    else if not head_taken
    then []
    else header_bytes (gdos_header src_id e) ++ (if text_taken then e.message ++ (0 ∷ []) else [])

time_of_day :
    (n : ℕ)
    → n / 1000 / 3600 % 24 * 3600000 + n / 1000 / 60 % 60 * 60000 + n / 1000 % 60 * 1000 + n % 1000
      ≡ n % 86400000
time_of_day n = omega (arith)

-- The line shows the time of day in UTC: hours, minutes, seconds and milliseconds in their ranges that
-- together are the milliseconds since midnight. An entry less severe than the sink's level has no line.
pub terminal_write_lem :
    (min_level : LogLevel) (e : RtLogEntry)
    → (level_le e.level min_level ≡ false → terminal_write min_level e ≡ none)
      × ((line : Line)
          → terminal_write min_level e ≡ some line
          → (line.hour < 24)
            × (line.minute < 60)
            × (line.second < 60)
            × (line.millisecond < 1000)
            × (line.hour * 3600000 + line.minute * 60000 + line.second * 1000 + line.millisecond
                ≡ e.timestamp / 1000000 % 86400000))
unfolding terminal_write
terminal_write_lem min_level e =
    (λ h. ground (arith, h), λ line h. ground (arith, h, time_of_day (e.timestamp / 1000000)))

gdos_type_byte : (lvl : LogLevel) → byte_int8 (to_uint32 (to_gdos_type lvl) / 256 % 256) ≡ msg_error
unfolding to_gdos_type
gdos_type_byte fatal = refl
gdos_type_byte error = refl
gdos_type_byte warn = refl
gdos_type_byte info = refl
gdos_type_byte debug = refl
gdos_type_byte trace = refl

-- A router that reads the message of a TimsSink reads its first 16 bytes as a frame header: of type
-- MSG_ERROR, for the mailbox whose id is the size of the message, and not for the GDOS mailbox.
pub tims_write-frame :
    (src_id : ℕ) (e : RtLogEntry) (text : List ℕ)
    → length e.message + 33 < 2 ^ 32
    → (f : FrameHeader) × (frame_of_bytes (header_bytes (gdos_header src_id e) ++ text) ≡ some f)
      × (f.type ≡ msg_error)
      × (f.dest ≡ length e.message + 33)
unfolding frame_of_bytes header_bytes gdos_header
tims_write-frame src_id e text h =
    let t = to_uint32 (to_gdos_type e.level) in
    let n = (head_len + (length e.message + 1)) % 2 ^ 32 in
    let s = e.timestamp in
    let size : n ≡ length e.message + 33 = omega (arith, h) in
    (
      record {
        flags = t % 256;
        type = byte_int8 (t / 2 ^ 8 % 256);
        priority = t / 2 ^ 16 % 256;
        seq_nr = t / 2 ^ 24 % 256;
        dest = u32_of_bytes (n % 256) (n / 2 ^ 8 % 256) (n / 2 ^ 16 % 256) (n / 2 ^ 24 % 256);
        src = u32_of_bytes (s % 256) (s / 2 ^ 8 % 256) (s / 2 ^ 16 % 256) (s / 2 ^ 24 % 256);
        msglen =
            u32_of_bytes (s / 2 ^ 32 % 256) (s / 2 ^ 40 % 256) (s / 2 ^ 48 % 256)
              (s / 2 ^ 56 % 256);
      },
      refl,
      gdos_type_byte e.level,
      u32_round_trip n (omega (arith)) ∙ size,
    )

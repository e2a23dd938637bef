-- ===== src/Log/Level.antt =====
-- include/corerat/logging/log_level.hpp: the severity levels and their GDOS message types.
use Prim.Native.String.{String}
use core_ra_t.Base.{ℕ, Bool, leb}
use core_ra_t.Base.Int.{ℤ, negsuc}

pub data LogLevel : Type 0 where
  fatal error warn info debug trace : LogLevel

-- The underlying value.
abbrev pub level_value : LogLevel → ℕ
level_value fatal = 0
level_value error = 1
level_value warn = 2
level_value info = 3
level_value debug = 4
level_value trace = 5

abbrev pub level_le : LogLevel → LogLevel → Bool
level_le a b = leb (level_value a) (level_value b)

-- `negsuc n` is -(n + 1): -124 down to -128.
unfoldable pub to_gdos_type : LogLevel → ℤ
to_gdos_type fatal = negsuc 123
to_gdos_type error = negsuc 124
to_gdos_type warn = negsuc 125
to_gdos_type info = negsuc 126
to_gdos_type _ = negsuc 127

unfoldable pub level_string : LogLevel → String
level_string fatal = "FATAL"
level_string error = "ERROR"
level_string warn = "WARN "
level_string info = "INFO "
level_string debug = "DEBUG"
level_string trace = "TRACE"

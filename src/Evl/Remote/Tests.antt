-- ===== src/Evl/Remote/Tests.antt =====
-- A run of the cache of remote handles of include/corerat/ipc/evl/evl_backend.hpp.
use core_ra_t.Base.{true, [], ◌∷◌}
use core_ra_t.Evl.Remote.{RemoteHandles}

-- Two handles, both open, the second used less recently.
abbrev full_cache : RemoteHandles
full_cache = record {
  handles =
      record { dest_id = 7; valid = true; last_used = 5 }
      ∷ record { dest_id = 9; valid = true; last_used = 3 }
      ∷ [];
  lru_counter = 5;
}

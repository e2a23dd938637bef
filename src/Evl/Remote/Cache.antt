-- ===== src/Evl/Remote/Cache.antt =====
-- What the cache of remote handles does on a hit, on a miss with a free handle, and when it is full.
use core_ra_t.Base.{ℕ, ◌+◌, ◌%◌, ◌^◌, ◌<◌, ◌≤◌, ◌≡◌, ◌≢◌, ◌⊎◌, true, false, set, length}
use core_ra_t.Evl.Remote.{RemoteHandle, RemoteHandles, closed_handle, handle_at}
use core_ra_t.Evl.Remote.Search.{IsFor}

-- No handle is open for the destination.
abbrev pub NotCached : RemoteHandles → ℕ → Type 0
NotCached c dest = (d : ℕ) → ¬ IsFor (handle_at c d) dest

-- Every handle is open, and none was used less recently than the one at `w`.
abbrev pub IsOldest : RemoteHandles → ℕ → Type 0
IsOldest c w =
    ((d : ℕ) → d < length c.handles → (handle_at c d).valid ≡ true)
    × ((d : ℕ) → d < length c.handles → (handle_at c w).last_used ≤ (handle_at c d).last_used)

-- The handle that a destination may be given.
abbrev pub MayUse : RemoteHandles → ℕ → ℕ → Type 0
MayUse c dest w =
    IsFor (handle_at c w) dest
    ⊎ (NotCached c dest × (((handle_at c w).valid ≡ false) ⊎ IsOldest c w))

-- The handle at `w` is open for the destination and was used last, and the others are as before.
pub record Opened (c : RemoteHandles) (dest w : ℕ) (q : RemoteHandles) : Type 0 where
  pub in_range : w < length c.handles
  pub may_use : MayUse c dest w
  pub opened_handle :
      handle_at q w
      ≡ record { dest_id = dest; valid = true; last_used = (c.lru_counter + 1) % 2 ^ 64 }
  pub counter : q.lru_counter ≡ (c.lru_counter + 1) % 2 ^ 64
  pub others : (d : ℕ) → w ≢ d → handle_at q d ≡ handle_at c d

-- No handle was opened: nothing changed, or every handle was open and the one used least recently is
-- closed.
abbrev pub Refused : RemoteHandles → ℕ → RemoteHandles → Type 0
Refused c dest q =
    NotCached c dest
    × ((q ≡ c)
        ⊎ ((w : ℕ) × IsOldest c w
            × (handle_at q w ≡ closed_handle)
            × ((d : ℕ) → w ≢ d → handle_at q d ≡ handle_at c d)))

module _ (c : RemoteHandles) (dest w : ℕ) (lt : w < length c.handles) where
  used_handle : ℕ → RemoteHandle
  used_handle n = record { dest_id = dest; valid = true; last_used = n }

module _ (c : RemoteHandles) (dest : ℕ) (some_handle : 0 < length c.handles) where
  -- A full cache after the handle at `w` is closed.
  closed : ℕ → RemoteHandles
  closed w = record c { handles = set c.handles w closed_handle }

  opening : RemoteHandle → RemoteHandle
  opening h = record h { dest_id = dest; valid = true }

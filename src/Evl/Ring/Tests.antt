-- ===== src/Evl/Ring/Tests.antt =====
-- Runs of the mailbox ring of include/corerat/ipc/evl/evl_backend.hpp on concrete rings.
use core_ra_t.Base.{
  none, ap, zero, suc, get_or-replicate, ℕ, ◌<◌, ◌≤◌, ◌≡◌, refl, ◌⊎◌, true, false, some, List, [],
  ◌∷◌, arith, ltb, if◌then◌else◌,
}
use core_ra_t.Base.Int.{ℤ, pos}
use core_ra_t.Evl.Ring.{
  free_meta, SlotMeta, Ring, meta_at, too_big, taken, allocate_ring, post, take_highest,
}
use core_ra_t.Evl.Ring.Valid.{IsValid, allocate_ring-IsValid, slot_bytes}
use core_ra_t.Evl.Ring.Post.{Posted, OthersKept, MayRefuse, freed, post_lem}
use core_ra_t.Evl.Ring.Take.{IsHighest, NoneInUse, take_lem}
use core_ra_t.Evl.Ring.Overflow.{post_overflow}
use core_ra_t.Evl.Ring.RoundTrip.{post-take}

abbrev message : List ℕ
message = 1 ∷ 2 ∷ 3 ∷ []

abbrev empty_ring : Ring
empty_ring = allocate_ring 4 16

nothing_waits : NoneInUse empty_ring
unfolding allocate_ring
nothing_waits d lt = ap (λ (m : SlotMeta). m.in_use) (get_or-replicate 4 d free_meta)

post_lem_example :
    ((post empty_ring message (pos 5) 9 ≡ some (false, empty_ring)) × MayRefuse empty_ring (pos 5))
    ⊎ ((idx : ℕ) × (u : Ring) × (post empty_ring message (pos 5) 9 ≡ some (true, u))
        × Posted empty_ring message (pos 5) 9 idx u
        × OthersKept empty_ring idx u)
unfolding allocate_ring
post_lem_example =
    post_lem empty_ring message (pos 5) 9 (allocate_ring-IsValid 4 16) (omega arith) (omega arith)

post-take_example :
    (u : Ring) × (w : Ring) × (post empty_ring message (pos 5) 9 ≡ some (true, u))
    × (take_highest u 16
        ≡ taken (record { priority = pos 5; in_use = true; src = 9; size = 3 }) message w)
    × NoneInUse w
    × IsValid w
unfolding allocate_ring
post-take_example =
    post-take empty_ring message 9 (allocate_ring-IsValid 4 16) nothing_waits (omega arith)
      (omega arith) (pos 5) 16 refl (omega arith)

-- Two slots, the first with a message of the given priority.
abbrev one_message : ℤ → Ring
one_message p = record {
  capacity = 2;
  slot_size = 4;
  meta = record { priority = p; in_use = true; src = 9; size = 3 } ∷ free_meta ∷ [];
  heap = 1 ∷ 2 ∷ 3 ∷ 0 ∷ 0 ∷ 0 ∷ 0 ∷ 0 ∷ [];
}

one_message-IsValid : (p : ℤ) → IsValid (one_message p)
one_message-IsValid p = record { metas = refl; memory = refl; sizes = size_le }
  where
    size_le :
        (d : ℕ)
        → d < 2
        → (meta_at (one_message p) d).in_use ≡ true
        → (meta_at (one_message p) d).size ≤ 4
    size_le zero lt u = omega arith
    size_le (suc zero) lt u = omega arith
    size_le (suc (suc d)) lt u = absurd (omega arith)

take_lem_example :
    (idx : ℕ) × IsHighest (one_message (pos 5)) idx
    × (take_highest (one_message (pos 5)) 16 ≡ (
        if ltb 16 (meta_at (one_message (pos 5)) idx).size
        then too_big
        else taken
            (meta_at (one_message (pos 5)) idx)
            (slot_bytes (one_message (pos 5)) idx)
            (freed (one_message (pos 5)) idx)))
take_lem_example =
    take_lem (one_message (pos 5)) 16 0 (one_message-IsValid (pos 5)) (omega arith) refl refl

abbrev long_message : List ℕ
long_message = 1 ∷ 2 ∷ 3 ∷ 4 ∷ 5 ∷ []

post_overflow_example : post (allocate_ring 2 2) long_message (pos 5) 9 ≡ none
unfolding allocate_ring
post_overflow_example =
    post_overflow (allocate_ring 2 2) long_message (pos 5) 9 (allocate_ring-IsValid 2 2)
      (λ d lt. ap (λ (m : SlotMeta). m.in_use) (get_or-replicate 2 d free_meta)) (omega arith)
      (omega arith)

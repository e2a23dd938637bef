-- ===== src/Evl/Ring/Overflow.antt =====
-- A message that is larger than the memory of the ring.
use core_ra_t.Base.{ℕ, ◌*◌, ◌<◌, ◌≡◌, none, some, List, [], ◌∷◌, arith, length, false}
use core_ra_t.Base.Int.{ℤ}
use core_ra_t.Evl.Ring.{
  SlotMeta, Ring, free_loop, find_free_slot, choose_slot, fill_slot, post, meta_at,
}
use core_ra_t.Evl.Ring.Valid.{IsValid}
use core_ra_t.Evl.Ring.Take.{NoneInUse}

-- In a well-formed ring with at least one slot and no message, `post` does not look at the size of a
-- message: one that is larger than all slots together is copied beyond the end of the memory.
pub post_overflow :
    (r : Ring) (bytes : List ℕ) (p : ℤ) (src : ℕ)
    → IsValid r
    → NoneInUse r
    → 0 < r.capacity
    → r.capacity * r.slot_size < length bytes
    → post r bytes p src ≡ none
unfolding post choose_slot find_free_slot fill_slot
post_overflow r bytes p src v free some_slot big =
    ground
      (arith, first r.meta (omega (arith, v.metas, some_slot)) (free 0 some_slot), v.memory, big)
  where
    first :
        (ms : List SlotMeta)
        → 0 < length ms
        → (meta_at (record r { meta = ms }) 0).in_use ≡ false
        → free_loop ms 0 ≡ some 0
    first [] lt e = absurd (omega arith)
    first (m ∷ ms) lt e = ground (arith, e)

-- ===== src/Evl/Ring/Remote.antt =====
-- post_to_remote of include/corerat/ipc/evl/evl_backend.hpp: the post into the ring of another process.
-- Its search for a free slot, and its search for the slot to evict, are those of `post`, written out
-- again over the mapped memory.
use core_ra_t.Base.{
  ℕ, ◌≤◌, ◌≡◌, ap, ◌⊎◌, Bool, true, false, Option, none, some, List, arith, length, take, take_all,
  length-take,
}
use core_ra_t.Base.Int.{ℤ}
use core_ra_t.Evl.Ring.{Ring, choose_slot, fill_slot, post}
use core_ra_t.Evl.Ring.Valid.{IsValid}
use core_ra_t.Evl.Ring.Post.{MayRefuse, Posted, post-Posted}

-- At most `slot_size` bytes are copied.
pub post_to_remote : Ring → List ℕ → ℤ → ℕ → Option (Bool × Ring)
unfolding choose_slot fill_slot
post_to_remote r bytes priority src = elim (choose_slot r priority) [
  | none ↦ some (false, r)
  | some (idx, r') ↦ elim (fill_slot r' idx (take r.slot_size bytes) priority src) [
    | none ↦ none
    | some r'' ↦ some (true, r'')
  ]
]

-- In a well-formed ring, a message of any size: the post to a remote ring is that of its first
-- `slot_size` bytes, and never leaves the memory. It refuses as `post` does, or puts these bytes into a
-- slot that `post` may take. A message that fits a slot is treated as `post` treats it.
pub post_to_remote_lem :
    (r : Ring) (bytes : List ℕ) (p : ℤ) (src : ℕ)
    → IsValid r
    → (((post_to_remote r bytes p src ≡ some (false, r)) × MayRefuse r p)
        ⊎ ((idx : ℕ) × (u : Ring) × (post_to_remote r bytes p src ≡ some (true, u))
            × Posted r (take r.slot_size bytes) p src idx u))
      × (length bytes ≤ r.slot_size → post_to_remote r bytes p src ≡ post r bytes p src)
unfolding post_to_remote post
post_to_remote_lem r bytes p src v = (
  post-Posted r (take r.slot_size bytes) p src v (omega (arith, length-take r.slot_size bytes)),
  λ fits. ap (λ xs. post r xs p src) (take_all r.slot_size bytes fits),
)

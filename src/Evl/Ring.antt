-- ===== src/Evl/Ring.antt =====
-- The mailbox ring of include/corerat/ipc/evl/evl_backend.hpp: `capacity` slots of `slot_size` bytes,
-- each with a SlotMeta, in heap memory or in a shared memory region. The EVL mutex serialises the
-- operations, so each is one step here; its events only wake the reader.
-- A memory access outside the slots, which C++ leaves undefined, is a fault, the value `none`.
pub mod Search
pub mod Valid
pub mod Post
pub mod Take
pub mod RoundTrip
pub mod Overflow
pub mod Remote
mod Tests
use core_ra_t.Base.{
  ℕ, zero, suc, ◌+◌, ◌*◌, ◌-◌, ◌%◌, ◌^◌, ◌≤◌, Bool, true, false, not, ◌&&◌, Option, none, some,
  List, [], ◌∷◌, get_or, set, length, replicate, leb, ltb, if◌then◌else◌,
}
use core_ra_t.Base.Int.{ℤ, pos, negsuc, ltb_ℤ}
use core_ra_t.Base.Bytes.{read_bytes, write_bytes}

pub record SlotMeta : Type 0 where
  pub priority : ℤ
  pub in_use : Bool
  pub src : ℕ
  pub size : ℕ

abbrev pub free_meta : SlotMeta
free_meta = record { priority = pos 0; in_use = false; src = 0; size = 0 }

-- The meta array and the payload memory, `capacity * slot_size` bytes.
pub record Ring : Type 0 where
  pub capacity : ℕ
  pub slot_size : ℕ
  pub meta : List SlotMeta
  pub heap : List ℕ

-- The bytes of a shared memory region: the header, the meta array (12 bytes an entry), the payloads.
pub shm_total : ℕ → ℕ → ℕ
shm_total cap slot_sz = 16 + cap * 12 + cap * slot_sz

-- INT8_MIN and INT8_MAX.
abbrev pub int8_min : ℤ
int8_min = negsuc 127

abbrev pub int8_max : ℤ
int8_max = pos 127

-- `static_cast<int8_t>`.
pub to_int8 : ℕ → ℤ
to_int8 p = if ltb (p % 256) 128 then pos (p % 256) else negsuc (255 - p % 256)

unfoldable pub allocate_ring : ℕ → ℕ → Ring
allocate_ring slots slot_size = record {
  capacity = slots;
  slot_size = slot_size;
  meta = replicate slots free_meta;
  heap = replicate (slots * slot_size) 0;
}

-- The loops over the slots, over the meta entries from index `i` on; -1 is `none`.
pub free_loop : List SlotMeta → ℕ → Option ℕ
free_loop [] i = none
free_loop (m ∷ ms) i = if not m.in_use then some i else free_loop ms (suc i)

pub find_free_slot : Ring → Option ℕ
unfolding free_loop
find_free_slot r = free_loop r.meta 0

unfoldable pub in_use_loop : List SlotMeta → Bool
in_use_loop [] = false
in_use_loop (m ∷ ms) = if m.in_use then true else in_use_loop ms

unfoldable pub has_in_use_slot : Ring → Bool
unfolding in_use_loop
has_in_use_slot r = in_use_loop r.meta

pub highest_loop : List SlotMeta → ℕ → Option ℕ → ℤ → Option ℕ
highest_loop [] i best prio = best
highest_loop (m ∷ ms) i best prio =
    let better = m.in_use && ltb_ℤ prio m.priority in
    highest_loop ms (suc i) (if better then some i else best) (if better then m.priority else prio)

pub find_highest_priority_slot : Ring → Option ℕ
unfolding highest_loop
find_highest_priority_slot r = highest_loop r.meta 0 none int8_min

pub lowest_loop : List SlotMeta → ℕ → Option ℕ → ℤ → Option ℕ × ℤ
lowest_loop [] i worst prio = (worst, prio)
lowest_loop (m ∷ ms) i worst prio =
    let lower = m.in_use && ltb_ℤ m.priority prio in
    lowest_loop ms (suc i) (if lower then some i else worst) (if lower then m.priority else prio)

abbrev pub meta_at : Ring → ℕ → SlotMeta
meta_at r i = get_or r.meta i free_meta

-- The slot to evict for a message of the given priority, and the ring with that slot freed.
pub evict_lowest : Ring → ℤ → Option (ℕ × Ring)
unfolding lowest_loop
evict_lowest r prio_new =
    let (worst, prio) = lowest_loop r.meta 0 none int8_max in
    elim worst [
      | none ↦ none
      | some w ↦
          if ltb_ℤ prio_new prio
          then none
          else some (w, record r { meta = set r.meta w (record (meta_at r w) { in_use = false }) })
    ]

-- The slot that `post` writes.
pub choose_slot : Ring → ℤ → Option (ℕ × Ring)
unfolding find_free_slot evict_lowest
choose_slot r priority = elim (find_free_slot r) [
  | some idx ↦ some (idx, r)
  | none ↦ evict_lowest r priority
]

-- Where `slot_ptr` finds a slot: its offset in the payload memory is computed on 32 bits.
abbrev pub slot_offset : Ring → ℕ → ℕ
slot_offset r idx = idx * r.slot_size % 2 ^ 32

-- `memcpy` of a message into a slot, and the write of its meta entry.
pub fill_slot : Ring → ℕ → List ℕ → ℤ → ℕ → Option Ring
fill_slot r idx bytes priority src =
    if leb (slot_offset r idx + length bytes) (length r.heap)
    then some (record r {
      heap = write_bytes r.heap (slot_offset r idx) bytes;
      meta =
          set r.meta idx
            (record { priority = priority; in_use = true; src = src; size = length bytes });
    })
    else none

-- Whether the message was posted, and the ring after; `none` where the copy leaves the memory.
pub post : Ring → List ℕ → ℤ → ℕ → Option (Bool × Ring)
unfolding choose_slot fill_slot
post r bytes priority src = elim (choose_slot r priority) [
  | none ↦ some (false, r)
  | some (idx, r') ↦ elim (fill_slot r' idx bytes priority src) [
    | none ↦ none
    | some r'' ↦ some (true, r'')
  ]
]

-- What a receiver does with the ring once it holds the mutex: it waits, it fails, or it takes a
-- message. `no_slot` is a read through index -1.
pub data Taken : Type 0 where
  waits : Taken
  no_slot : Taken
  too_big : Taken
  taken : SlotMeta → List ℕ → Ring → Taken

pub take_highest : Ring → ℕ → Taken
unfolding has_in_use_slot find_highest_priority_slot
take_highest r buffer_size =
    if not (has_in_use_slot r) then waits else (elim (find_highest_priority_slot r) [
      | none ↦ no_slot
      | some idx ↦
          if ltb buffer_size (meta_at r idx).size
          then too_big
          else taken (meta_at r idx) (read_bytes r.heap (slot_offset r idx) (meta_at r idx).size)
              (record r { meta = set r.meta idx (record (meta_at r idx) { in_use = false }) })
    ])

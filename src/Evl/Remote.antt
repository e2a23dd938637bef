-- ===== src/Evl/Remote.antt =====
-- The cache of remote handles of include/corerat/ipc/evl/evl_backend.hpp, through which a public
-- mailbox posts into the rings of other processes.
-- A handle stands for the mapping and the EVL objects of one mailbox; whether they can be opened is
-- the operating system's answer, the argument `opened`.
pub mod Search
pub mod Cache
mod Tests
use core_ra_t.Base.{
  ℕ, zero, suc, ◌+◌, ◌%◌, ◌^◌, Bool, true, false, not, ◌&&◌, Option, none, some, List, [], ◌∷◌,
  get_or, set, length, replicate, ltb, ◌==◌, if◌then◌else◌,
}

pub record RemoteHandle : Type 0 where
  pub dest_id : ℕ
  pub valid : Bool
  pub last_used : ℕ

abbrev pub closed_handle : RemoteHandle
closed_handle = record { dest_id = 0; valid = false; last_used = 0 }

pub record RemoteHandles : Type 0 where
  pub handles : List RemoteHandle
  pub lru_counter : ℕ

abbrev pub handle_at : RemoteHandles → ℕ → RemoteHandle
handle_at c i = get_or c.handles i closed_handle

-- A null pointer, the handle at an index, or the first handle of an empty vector, which C++ leaves
-- undefined.
pub data Found : Type 0 where
  no_handle : Found
  handle : ℕ → Found
  out_of_range : Found

-- The loops of `get_or_open_remote`, over the handles from index `i` on.
pub hit_loop : List RemoteHandle → ℕ → ℕ → Option ℕ
hit_loop [] dest i = none
hit_loop (h ∷ hs) dest i = if h.valid && h.dest_id == dest then some i else hit_loop hs dest (suc i)

pub empty_loop : List RemoteHandle → ℕ → Option ℕ
empty_loop [] i = none
empty_loop (h ∷ hs) i = if not h.valid then some i else empty_loop hs (suc i)

pub lru_loop : List RemoteHandle → ℕ → ℕ → ℕ → ℕ
lru_loop [] i lru used = lru
lru_loop (h ∷ hs) i lru used =
    let older = ltb h.last_used used in
    lru_loop hs (suc i) (if older then i else lru) (if older then h.last_used else used)

-- `h.last_used = ++lru_counter_`, for the handle `h` at an index.
pub touch : RemoteHandles → ℕ → RemoteHandle → RemoteHandles
touch c i h = record c {
  handles = set c.handles i (record h { last_used = (c.lru_counter + 1) % 2 ^ 64 });
  lru_counter = (c.lru_counter + 1) % 2 ^ 64;
}

pub close_remote : RemoteHandles → ℕ → RemoteHandles
close_remote c i =
    if (handle_at c i).valid then record c { handles = set c.handles i closed_handle } else c

pub open_at : RemoteHandles → ℕ → ℕ → Bool → Found × RemoteHandles
unfolding touch
open_at c i dest opened =
    if opened
    then (handle i, touch c i (record (handle_at c i) { dest_id = dest; valid = true }))
    else (no_handle, c)

pub get_or_open_remote : RemoteHandles → ℕ → Bool → Found × RemoteHandles
unfolding hit_loop empty_loop lru_loop touch close_remote open_at
get_or_open_remote c dest opened = elim (hit_loop c.handles dest 0) [
  | some i ↦ (handle i, touch c i (handle_at c i))
  | none ↦ elim (empty_loop c.handles 0) [
    | some i ↦ open_at c i dest opened
    | none ↦
        if length c.handles == 0
        then (out_of_range, c)
        else (let lru = lru_loop c.handles 0 0 (handle_at c 0).last_used in
            open_at (close_remote c lru) lru dest opened)
  ]
]

-- `close_all_remotes`.
pub close_all : List RemoteHandle → List RemoteHandle
close_all [] = []
close_all (h ∷ hs) = (if h.valid then closed_handle else h) ∷ close_all hs

pub close_all_remotes : RemoteHandles → RemoteHandles
unfolding close_all
close_all_remotes c = record c { handles = close_all c.handles }

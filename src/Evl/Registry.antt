-- ===== src/Evl/Registry.antt =====
-- The process-local mailbox registry of include/corerat/ipc/evl/evl_backend.hpp: an open-addressing
-- hash table from 32-bit mailbox ids to mailbox pointers, with linear probing and tombstones.
-- A pointer is `none` for nullptr, and otherwise the number of a mailbox object.
pub mod Probe
pub mod Map
pub mod Update
pub mod Remove
pub mod Room
pub mod Refine
mod Tests
use core_ra_t.Base.{
  ℕ, zero, suc, ◌+◌, ◌*◌, ◌/◌, ◌%◌, ◌^◌, Option, none, some, List, ◌||◌, get_or, set, replicate,
  ◌==◌, if◌then◌else◌,
}

abbrev pub max_mailboxes : ℕ
max_mailboxes = 256

abbrev pub registry_capacity : ℕ
registry_capacity = 512

pub record RegistryEntry : Type 0 where
  pub id : ℕ
  pub ptr : Option ℕ

abbrev pub empty_entry : RegistryEntry
empty_entry = record { id = 0; ptr = none }

abbrev pub Table : Type 0
Table = List RegistryEntry

-- The static table, zero-initialised.
pub registry_table : Table
registry_table = replicate registry_capacity empty_entry

-- `id * 2654435761u` wraps at 32 bits; the shift keeps the top nine.
pub registry_hash : ℕ → ℕ
registry_hash id = id * 2654435761 % 2 ^ 32 / 2 ^ 23

-- `(h + i) & (kRegistryCapacity - 1u)`: the capacity is a power of two.
abbrev pub slot_at : ℕ → ℕ → ℕ
slot_at h i = (h + i) % registry_capacity

abbrev pub id_at : Table → ℕ → ℕ
id_at t s = (get_or t s empty_entry).id

abbrev pub ptr_at : Table → ℕ → Option ℕ
ptr_at t s = (get_or t s empty_entry).ptr

-- The three loops. The first number counts the rounds left, the second is `i`.
pub insert_loop : ℕ → ℕ → Table → ℕ → ℕ → Option ℕ → Table
insert_loop zero i t h id ptr = t
insert_loop (suc n) i t h id ptr =
    let rest = insert_loop n (i + 1) t h id ptr in
    let s = slot_at h i in
    if id_at t s == 0 || id_at t s == id then set t s (record { id = id; ptr = ptr }) else rest

pub remove_loop : ℕ → ℕ → Table → ℕ → ℕ → Table
remove_loop zero i t h id = t
remove_loop (suc n) i t h id =
    let rest = remove_loop n (i + 1) t h id in
    let s = slot_at h i in
    if id_at t s == 0
    then t
    else if id_at t s == id
    then set t s (record { id = id_at t s; ptr = none })
    else rest

pub find_loop : ℕ → ℕ → Table → ℕ → ℕ → Option ℕ
find_loop zero i t h id = none
find_loop (suc n) i t h id =
    let rest = find_loop n (i + 1) t h id in
    let s = slot_at h i in
    if id_at t s == 0 then none else if id_at t s == id then ptr_at t s else rest

pub registry_insert : Table → ℕ → Option ℕ → Table
registry_insert t id ptr = insert_loop registry_capacity 0 t (registry_hash id) id ptr

pub registry_remove : Table → ℕ → Table
registry_remove t id = remove_loop registry_capacity 0 t (registry_hash id) id

pub registry_find : Table → ℕ → Option ℕ
registry_find t id = find_loop registry_capacity 0 t (registry_hash id) id
